-- ===== src/Decoder.antt =====
-- app/src/main/jni/aisdecoder/aisdecoder.c: the socket of the built-in AIS decoder, the sentences
-- that it receives, and their assembly into datagrams.
pub mod Assembly
pub mod Lifecycle
mod Tests
use rtl_ais_android.Base.{
  ℕ, ◌+◌, ◌%◌, ◌^◌, ◌==◌, ◌&&◌, not, Bool, true, false, ltb, List, [], ◌∷◌, ◌++◌, length, Option,
  none, some, if◌then◌else◌,
}

abbrev pub Bytes : Type 0
Bytes = List ℕ

-- MAX_BUFFER_LENGTH
abbrev pub max_buffer_length : ℕ
max_buffer_length = 2048

-- The list that `addr` points to. `freeaddrinfo` leaves the pointer as it is.
pub data Addr : Type 0 where
  null : Addr
  live : ℕ → Addr
  dangling : Addr

-- The static variables. `buffer` is its first `buffer_count` bytes, and `sent` are the datagrams
-- handed to `sendto` so far, the newest last.
pub record Decoder : Type 0 where
  pub debug_nmea : Bool
  pub buffer : Bytes
  pub sock : Option ℕ
  pub addr : Addr
  pub on_sound_level_changed : Bool
  pub on_nmea_sentence_received : Bool
  pub sent : List Bytes

-- How a call ends: normally, by `abort()`, or by freeing a list twice.
pub data Outcome {ℓ} (A : Type ℓ) : Type ℓ where
  done : A → Outcome A
  aborted : Outcome A
  double_free : Outcome A

infixl 5 ◌>>=◌
abbrev pub ◌>>=◌ {ℓ κ} : {A : Type ℓ} {B : Type κ} → Outcome A → (A → Outcome B) → Outcome B
done a >>= f = f a
aborted >>= f = aborted
double_free >>= f = double_free

-- The system calls: `getaddrinfo` by host and port number, what it leaves in the result pointer when
-- it fails, `socket`, and whether a `sendto` of a datagram succeeds. `atoi` reads the port.
pub record Network : Type 1 where
  pub Host : Type 0
  pub atoi : Bytes → ℕ
  pub getaddrinfo : Host → ℕ → Option ℕ
  pub failed_result : Addr → Addr
  pub socket : ℕ → Option ℕ
  pub sendto : Bytes → Bool

module _ (net : Network) where
  open net use {Host, atoi, getaddrinfo, failed_result, socket, sendto}

  pub send : Bytes → Decoder → Outcome Decoder
  send datagram s =
      if sendto datagram then done (record s { sent = s.sent ++ (datagram ∷ []) }) else aborted

  -- The part of a longer message is kept if it fits; else the kept parts are dropped. The sum is
  -- an `unsigned int`.
  pub keep_part : Bytes → Decoder → Decoder
  keep_part sentence s =
      if ltb ((length s.buffer + length sentence) % 2 ^ 32) max_buffer_length
      then record s { buffer = s.buffer ++ sentence }
      else record s { buffer = [] }

  unfoldable pub nmea_sentence_received : Bytes → ℕ → ℕ → Decoder → Outcome Decoder
  unfolding send keep_part
  nmea_sentence_received sentence sentences sentencenum s =
      if sentences == 1
      then send sentence s
      else (let s' = keep_part sentence s in
          if (sentences == sentencenum) && ltb 0 (length s'.buffer)
          then (send s'.buffer s' >>= λ t. done (record t { buffer = [] }))
          else done s')

  -- freeaddrinfo(addr), which must not see a list a second time.
  pub freeaddrinfo : Decoder → Outcome Decoder
  freeaddrinfo s = elim s.addr [
    | null ↦ done s
    | live a ↦ done (record s { addr = dangling })
    | dangling ↦ double_free
  ]

  -- if (addr != NULL) freeaddrinfo(addr)
  pub free_old : Decoder → Outcome Decoder
  unfolding freeaddrinfo
  free_old s = elim s.addr [ null ↦ done s | live a ↦ freeaddrinfo s | dangling ↦ freeaddrinfo s ]

  -- The flag is the return value.
  unfoldable pub init_socket : Host → Bytes → Decoder → Outcome (Bool × Decoder)
  unfolding free_old
  init_socket host portname s = free_old s >>= λ t. elim (getaddrinfo host (atoi portname)) [
    | none ↦ done (false, record t { addr = failed_result t.addr })
    | some a ↦
        (let u = record t { addr = live a } in
          elim (socket a) [
            | none ↦ done (false, record u { sock = none })
            | some fd ↦ done (true, record u { sock = some fd })
          ])
  ]

  -- EXIT_FAILURE is `false`. The sound decoder's own state is not part of this file.
  unfoldable pub init_ais_decoder : Host → Bytes → Bool → Bool → Decoder → Outcome (Bool × Decoder)
  unfolding init_socket
  init_ais_decoder host port show_levels debug s =
      init_socket host port (record s { debug_nmea = debug }) >>= λ r.
      (let (opened, t) = r in
        if opened
        then done (
          true,
          record t {
            on_sound_level_changed = if show_levels then true else t.on_sound_level_changed;
            on_nmea_sentence_received = true;
          },
        )
        else done (false, t))

  unfoldable pub free_ais_decoder : Decoder → Outcome Decoder
  unfolding freeaddrinfo
  free_ais_decoder s = freeaddrinfo s
