-- ===== src/Decoder/Assembly.antt =====
-- How the parts of a message become one datagram.
use mathlib.Core.List.{append_assoc}
use rtl_ais_android.Base.{
  ℕ, suc, ◌+◌, ◌^◌, ◌≤◌, ◌<◌, ◌≡◌, ◌≢◌, refl, arith, true, List, [], ◌∷◌, ◌++◌, length,
  length-append, if◌then◌else◌, ◌∙◌,
}
use rtl_ais_android.Decoder.{
  Bytes, Decoder, Outcome, done, aborted, ◌>>=◌, Network, nmea_sentence_received, max_buffer_length,
}

-- The parts in order.
abbrev pub joined : List Bytes → Bytes
joined [] = []
joined (p ∷ ps) = p ++ joined ps

module _ (net : Network) where
  -- A call that ends normally keeps fewer bytes than the buffer has, whatever it is called with, if
  -- the sentence is shorter than 2 ^ 31 bytes.
  pub nmea_sentence_received-fits :
      (sentence : Bytes) (sentences num : ℕ) (s t : Decoder)
      → length s.buffer < max_buffer_length
      → length sentence < 2 ^ 31
      → nmea_sentence_received net sentence sentences num s ≡ done t
      → length t.buffer < max_buffer_length
  unfolding nmea_sentence_received
  nmea_sentence_received-fits sentence sentences num s t fits short e =
      ground (arith, length-append s.buffer sentence)

  -- The calls for the parts of one message of `n`, from part `k` on.
  pub receive_from : ℕ → ℕ → List Bytes → Decoder → Outcome Decoder
  receive_from n k [] s = done s
  receive_from n k (p ∷ ps) s =
      nmea_sentence_received net p n k s >>= λ t. receive_from n (suc k) ps t

  -- A part before the last one that fits is kept.
  middle_part :
      (p : Bytes) (n k : ℕ) (s : Decoder)
      → n ≢ 1
      → n ≢ k
      → length s.buffer + length p < max_buffer_length
      → nmea_sentence_received net p n k s ≡ done (record s { buffer = s.buffer ++ p })
  unfolding nmea_sentence_received
  middle_part p n k s several before fits = ground (arith, length-append s.buffer p)

  -- The last part that fits is sent with what is kept.
  last_part :
      (p : Bytes) (n : ℕ) (s : Decoder)
      → n ≢ 1
      → 0 < length s.buffer + length p
      → length s.buffer + length p < max_buffer_length
      → net.sendto (s.buffer ++ p) ≡ true
      → nmea_sentence_received net p n n s
        ≡ done (record s { buffer = []; sent = s.sent ++ ((s.buffer ++ p) ∷ []) })
  unfolding nmea_sentence_received
  last_part p n s several some fits ok = ground (arith, length-append s.buffer p)

  -- A part before the last one that does not fit.
  dropped :
      (p : Bytes) (n k : ℕ) (s : Decoder)
      → n ≢ 1
      → n ≢ k
      → max_buffer_length ≤ length s.buffer + length p
      → length s.buffer + length p < 2 ^ 32
      → nmea_sentence_received net p n k s ≡ done (record s { buffer = [] })
  unfolding nmea_sentence_received
  dropped p n k s several before full small = ground arith

  -- The parts of a message of two or more, which fit the buffer behind what it already holds: when the
  -- send succeeds, exactly one datagram is sent, what was held followed by the parts in order, and
  -- the buffer is left empty. Nothing else changes.
  pub receive_message :
      (ps : List Bytes) (p : Bytes) (n k : ℕ) (s : Decoder)
      → n ≢ 1
      → n ≡ k + length ps
      → 0 < length s.buffer + length (joined ps) + length p
      → length s.buffer + length (joined ps) + length p < max_buffer_length
      → net.sendto (s.buffer ++ (joined ps ++ p)) ≡ true
      → receive_from n k (ps ++ (p ∷ [])) s
        ≡ done (record s { buffer = []; sent = s.sent ++ ((s.buffer ++ (joined ps ++ p)) ∷ []) })
  unfolding receive_from
  receive_message [] p n k s several last some fits ok =
      let e : k ≡ n = omega arith in rw (e, last_part p n s several (omega arith) (omega arith) ok)
  receive_message (q ∷ qs) p n k s several last some fits ok =
      let sum = length-append {0} q (joined qs) in
      let sum' = length-append {0} s.buffer q in
      let step = middle_part q n k s several (omega arith) (omega arith) in
      let regroup : (s.buffer ++ q) ++ (joined qs ++ p) ≡ s.buffer ++ ((q ++ joined qs) ++ p) =
        simp append_assoc in
      rw step (
        receive_message qs p n (suc k) (record s { buffer = s.buffer ++ q }) several (omega arith)
          (omega arith) (omega arith) (rw regroup ok)
        ∙ rw regroup)

  -- A part before the last one that does not fit behind what is kept throws away both; when the
  -- later parts then fit, the datagram sent at the end holds only those: the message is cut.
  pub receive_message-cut :
      (q : Bytes) (ps : List Bytes) (p : Bytes) (n k : ℕ) (s : Decoder)
      → n ≢ 1
      → n ≡ suc (k + length ps)
      → max_buffer_length ≤ length s.buffer + length q
      → length s.buffer + length q < 2 ^ 32
      → 0 < length (joined ps) + length p
      → length (joined ps) + length p < max_buffer_length
      → net.sendto (joined ps ++ p) ≡ true
      → receive_from n k (q ∷ (ps ++ (p ∷ []))) s
        ≡ done (record s { buffer = []; sent = s.sent ++ ((joined ps ++ p) ∷ []) })
  unfolding receive_from
  receive_message-cut q ps p n k s several last full small some fits ok =
      rw (dropped q n k s several (omega arith) full small) (
        receive_message ps p n (suc k) (record s { buffer = [] }) several (omega arith)
          (omega arith) (omega arith) ok)

  -- A message of one sentence is sent at once and leaves what is kept of another alone; a send that
  -- fails aborts.
  pub receive_single :
      (sentence : Bytes) (num : ℕ) (s : Decoder)
      → nmea_sentence_received net sentence 1 num s ≡ (
          if net.sendto sentence
          then done (record s { sent = s.sent ++ (sentence ∷ []) })
          else aborted)
  unfolding nmea_sentence_received
  receive_single sentence num s = refl
