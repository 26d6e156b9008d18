-- ===== src/Decoder/Lifecycle.antt =====
-- The address list over the calls of `init_ais_decoder` and `free_ais_decoder`.
use rtl_ais_android.Base.{ℕ, ◌≡◌, ◌≢◌, arith, Bool, true, some}
use rtl_ais_android.Decoder.{
  live, dangling, Bytes, Decoder, done, aborted, double_free, Network, init_ais_decoder,
  free_ais_decoder,
}

module _ (net : Network) (host : net.Host) (port : Bytes) (levels debug : Bool) where
  -- What a successful call has set up.
  pub record IsOpen (t : Decoder) : Type 0 where
    pub list : ℕ
    pub fd : ℕ
    pub resolved : net.getaddrinfo host (net.atoi port) ≡ some list
    pub made : net.socket list ≡ some fd
    pub addr_is : t.addr ≡ live list
    pub sock_is : t.sock ≡ some fd
    pub callback : t.on_nmea_sentence_received ≡ true

  -- Where the address list is not dangling, `init_ais_decoder` neither aborts nor frees a list twice,
  -- and when it reports success the host resolved, a socket was made, the list is the one resolved,
  -- the socket is open and the sentence callback is set.
  pub init_ais_decoder-IsOpen :
      (s : Decoder)
      → s.addr ≢ dangling
      → (init_ais_decoder net host port levels debug s ≢ double_free)
        × (init_ais_decoder net host port levels debug s ≢ aborted)
        × ((t : Decoder)
            → init_ais_decoder net host port levels debug s ≡ done (true, t)
            → IsOpen t)
  unfolding init_ais_decoder
  init_ais_decoder-IsOpen s ok = (λ e. ground arith, λ e. ground arith, λ t e. ground arith)

  -- After `free_ais_decoder` the list stays dangling, so a next `init_ais_decoder` frees it again,
  -- whatever it is called with.
  pub init-free_double_free :
      (s t : Decoder) (a : ℕ)
      → s.addr ≡ live a
      → free_ais_decoder net s ≡ done t
      → init_ais_decoder net host port levels debug t ≡ double_free
  unfolding init_ais_decoder free_ais_decoder
  init-free_double_free s t a live_list freed = ground arith
