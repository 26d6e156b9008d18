-- ===== src/Decoder/Tests.antt =====
-- The theorems on the built-in decoder at a network that answers.
use rtl_ais_android.Base.{
  ℕ, ◌<◌, ◌≡◌, ◌≢◌, refl, arith, true, false, [], ◌∷◌, some, length, replicate,
}
use rtl_ais_android.Decoder.{
  live, dangling, Decoder, done, aborted, double_free, Network, init_ais_decoder,
  nmea_sentence_received, free_ais_decoder,
}
use rtl_ais_android.Decoder.Assembly.{
  nmea_sentence_received-fits, receive_from, receive_message, receive_message-cut,
}
use rtl_ais_android.Decoder.Lifecycle.{IsOpen, init_ais_decoder-IsOpen, init-free_double_free}

abbrev network : Network
network = record {
  Host = ℕ;
  atoi = λ digits. 10110;
  getaddrinfo = λ host port. some 1;
  failed_result = λ addr. addr;
  socket = λ list. some 4;
  sendto = λ datagram. true;
}

abbrev opened : Decoder
opened = record {
  debug_nmea = false;
  buffer = [];
  sock = some 4;
  addr = live 1;
  on_sound_level_changed = false;
  on_nmea_sentence_received = true;
  sent = [];
}

first_part :
    nmea_sentence_received network (33 ∷ (44 ∷ [])) 2 1 opened
    ≡ done (record opened { buffer = 33 ∷ (44 ∷ []) })
unfolding nmea_sentence_received
first_part = refl

nmea_sentence_received-fits_example : length {A = ℕ} (33 ∷ (44 ∷ [])) < 2048
nmea_sentence_received-fits_example =
    nmea_sentence_received-fits network (33 ∷ (44 ∷ [])) 2 1 opened
      (record opened { buffer = 33 ∷ (44 ∷ []) }) (omega arith) (omega arith) first_part

receive_message_example :
    receive_from network 2 1 ((33 ∷ []) ∷ ((44 ∷ []) ∷ [])) opened
    ≡ done (record opened { buffer = []; sent = (33 ∷ (44 ∷ [])) ∷ [] })
receive_message_example =
    receive_message network ((33 ∷ []) ∷ []) (44 ∷ []) 2 1 opened (omega arith) refl (omega arith)
      (omega arith) refl

abbrev full : Decoder
full = record opened { buffer = replicate 2040 65 }

receive_message-cut_example :
    receive_from network 3 1 (replicate 10 66 ∷ ((33 ∷ []) ∷ ((44 ∷ []) ∷ []))) full
    ≡ done (record full { buffer = []; sent = (33 ∷ (44 ∷ [])) ∷ [] })
receive_message-cut_example =
    receive_message-cut network (replicate 10 66) ((33 ∷ []) ∷ []) (44 ∷ []) 3 1 full (omega arith)
      refl (omega arith) (omega arith) (omega arith) (omega arith) refl

init_ais_decoder-IsOpen_example :
    let r = init_ais_decoder network 7 [] true false opened in
    (r ≢ double_free)
    × (r ≢ aborted)
    × ((t : Decoder) → r ≡ done (true, t) → IsOpen network 7 [] true false t)
init_ais_decoder-IsOpen_example = init_ais_decoder-IsOpen network 7 [] true false opened (λ e. cc)

freed : free_ais_decoder network opened ≡ done (record opened { addr = dangling })
unfolding free_ais_decoder
freed = refl

init-free_double_free_example :
    init_ais_decoder network 7 [] true false (record opened { addr = dangling }) ≡ double_free
init-free_double_free_example =
    init-free_double_free network 7 [] true false opened (record opened { addr = dangling }) 1 refl
      freed
