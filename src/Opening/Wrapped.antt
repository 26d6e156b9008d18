-- ===== src/Opening/Wrapped.antt =====
-- `rtlsdr_open2` at the index 2 ^ 32 - 1, which -1 becomes as a `uint32_t`.
use rtl_ais_android.Base.{
  ℕ, suc, ◌+◌, ◌-◌, ◌%◌, ◌^◌, ◌≤◌, ◌<◌, ◌≡◌, refl, ap, ◌∙◌, arith, ◌==◌, Bool, true, false, List,
  [], ◌∷◌, length, none, some, if◌then◌else◌,
}
use rtl_ais_android.Base.Int.{pos, negsuc}
use rtl_ais_android.Opening.{Usb, search_device, open_found, set_up, probe, rtlsdr_open2}

-- With the index 2 ^ 32 - 1, the test of a round holds as long as no known device was met.
after_known :
    (count i : ℕ) (ks : List Bool)
    → 1 ≤ count
    → count + length ks < 2 ^ 32
    → search_device (2 ^ 32 - 1) count i ks ≡ none
unfolding search_device
after_known count i [] some_known few = refl
after_known count i (true ∷ ks) some_known few =
    let differ : ((2 ^ 32 - 1) == (suc count + 2 ^ 32 - 1) % 2 ^ 32) ≡ false = ground arith in
    rw (differ, search_device) (after_known (suc count) (suc i) ks (omega arith) (omega arith))
after_known count i (false ∷ ks) some_known few =
    let differ : ((2 ^ 32 - 1) == (count + 2 ^ 32 - 1) % 2 ^ 32) ≡ false = ground arith in
    rw (differ, search_device) (after_known count (suc i) ks some_known (omega arith))

search_wrapped :
    (known : Bool) (ks : List Bool)
    → length ks < 2 ^ 32 - 1
    → search_device (2 ^ 32 - 1) 0 0 (known ∷ ks) ≡ (if known then none else some 0)
unfolding search_device
search_wrapped true ks few = after_known 1 1 ks (omega arith) (omega arith)
search_wrapped false ks few = refl

-- The calls of libusb succeed.
pub record Answers (u : Usb) : Type 0 where
  pub malloc : u.malloc ≡ true
  pub init2 : u.init2 ≡ pos 0
  pub context : u.context ≡ true
  pub open2 : u.open2 ≡ pos 0
  pub claim : u.claim ≡ pos 0

-- What is reported then: the first device of the list is opened if it is not a known one, and no
-- device otherwise.
pub rtlsdr_open2_wrapped :
    (u : Usb) (known : Bool) (ks : List Bool)
    → Answers u
    → u.devices ≡ known ∷ ks
    → length ks < 2 ^ 32 - 1
    → let r = rtlsdr_open2 u (2 ^ 32 - 1) in
      (r.value ≡ (if known then negsuc 0 else pos 0))
      × (r.out_dev ≡ (if known then none else some (probe u).0))
      × (r.device ≡ (if known then none else some 0))
unfolding rtlsdr_open2 open_found set_up
rtlsdr_open2_wrapped u known ks well listed few =
    let found : search_device (2 ^ 32 - 1) 0 0 u.devices ≡ (if known then none else some 0) =
      ap (λ l. search_device (2 ^ 32 - 1) 0 0 l) listed ∙ search_wrapped known ks few in
    ground (arith, well.malloc, well.init2, well.context, found, well.open2, well.claim)
