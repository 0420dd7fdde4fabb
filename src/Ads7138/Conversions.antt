-- ===== src/Ads7138/Conversions.antt =====
-- The wait for a conversion: components/ads7138/include/ads7138.hpp.
use espp.Prelude.{
  ℕ, zero, suc, ◌<◌, ◌≡◌, ◌≢◌, refl, ap, ◌∙◌, Bool, true, false, some, List, arith, if◌then◌else◌,
  ◌>>=◌,
}
use mathlib.Core.Bool.{false≢true}
use espp.Peripheral.{Config}
use espp.Ads7138.{
  Channel, raw, Error, clear, failed, invalid_argument, protocol_error, Driver, is_autonomous,
}
use espp.Ads7138.Readings.{conversion_complete, complete, read_recent}
use espp.Ads7138.Voltages.{
  polled, unless_zero, mv_read, wait_for_conversion, triggered, waited, get_mv,
}

is_clear : Error → Bool
is_clear clear = true
is_clear (failed e) = false
is_clear invalid_argument = false
is_clear protocol_error = false

refused : protocol_error ≢ clear
unfolding is_clear
refused h = false≢true (ap is_clear h)

invalid : invalid_argument ≢ clear
unfolding is_clear
invalid h = false≢true (ap is_clear h)

unable : (e : _) → failed e ≢ clear
unfolding is_clear
unable e h = false≢true (ap is_clear h)

module _ {S : Type 0} (config : Config S) (d : Driver) where
  -- A conversion that is complete after n looks at it.
  pub data Converts : ℕ → S → S → Type 0 where
    converted : (s s' : S) → conversion_complete config d s ≡ (clear, true, s') → Converts 0 s s'
    going :
        (n : ℕ) (s s1 s' : S)
        → conversion_complete config d s ≡ (clear, false, s1)
        → Converts n s1 s'
        → Converts (suc n) s s'

  wait-Converts :
      (n fuel : ℕ) (s s' : S)
      → Converts n s s'
      → n < fuel
      → wait_for_conversion config d fuel s ≡ some (clear, s')
  unfolding wait_for_conversion polled
  wait-Converts n zero s s' h l = absurd (omega (arith, l))
  wait-Converts _ (suc fuel) _ _ (converted s s' h) l = rw h refl
  wait-Converts _ (suc fuel) _ _ (going n s s1 s' h hs) l =
      rw h (wait-Converts n fuel s1 s' hs (omega arith))

  module _ (driven : is_autonomous d.mode ≡ false) where
    waited-wait : (fuel : ℕ) (s : S) → waited config d fuel s ≡ wait_for_conversion config d fuel s
    unfolding waited
    waited-wait fuel s =
        ap (λ b. if b then some (clear, s) else wait_for_conversion config d fuel s) driven

    module _ (unaveraged : d.data_format ≡ raw) where
      raw-wait : (fuel : ℕ) (s : S) → waited config d (suc fuel) s ≡ some (protocol_error, s)
      unfolding wait_for_conversion polled conversion_complete complete
      raw-wait fuel s =
          waited-wait (suc fuel) s
          ∙ ap
              (λ format.
                polled (λ s1. wait_for_conversion config d fuel s1) (complete config d format s))
              unaveraged

    module _ {V : Type 0} (raw_to_mv : ℕ → V) (zero_mv : V) where
      -- In a mode that is not autonomous, at a conversion that is complete after n looks at it, a
      -- fuel above n is enough: get_mv gives what is read of the channel then.
      pub get_mv-Converts :
          (n fuel : ℕ) (c : Channel) (buffer : List ℕ) (s s1 s2 : S)
          → triggered config d c s ≡ (clear, s1)
          → Converts n s1 s2
          → n < fuel
          → get_mv config d raw_to_mv zero_mv fuel c buffer s
            ≡ some (mv_read raw_to_mv zero_mv (read_recent config d c buffer s2))
      unfolding get_mv unless_zero
      get_mv-Converts n fuel c buffer s s1 s2 t h l =
          rw (t, waited-wait fuel s1, wait-Converts n fuel s1 s2 h l) refl

      module _ (unaveraged : d.data_format ≡ raw) where
        started-raw :
            (r : Error × S) (fuel : ℕ) (c : Channel) (buffer : List ℕ)
            → (e : Error) × (s' : S) × (unless_zero raw_to_mv zero_mv r (λ s1.
                  waited config d (suc fuel) s1 >>= λ r1.
                  unless_zero raw_to_mv zero_mv r1
                    (λ s2. some (mv_read raw_to_mv zero_mv (read_recent config d c buffer s2))))
                ≡ some (e, zero_mv, s'))
              × (e ≢ clear)
        unfolding unless_zero
        started-raw (clear, s) fuel c buffer =
            (protocol_error, s, rw (raw-wait unaveraged fuel s) refl, refused)
        started-raw (failed e, s) fuel c buffer = (failed e, s, refl, unable e)
        started-raw (invalid_argument, s) fuel c buffer = (invalid_argument, s, refl, invalid)
        started-raw (protocol_error, s) fuel c buffer = (protocol_error, s, refl, refused)

        -- For a driver with the raw data format, in a mode that is not autonomous, get_mv gives no
        -- voltage: whatever the device answers, one iteration of the wait is enough, and it ends
        -- with an error and the voltage zero.
        pub get_mv-raw :
            (fuel : ℕ) (c : Channel) (buffer : List ℕ) (s : S)
            → (e : Error) × (s' : S) × (get_mv config d raw_to_mv zero_mv (suc fuel) c buffer s
                ≡ some (e, zero_mv, s'))
              × (e ≢ clear)
        unfolding get_mv
        get_mv-raw fuel c buffer s = started-raw (triggered config d c s) fuel c buffer
