-- ===== src/Ads7138/Voltages.antt =====
-- The voltages that are read of the ADS7138: components/ads7138/include/ads7138.hpp. The conversion
-- of a raw value to a voltage is a parameter, any function. The loop that waits has fuel, and `none`
-- is a conversion that goes on when the fuel is used up.
use espp.Prelude.{
  ℕ, zero, suc, Bool, false, Option, none, some, List, [], map, if◌then◌else◌, ◌>>=◌,
}
use espp.Peripheral.{Config}
use espp.Ads7138.{Channel, Error, clear, Driver, is_manual, is_autonomous}
use espp.Ads7138.Readings.{conversion_complete, read_recent, read_recent_all, trigger_conversion}
use espp.Ads7138.Statistics.{read_mapped_recent_all}

module _ {S : Type 0} where
  -- Once the loop has looked whether the conversion is complete.
  unfoldable pub polled : (S → Option (Error × S)) → Error × Bool × S → Option (Error × S)
  polled next (clear, false, s) = next s
  polled next (e, done, s) = some (e, s)

module _ {S : Type 0} {V : Type 0} (raw_to_mv : ℕ → V) (zero_mv : V) where
  -- What follows `if (ec) return 0;`.
  unfoldable pub unless_zero : Error × S → (S → Option (Error × V × S)) → Option (Error × V × S)
  unless_zero (clear, s) next = next s
  unless_zero (e, s) next = some (e, zero_mv, s)

  unfoldable pub mv_read : Error × ℕ × S → Error × V × S
  mv_read (clear, value, s) = (clear, raw_to_mv value, s)
  mv_read (e, value, s) = (e, zero_mv, s)

  unfoldable pub mvs_read : Error × List ℕ × S → Error × List V × S
  mvs_read (clear, values, s) = (clear, map raw_to_mv values, s)
  mvs_read (e, values, s) = (e, [], s)

  unfoldable pub mapped_mvs_read : Error × List (Channel × ℕ) × S → Error × List (Channel × V) × S
  mapped_mvs_read (clear, values, s) = (clear, map (λ p. (p.0, raw_to_mv (p.1))) values, s)
  mapped_mvs_read (e, values, s) = (e, [], s)

module _ {S : Type 0} (config : Config S) (d : Driver) where
  unfoldable pub wait_for_conversion : ℕ → S → Option (Error × S)
  wait_for_conversion zero s = none
  wait_for_conversion (suc fuel) s =
      polled (λ s1. wait_for_conversion fuel s1) (conversion_complete config d s)

  unfoldable pub triggered : Channel → S → Error × S
  triggered c s = if is_manual d.mode then trigger_conversion config d c s else (clear, s)

  unfoldable pub waited : ℕ → S → Option (Error × S)
  waited fuel s = if is_autonomous d.mode then some (clear, s) else wait_for_conversion fuel s

  module _ {V : Type 0} (raw_to_mv : ℕ → V) (zero_mv : V) where
    unfoldable pub get_mv : ℕ → Channel → List ℕ → S → Option (Error × V × S)
    get_mv fuel c buffer s = unless_zero raw_to_mv zero_mv (triggered c s) (λ s1. do
      r ← waited fuel s1
      unless_zero raw_to_mv zero_mv r
          (λ s2. some (mv_read raw_to_mv zero_mv (read_recent config d c buffer s2))))

    unfoldable pub get_all_mv : List ℕ → S → Error × List V × S
    get_all_mv raw_values s = mvs_read raw_to_mv zero_mv (read_recent_all config d raw_values s)

    unfoldable pub get_all_mv_map : List ℕ → S → Error × List (Channel × V) × S
    get_all_mv_map raw_values s =
        mapped_mvs_read raw_to_mv zero_mv (read_mapped_recent_all config d raw_values s)
