-- ===== src/Bm8563/Tests.antt =====
-- The clock at a concrete date and time.
use espp.Prelude.{ℕ, ◌≡◌, ◌≢◌, refl, ◌∷◌, [], none, arith}
use espp.Peripheral.{Config, no_error, read_many_from_register, write_then_read, write_and_read}
use espp.Peripheral.Memory.{memory, memory-IsRegisterFile}
use espp.Bm8563.{
  DateTime, no_date_time, set_date_time, get_date_time, get_time, time_read, then_date,
}
use espp.Bm8563.Bcd.{IsDate, IsTime}
use espp.Bm8563.Clock.{get_date_time-set_date_time, get_date_time-error}

abbrev empty : ℕ → ℕ
empty r = 0

abbrev eve : DateTime
eve = record {
  date = record { year = 1999; month = 12; weekday = 5; day = 31 };
  time = record { hour = 23; minute = 59; second = 58 };
}

eve-IsDate : IsDate eve.date
eve-IsDate = record {
  year_from = omega arith;
  year_to = omega arith;
  month_to = omega arith;
  weekday_to = omega arith;
  day_to = omega arith;
}

eve-IsTime : IsTime eve.time
eve-IsTime = record { hour_to = omega arith; minute_to = omega arith; second_to = omega arith }

get_date_time-set_date_time_example :
    (bus' : ℕ → ℕ) × (set_date_time memory eve empty ≡ (no_error, bus'))
    × (bus'' : ℕ → ℕ) × (get_date_time (1 ∷ 2 ∷ 3 ∷ []) (1 ∷ 2 ∷ 3 ∷ 4 ∷ []) memory bus'
        ≡ (no_error, eve, bus''))
get_date_time-set_date_time_example =
    get_date_time-set_date_time memory (λ bus. bus) memory-IsRegisterFile (omega arith) eve empty
      (1 ∷ 2 ∷ 3 ∷ []) (1 ∷ 2 ∷ 3 ∷ 4 ∷ []) eve-IsDate eve-IsTime refl refl

-- A device without callbacks.
abbrev silent : Config ℕ
silent = record {
  address = none;
  reg_addr_size = 1;
  write = none;
  read = none;
  read_register = none;
  write_then_read = none;
}

silent-fails : (get_date_time (1 ∷ 2 ∷ 3 ∷ []) (4 ∷ 5 ∷ 6 ∷ 7 ∷ []) silent 0).0 ≢ no_error
unfolding get_date_time get_time time_read then_date read_many_from_register write_then_read
    write_and_read
silent-fails = λ e. cc e

get_date_time-error_example :
    (get_date_time (1 ∷ 2 ∷ 3 ∷ []) (4 ∷ 5 ∷ 6 ∷ 7 ∷ []) silent 0).1 ≡ no_date_time
get_date_time-error_example =
    get_date_time-error silent (1 ∷ 2 ∷ 3 ∷ []) (4 ∷ 5 ∷ 6 ∷ 7 ∷ []) 0 silent-fails
