-- ===== src/Bm8563/Clock.antt =====
-- Setting and reading the clock on a register file.
use espp.Prelude.{ℕ, ◌*◌, ◌^◌, ◌≤◌, ◌≡◌, ◌≢◌, refl, ◌∙◌, inr, List, length, arith}
use espp.Peripheral.{Config, ErrorCode, no_error, io_error, operation_not_supported}
use espp.Peripheral.RegisterFile.{
  IsRegisterFile, stored, span, span-stored, span-stored-apart, span-cong,
}
use espp.Peripheral.Access.{write_many-result, read_many-result}
use espp.Bm8563.{
  Date, Time, DateTime, no_date_time, get_date, get_time, set_date, set_time, set_date_time,
  get_date_time, date_bytes, time_bytes, date_read, time_read, then_date, then_time, with_date,
}
use espp.Bm8563.Bcd.{IsDate, IsTime, bytes_date-date_bytes, bytes_time-time_bytes}

module _ {S : Type 0} (config : Config S) (registers : S → ℕ → ℕ)
    (file : IsRegisterFile config registers)
    (addressable : 9 ≤ 2 ^ (8 * config.reg_addr_size)) where
  -- The date's registers after both transfers: the time stands below them.
  dates_shown :
      (d : Date) (t : Time) (bus : S) (n m : ℕ)
      → span
          (registers (
            file.after_read
              (file.written (file.written bus 5 (date_bytes d)) 2 (time_bytes t))
              n
              m))
          5
          4
        ≡ date_bytes d
  unfolding date_bytes time_bytes
  dates_shown d t bus n m =
      let bus' = file.written bus 5 (date_bytes d) in
      span-cong (registers (file.after_read (file.written bus' 2 (time_bytes t)) n m))
        (stored 2 (time_bytes t) (registers bus')) 5 4
        (λ r.
          file.read_keeps n m (file.written bus' 2 (time_bytes t)) r
          ∙ file.write_stores 2 (time_bytes t) bus' r (omega arith))
      ∙ span-stored-apart 2 (time_bytes t) (registers bus') 5 4 (inr (omega arith))
      ∙ span-cong (registers bus') (stored 5 (date_bytes d) (registers bus)) 5 4
          (λ r. file.write_stores 5 (date_bytes d) bus r (omega arith))
      ∙ span-stored 5 (date_bytes d) (registers bus)

  times_shown :
      (t : Time) (bus : S) → span (registers (file.written bus 2 (time_bytes t))) 2 3 ≡ time_bytes t
  unfolding time_bytes
  times_shown t bus =
      span-cong (registers (file.written bus 2 (time_bytes t)))
        (stored 2 (time_bytes t) (registers bus)) 2 3
        (λ r. file.write_stores 2 (time_bytes t) bus r (omega arith))
      ∙ span-stored 2 (time_bytes t) (registers bus)

  set_date_time-result :
      (dt : DateTime) (bus : S)
      → set_date_time config dt bus
        ≡ (no_error, file.written (file.written bus 5 (date_bytes dt.date)) 2 (time_bytes dt.time))
  unfolding set_date_time set_date set_time then_time date_bytes time_bytes
  set_date_time-result dt bus =
      rw (write_many-result config registers file 5 (date_bytes dt.date) bus (omega arith)) (
        write_many-result config registers file 2 (time_bytes dt.time)
          (file.written bus 5 (date_bytes dt.date)) (omega arith))

  -- On a register file with at least nine registers, `set_date_time` of a date from 1900 to 2099
  -- and a time of day succeeds, and `get_date_time` then reads exactly that date and time without an
  -- error, whatever its local buffers of three and four bytes held before.
  pub get_date_time-set_date_time :
      (dt : DateTime) (bus : S) (time_before date_before : List ℕ)
      → IsDate dt.date
      → IsTime dt.time
      → length time_before ≡ 3
      → length date_before ≡ 4
      → (bus' : S) × (set_date_time config dt bus ≡ (no_error, bus'))
        × (bus'' : S) × (get_date_time time_before date_before config bus' ≡ (no_error, dt, bus''))
  unfolding get_date_time get_time get_date then_date with_date time_read date_read
  get_date_time-set_date_time dt bus time_before date_before vd vt three four =
      let bus' = file.written (file.written bus 5 (date_bytes dt.date)) 2 (time_bytes dt.time) in
      let between = file.after_read bus' 2 (length time_before) in
      (
        bus',
        set_date_time-result dt bus,
        file.after_read between 5 (length date_before),
        rw (read_many-result config registers file 2 time_before bus' (omega arith)) (
            rw
              (
                read_many-result config registers file 5 date_before between (omega arith),
                three,
                four,
              )
              (rw (times_shown dt.time (file.written bus 5 (date_bytes dt.date))) (
                rw
                  (
                    dates_shown dt.date dt.time bus 2 3,
                    bytes_date-date_bytes dt.date vd,
                    bytes_time-time_bytes dt.time vt,
                  )
                  refl))),
      )

module _ {S : Type 0} where
  -- Whatever the callbacks do: when `get_date_time` reports an error, the date and time it returns
  -- are all zero, and no part of a reading.
  pub get_date_time-error :
      (config : Config S) (time_before date_before : List ℕ) (bus : S)
      → (get_date_time time_before date_before config bus).0 ≢ no_error
      → (get_date_time time_before date_before config bus).1 ≡ no_date_time
  unfolding get_date_time then_date with_date
  get_date_time-error config time_before date_before bus failed =
      on_time (get_time time_before config bus) failed
    where
      on_date :
          (t : Time) (r : ErrorCode × Date × S)
          → (with_date t r).0 ≢ no_error
          → (with_date t r).1 ≡ no_date_time
      on_date t (no_error, d, b) h = absurd (h refl)
      on_date t (io_error, d, b) h = refl
      on_date t (operation_not_supported, d, b) h = refl

      on_time :
          (r : ErrorCode × Time × S)
          → (then_date date_before config r).0 ≢ no_error
          → (then_date date_before config r).1 ≡ no_date_time
      on_time (no_error, t, b) h = on_date t (get_date date_before config b) h
      on_time (io_error, t, b) h = refl
      on_time (operation_not_supported, t, b) h = refl
