-- ===== src/Block/Clock.antt =====
-- storage-core/include/block.hpp, `now_rfc3339`, with the parts of the standard library that it
-- uses: `gmtime_r` on a count of seconds since 1970, and `strftime` with "%Y-%m-%dT%H:%M:%SZ".
use iot_devices_ledger_audit.Prelude.{
  ℕ, ◌+◌, ◌-◌, ◌*◌, ◌/◌, ◌%◌, ◌≡◌, refl, [], ◌∷◌, ◌++◌, ltb, if◌then◌else◌, ◌<◌, All, All-append,
  arith,
}
use iot_devices_ledger_audit.Prelude.Bytes.{Bytes, bytes}
use iot_devices_ledger_audit.Prelude.Decimal.{to_string, all_digits-to_string, all_digits-ascii}

-- `std::tm`, with the year and the month as `strftime` prints them.
pub record Tm : Type 0 where
  pub year : ℕ
  pub month : ℕ
  pub day : ℕ
  pub hour : ℕ
  pub minute : ℕ
  pub second : ℕ

-- The years of a 400-year cycle that begins on the first of March.
year_of_cycle : ℕ → ℕ
year_of_cycle day = (day + day / 36524 - day / 1460 - day / 146096) / 365

day_of_year : ℕ → ℕ
unfolding year_of_cycle
day_of_year day = let y = year_of_cycle day in day + y / 100 - (365 * y + y / 4)

month_from_march : ℕ → ℕ
unfolding day_of_year
month_from_march day = (5 * day_of_year day + 2) / 153

unfoldable pub gmtime : ℕ → Tm
unfolding month_from_march
gmtime t =
    let since_march = t / 86400 + 719468 in
    let day = since_march % 146097 in
    let m = month_from_march day in
    let month = if ltb m 10 then m + 3 else m - 9 in
    let year = year_of_cycle day + since_march / 146097 * 400 in
    record {
      year = if ltb month 3 then year + 1 else year;
      month = month;
      day = day_of_year day - (153 * m + 2) / 5 + 1;
      hour = t % 86400 / 3600;
      minute = t % 3600 / 60;
      second = t % 60;
    }

-- Two decimal digits.
unfoldable pub pad2 : ℕ → Bytes
pad2 n = (48 + n / 10 % 10) ∷ (48 + n % 10) ∷ []

pad2-ascii :
    (n c : ℕ) (rest : Bytes)
    → c < 128
    → All (λ c. c < 128) rest
    → All (λ c. c < 128) (pad2 n ++ c ∷ rest)
unfolding pad2
pad2-ascii n c rest k h = (omega arith, (omega arith, (k, h)))

unfoldable pub format : Tm → Bytes
unfolding pad2
format tm =
    to_string year
    ++ (b'-'
        ∷ (pad2 month
            ++ (b'-'
                ∷ (pad2 day
                    ++ (b'T'
                        ∷ (pad2 hour
                            ++ (b':' ∷ (pad2 minute ++ (b':' ∷ (pad2 second ++ (b'Z' ∷ [])))))))))))
  where
    open tm use {year, month, day, hour, minute, second}

unfoldable pub now_rfc3339 : ℕ → Bytes
unfolding gmtime format
now_rfc3339 t = format (gmtime t)

now_rfc3339_leap_day : now_rfc3339 1709210096 ≡ bytes "2024-02-29T12:34:56Z"
unfolding now_rfc3339 to_string bytes
now_rfc3339_leap_day = refl

now_rfc3339_epoch : now_rfc3339 0 ≡ bytes "1970-01-01T00:00:00Z"
unfolding now_rfc3339 to_string bytes
now_rfc3339_epoch = refl

-- The text is ASCII.
pub now_rfc3339-ascii : (t : ℕ) → All (λ c. c < 128) (now_rfc3339 t)
unfolding now_rfc3339 format
now_rfc3339-ascii t =
    let tm = gmtime t in
    let minutes = pad2 tm.minute ++ b':' ∷ (pad2 tm.second ++ b'Z' ∷ []) in
    let hours = pad2 tm.hour ++ b':' ∷ minutes in
    let days = pad2 tm.day ++ b'T' ∷ hours in
    let months = pad2 tm.month ++ b'-' ∷ days in
    All-append (λ c. c < 128) (to_string tm.year) (b'-' ∷ months)
      (all_digits-ascii (to_string tm.year) (all_digits-to_string tm.year))
      (
        omega arith,
        pad2-ascii tm.month b'-' days (omega arith) (
            pad2-ascii tm.day b'T' hours (omega arith) (
              pad2-ascii tm.hour b':' minutes (omega arith) (
                pad2-ascii tm.minute b':' (pad2 tm.second ++ b'Z' ∷ []) (omega arith)
                  (pad2-ascii tm.second b'Z' [] (omega arith) tt)))),
      )
