-- ===== src/Orchestrator/Time.antt =====
-- `t.UTC().Format(time.RFC3339)` for a time in nanoseconds since January 1 of the year 1, the zero
-- value of `time.Time`.
use incuse.Base.{
  ℕ, ◌+◌, ◌-◌, ◌*◌, ◌/◌, ◌%◌, ◌≡◌, refl, Text, codes, print_ℕ, length, replicate, ◌++◌, ltb, leb,
  if◌then◌else◌,
}

abbrev nanos : ℕ
nanos = 1000000000

pub record Date : Type 0 where
  pub year : ℕ
  pub month : ℕ
  pub day : ℕ

-- The date of a day counted from 0001-01-01, by years that begin in March: 400 years are 146097
-- days, and 0001-01-01 is day 306 of the year 0.
unfoldable pub date_of_day : ℕ → Date
date_of_day n =
    let z = n + 306 in
    let era = z / 146097 in
    let doe = z % 146097 in
    let yoe = (doe + doe / 36524 - doe / 1460 - doe / 146096) / 365 in
    let doy = doe + yoe / 100 - 365 * yoe - yoe / 4 in
    let mp = (5 * doy + 2) / 153 in
    let month = if ltb mp 10 then mp + 3 else mp - 9 in
    record {
      year = yoe + era * 400 + (if leb month 2 then 1 else 0);
      month = month;
      day = doy - (153 * mp + 2) / 5 + 1;
    }

-- `%0nd`
abbrev pad : ℕ → ℕ → Text
pad n x = let s = print_ℕ x in replicate (n - length s) b'0' ++ s

unfoldable pub format_rfc3339 : ℕ → Text
unfolding date_of_day print_ℕ
format_rfc3339 t =
    let seconds = t / nanos in
    let date = date_of_day (seconds / 86400) in
    let rest = seconds % 86400 in
    pad 4 date.year
    ++ (codes "-"
        ++ (pad 2 date.month
            ++ (codes "-"
                ++ (pad 2 date.day
                    ++ (codes "T"
                        ++ (pad 2 (rest / 3600)
                            ++ (codes ":"
                                ++ (pad 2 (rest / 60 % 60)
                                    ++ (codes ":" ++ (pad 2 (rest % 60) ++ codes "Z"))))))))))

zero_time : format_rfc3339 0 ≡ codes "0001-01-01T00:00:00Z"
unfolding format_rfc3339
zero_time = refl

leap_day : format_rfc3339 (63844789845 * nanos) ≡ codes "2024-02-29T07:50:45Z"
unfolding format_rfc3339
leap_day = refl
