-- ===== src/ServiceDates.antt =====
-- internal/servicedate/servicedate.go: GTFS service dates. The calendar and the instants of the `time`
-- package are parameters; durations are in nanoseconds.
use maglev.Prelude.{ℕ, ◌*◌, ◌-◌, ◌^◌, Bool, if◌then◌else◌, ℤ, pos, negsuc, add_int}

-- `Date`
pub record Date : Type 0 where
  pub year : ℤ
  pub month : ℤ
  pub day : ℤ

-- what the code calls of `time.Time` and `*time.Location`
pub record TimePackage (T L : Type 0) : Type 0 where
  pub sub : T → T → ℤ
  pub add : T → ℤ → T
  pub equal : T → T → Bool
  pub utc : L
  -- `t.In(loc).Date()`
  pub date_in : T → L → Date
  -- `time.Date` with an hour, and 0 for the rest
  pub at_hour : ℤ → ℤ → ℤ → ℕ → L → T

-- `12 * time.Hour`
abbrev pub half_day_nanos : ℕ
half_day_nanos = 12 * 3600 * 10 ^ 9

module _ {T L : Type 0} (time : TimePackage T L) where
  -- `New`
  unfoldable pub new_date : ℤ → ℤ → ℤ → Date
  new_date year month day = time.date_in (time.at_hour year month day 12 time.utc) time.utc

  -- `AddDays`
  unfoldable pub add_days : Date → ℤ → Date
  add_days d n = new_date d.year d.month (add_int d.day n)

  -- `Start`
  unfoldable pub start_of_date : Date → L → T
  start_of_date d loc =
      time.add (time.at_hour d.year d.month d.day 12 loc) (negsuc (half_day_nanos - 1))

  -- `Midnight`
  unfoldable pub midnight : Date → L → T
  midnight d loc = time.at_hour d.year d.month d.day 0 loc

  -- `FromInstant`
  unfoldable pub from_instant : T → L → Date
  from_instant t loc =
      let next = add_days (time.date_in t loc) (pos 1) in
      if time.equal (start_of_date next loc) t then next else time.date_in t loc

  -- `OffsetBase`, of a time in the location `loc`
  unfoldable pub offset_base : T → L → T
  offset_base service_date loc = start_of_date (from_instant service_date loc) loc
