-- ===== src/Arrivals/Windows/Dated.antt =====
-- The service days and the windows of a request, in terms of package time.
use maglev.Prelude.{
  true, In, contains_text, ◌*◌, ◌-◌, ◌^◌, Bool, false, some, List, Text, Map, ℤ, pos, negsuc,
  lt_int, add_int, sub_int, ◌≡◌,
}
use maglev.ServiceDates.{Date, TimePackage, add_days, new_date, start_of_date}
use maglev.Arrivals.Windows.{
  WindowRow, WindowQueries, StopArrivalsInput, ActiveStopTime, TimezoneGroup, is_in_group,
  service_day, window_start, window_end,
}
use maglev.Arrivals.Windows.Days.{IsServedOn}

module _ {T L : Type 0} (time : TimePackage T L) (input : StopArrivalsInput T L) (loc : L)
    (day : ℤ) where
  -- the date that is `day` days after the date of the query in the location
  abbrev pub date_after : Date
  date_after =
      let today = time.date_in input.query_time loc in
      time.date_in (time.at_hour today.year today.month (add_int today.day day) 12 time.utc)
        time.utc

  -- twelve hours before noon of that date
  abbrev pub day_start : T
  day_start =
      time.add (time.at_hour date_after.year date_after.month date_after.day 12 loc)
        (negsuc (12 * 3600 * 10 ^ 9 - 1))

  -- the window from `before` the query until `after` it, as durations since then
  abbrev pub opens : ℤ
  opens = time.sub (time.add input.query_time (sub_int (pos 0) input.before)) day_start

  abbrev pub closes : ℤ
  closes = time.sub (time.add input.query_time input.after) day_start

module _ {T L : Type 0} (time : TimePackage T L) (queries : WindowQueries L)
    (input : StopArrivalsInput T L) (loc : L) (day : ℤ) (a : ActiveStopTime L) where
  -- a stop time whose row is read for a day in a location, and whose service is active on that day
  pub record IsReadOn : Type 0 where
    pub services : List Text
    pub queried :
        queries.active_service_ids (queries.date_string (date_after time input loc day))
        ≡ some services
    pub open_window : lt_int (closes time input loc day) (pos 0) ≡ false
    pub rows : List WindowRow
    pub read :
        queries.stop_times_in_window input.stop_code
          (opens time input loc day)
          (closes time input loc day)
        ≡ some rows
    pub listed : In a.row rows
    pub serviced : contains_text (a.row).service_id services ≡ true
    pub dated : a.service_date ≡ date_after time input loc day
    pub located : a.location ≡ loc

module _ {T L : Type 0} (time : TimePackage T L) (queries : WindowQueries L)
    (input : StopArrivalsInput T L) (route_agency : Map Text Text) (group : TimezoneGroup L)
    (is_primary : Bool) (day : ℤ) (a : ActiveStopTime L) where
  pub IsServedOn-IsReadOn :
      IsServedOn time queries input route_agency group is_primary day a
      → IsReadOn time queries input group.location day a
  unfolding service_day window_start window_end add_days new_date start_of_date
  IsServedOn-IsReadOn h = record {
    services = h.services;
    queried = h.queried;
    open_window = h.open_window;
    rows = h.rows;
    read = h.read;
    listed = h.active.listed;
    serviced = h.active.serviced;
    dated = h.active.dated;
    located = h.active.located;
  }

  pub IsReadOn-IsServedOn :
      is_in_group route_agency group is_primary a.row ≡ true
      → IsReadOn time queries input group.location day a
      → IsServedOn time queries input route_agency group is_primary day a
  unfolding service_day window_start window_end add_days new_date start_of_date
  IsReadOn-IsServedOn kept h = record {
    services = h.services;
    queried = h.queried;
    open_window = h.open_window;
    rows = h.rows;
    read = h.read;
    active = record {
      listed = h.listed;
      kept = kept;
      serviced = h.serviced;
      dated = h.dated;
      located = h.located;
    };
  }
