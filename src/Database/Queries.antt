-- ===== src/Database/Queries.antt =====
-- Reading observations: `query_device_snapshots`, `query_device_statistics` and the ranges of
-- app/services/database.py.
use amplifier_panel.Base.{
  ℕ, suc, ◌+◌, ◌-◌, ◌*◌, ◌/◌, ◌%◌, max, min, Bool, true, ◌&&◌, ◌||◌, not, String, Option, none,
  some, List, [], ◌∷◌, ◌==◌, string_eq, nat_eq, pair_eq, select, length, take, leb, ltb, eqb,
  if◌then◌else◌,
}
use amplifier_panel.Base.Dict
use amplifier_panel.Base.Dict.{Dict}
use amplifier_panel.Device.{Floats}
use amplifier_panel.Statistics.{Shown, Stats, add_snapshots, merge_stats, Summarized, finalize}
use amplifier_panel.Database.{hour_ms, Row, Store}
use amplifier_panel.Database.Snapshots.{
  of_profile, by_time, bucket_of, documents, first_time, Hourly,
}

-- `_range_start`, in milliseconds; `now` is the clock's reading.
unfoldable pub range_start : ℕ → String → Option ℕ
range_start now range_value =
    if range_value == "5m"
    then some (now - 300000)
    else if range_value == "1h"
    then some (now - 3600000)
    else if range_value == "24h"
    then some (now - 86400000)
    else if range_value == "7d"
    then some (now - 604800000)
    else if range_value == "30d"
    then some (now - 2592000000)
    else none

-- The start of a query: the boundary that is given, or the range's.
abbrev pub start_of : ℕ → String → Option ℕ → Option ℕ
start_of now range_value none = range_start now range_value
start_of now range_value (some start) = some start

abbrev pub from : Option ℕ → ℕ → Bool
from none t = true
from (some start) t = leb start t

abbrev pub until : Option ℕ → ℕ → Bool
until none t = true
until (some end) t = leb t end

-- `max(1, min(int(limit), 10_000))`
abbrev pub point_limit : ℕ → ℕ
point_limit limit = max 1 (min limit 10000)

-- `MAX(1, (total_rows - 1 + (limit - 2)) / (limit - 1))`
unfoldable pub stride : ℕ → ℕ → ℕ
stride limit total = max 1 ((total - 1 + (limit - 2)) / (limit - 1))

-- The rows at multiples of the stride, and the last; `index` is `row_nr - 1`.
unfoldable pub pick {ℓ} : {A : Type ℓ} → ℕ → ℕ → ℕ → List A → List A
pick step total index [] = []
pick step total index (a ∷ l) =
    let rest = pick step total (suc index) l in
    if eqb (index % step) 0 || eqb (suc index) total then a ∷ rest else rest

abbrev pub last_only {ℓ} : {A : Type ℓ} → List A → List A
last_only [] = []
last_only (a ∷ []) = a ∷ []
last_only (a ∷ b ∷ l) = last_only (b ∷ l)

-- The points that a query answers with, out of all rows of its range.
unfoldable pub sample {ℓ} : {A : Type ℓ} → ℕ → List A → List A
sample limit l =
    if eqb limit 1 then last_only l else take limit (pick (stride limit (length l)) (length l) 0 l)

module _ (fl : Floats) (sh : Shown fl.Float) where
  abbrev pub in_range : String → Option ℕ → Option ℕ → Row fl sh → Bool
  in_range profile start end r =
      of_profile fl sh profile r && (from start r.timestamp_ms && until end r.timestamp_ms)

  -- `query_device_snapshots`: `none` where there is no connection.
  unfoldable pub query_device_snapshots :
      String → Option ℕ → Option ℕ → ℕ → Store fl sh → Option (List (Row fl sh))
  query_device_snapshots profile start end limit s =
      if s.connected
      then some
          (sample (point_limit limit) (by_time fl sh (select (in_range profile start end) s.rows)))
      else none

  -- `stream_device_snapshots`: all points of the range.
  unfoldable pub stream_device_snapshots :
      String → Option ℕ → Option ℕ → Store fl sh → Option (List (Row fl sh))
  stream_device_snapshots profile start end s =
      if s.connected
      then some (by_time fl sh (select (in_range profile start end) s.rows))
      else none

  -- The hours from the first full one to before the last, as the keys of the summaries.
  abbrev pub full_hour : String → ℕ → ℕ → String × ℕ → Bool
  full_hour device_id first last (p, bucket) =
      p == device_id && (leb first bucket && ltb bucket last)

  abbrev pub first_full : ℕ → ℕ
  first_full start = (start + hour_ms - 1) / hour_ms * hour_ms

  -- The loop over the summaries.
  unfoldable pub add_summaries :
      (String × ℕ → Bool) → Hourly fl sh → ℕ × Stats fl sh → ℕ × Stats fl sh
  add_summaries chosen [] acc = acc
  add_summaries chosen ((k, found) ∷ hourly) (n, stats) = add_summaries chosen hourly (
      if chosen k
      then (n + found.sample_count, merge_stats fl sh found.statistics stats)
      else (n, stats))

  -- `EXISTS (SELECT 1 FROM device_hourly_statistics …)`
  abbrev pub covered : String → ℕ → ℕ → Hourly fl sh → Row fl sh → Bool
  covered device_id first last hourly r =
      let key : String × ℕ = (device_id, bucket_of r.timestamp_ms) in
      full_hour device_id first last key && Dict.has key hourly

  abbrev pub raw_rows : String → ℕ → ℕ → Store fl sh → List (Row fl sh)
  raw_rows device_id start end s = by_time fl sh (
      select
        (λ r.
          in_range device_id (some start) (some end) r
          && not (covered device_id (first_full start) (bucket_of end) s.hourly r))
        s.rows)

  -- The count and the accumulators from a start that is known.
  unfoldable pub statistics_from : String → ℕ → ℕ → Store fl sh → ℕ × Stats fl sh
  statistics_from device_id start end s =
      let (n, stats) =
        add_summaries (full_hour device_id (first_full start) (bucket_of end)) s.hourly (0, []) in
      let rows = raw_rows device_id start end s in
      (n + length rows, add_snapshots fl sh (documents fl sh rows) stats)

  abbrev pub or_first : Option ℕ → Option ℕ → Option ℕ
  or_first none first = first
  or_first (some start) first = some start

  abbrev pub totals : String → Option ℕ → ℕ → Store fl sh → ℕ × Stats fl sh
  totals device_id none end s = (0, [])
  totals device_id (some start) end s = statistics_from device_id start end s

  -- `query_device_statistics`; without a start it begins at the first observation.
  unfoldable pub query_device_statistics :
      String → Option ℕ → ℕ → Store fl sh → Option (ℕ × Dict String (Summarized fl sh))
  query_device_statistics device_id start end s =
      let (n, stats) =
        totals device_id (or_first start (first_time fl sh device_id s.rows)) end s in
      if s.connected then some (n, finalize fl sh stats) else none
