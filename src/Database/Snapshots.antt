-- ===== src/Database/Snapshots.antt =====
-- Writing and pruning observations: `write_device_snapshot`, `_prune_device_snapshots` and
-- `apply_record_limit` of app/services/database.py, and `rebuild_hour` of
-- app/services/device_statistics.py.
use amplifier_panel.Base.{
  ℕ, zero, suc, ◌+◌, ◌-◌, ◌*◌, ◌/◌, max, min, Bool, true, false, ◌&&◌, not, String, Option, none,
  some, List, [], ◌∷◌, ◌++◌, ◌==◌, string_eq, nat_eq, pair_eq, select, count, length, map, leb, ltb,
  eqb, sort_by, contains, if◌then◌else◌,
}
use amplifier_panel.Base.Dict
use amplifier_panel.Base.Dict.{Dict}
use amplifier_panel.Base.Text.{◌<>◌, is_empty}
use amplifier_panel.Device.{Floats}
use amplifier_panel.Statistics.{Json, Shown, add_snapshots}
use amplifier_panel.Database.{hour_ms, Row, Summary, Store}

-- `(t // HOUR_MS) * HOUR_MS`
abbrev pub bucket_of : ℕ → ℕ
bucket_of t = t / hour_ms * hour_ms

-- SQLite's failure of a write: while the statements run, or at the commit.
pub data Fault : Type 0 where
  in_statements at_commit : Fault

module _ (fl : Floats) (sh : Shown fl.Float) where
  abbrev pub of_profile : String → Row fl sh → Bool
  of_profile profile r = r.profile == profile

  -- `WHERE profile = ? AND timestamp_ms >= ? AND timestamp_ms < ?`
  abbrev pub in_bucket : String → ℕ → Row fl sh → Bool
  in_bucket profile bucket r =
      of_profile profile r && (leb bucket r.timestamp_ms && ltb r.timestamp_ms (bucket + hour_ms))

  abbrev pub documents : List (Row fl sh) → List (Json fl.Float)
  documents rows = map (λ (r : Row fl sh). r.document) rows

  -- `ORDER BY timestamp_ms, id`
  abbrev pub by_time : List (Row fl sh) → List (Row fl sh)
  by_time rows = sort_by (λ (a b : Row fl sh). leb a.timestamp_ms b.timestamp_ms) rows

  -- The summary of a bucket from its rows; there is none without rows.
  unfoldable pub summarize : String → ℕ → List (Row fl sh) → Option (Summary fl sh)
  summarize profile bucket rows =
      let found = by_time (select (in_bucket profile bucket) rows) in
      if eqb (length found) 0
      then none
      else some (record {
        sample_count = length found;
        statistics = add_snapshots fl sh (documents found) [];
      })

  abbrev pub Hourly : Type 0
  Hourly = Dict (String × ℕ) (Summary fl sh)

  abbrev pub store_summary : String → ℕ → Option (Summary fl sh) → Hourly → Hourly
  store_summary profile bucket none hourly = Dict.erase (profile, bucket) hourly
  store_summary profile bucket (some s) hourly = Dict.insert (profile, bucket) s hourly

  unfoldable pub rebuild_hour : String → ℕ → List (Row fl sh) → Hourly → Hourly
  rebuild_hour profile bucket rows hourly =
      store_summary profile bucket (summarize profile bucket rows) hourly

  abbrev pub later : Option ℕ → ℕ → ℕ
  later none t = t
  later (some u) t = max u t

  abbrev pub earlier : Option ℕ → ℕ → ℕ
  earlier none t = t
  earlier (some u) t = min u t

  -- `SELECT MAX(timestamp_ms) … WHERE profile = ?`
  unfoldable pub last_time : String → List (Row fl sh) → Option ℕ
  last_time profile [] = none
  last_time profile (r ∷ rows) =
      let rest = last_time profile rows in
      if of_profile profile r then some (later rest r.timestamp_ms) else rest

  -- `SELECT MIN(timestamp_ms) … WHERE profile = ?`
  unfoldable pub first_time : String → List (Row fl sh) → Option ℕ
  first_time profile [] = none
  first_time profile (r ∷ rows) =
      let rest = first_time profile rows in
      if of_profile profile r then some (earlier rest r.timestamp_ms) else rest

  -- `DELETE … WHERE id IN (SELECT id … WHERE profile = ? ORDER BY id ASC LIMIT ?)`
  unfoldable pub drop_oldest : String → ℕ → List (Row fl sh) → List (Row fl sh)
  drop_oldest profile n [] = []
  drop_oldest profile zero (r ∷ rows) = r ∷ rows
  drop_oldest profile (suc n) (r ∷ rows) =
      let gone = drop_oldest profile n rows in
      let kept = drop_oldest profile (suc n) rows in if of_profile profile r then gone else r ∷ kept

  -- The summaries that the removed rows may have been in.
  abbrev pub outdated : String → Option ℕ → String × ℕ → Bool
  outdated profile none (device_id, bucket) = device_id == profile
  outdated profile (some first) (device_id, bucket) =
      device_id == profile && leb bucket (bucket_of first)

  -- `_prune_device_snapshots`, with the number of rows that it removed.
  unfoldable pub prune : ℕ → String → Store fl sh → Store fl sh × ℕ
  prune max_records profile s =
      let to_remove = count (of_profile profile) s.rows - max_records in
      let rows = drop_oldest profile to_remove s.rows in
      if eqb to_remove 0 then (s, 0) else (
        record s {
          rows = rows;
          hourly = Dict.keep (λ k _. not (outdated profile (first_time profile rows) k)) s.hourly;
          snapshot_count = s.snapshot_count - to_remove;
          discarded_records = s.discarded_records + to_remove;
        },
        to_remove,
      )

  -- What an insert does to the summaries: the hour before is complete when the row opens a new one, and
  -- a summary of the row's own hour is made again.
  unfoldable pub refresh_hourly : String → ℕ → Option ℕ → List (Row fl sh) → Hourly → Hourly
  refresh_hourly profile t none rows hourly = hourly
  refresh_hourly profile t (some previous) rows hourly =
      if ltb (bucket_of previous) (bucket_of t)
      then rebuild_hour profile (bucket_of previous) rows hourly
      else if Dict.has (profile, bucket_of t) hourly
      then rebuild_hour profile (bucket_of t) rows hourly
      else hourly

  unfoldable pub insert_row : String → ℕ → Json fl.Float → Store fl sh → Store fl sh
  insert_row profile t document s =
      let rows =
        s.rows ++ record { timestamp_ms = t; profile = profile; document = document } ∷ [] in
      record s {
        rows = rows;
        hourly = refresh_hourly profile t (last_time profile s.rows) rows s.hourly;
        snapshot_count = suc s.snapshot_count;
      }

  -- `if max_records: _prune_device_snapshots(…)`
  unfoldable pub limit_profile : ℕ → String → Store fl sh → Store fl sh
  limit_profile zero profile s = s
  limit_profile (suc m) profile s = (prune (suc m) profile s).0

  abbrev pub set_error : String → String → Store fl sh → Store fl sh
  set_error operation error s = record s { last_error = some (operation <> ": " <> error) }

  -- The transaction of a write: a failure rolls the tables back, but not the count of discarded rows.
  unfoldable pub transact :
      ℕ → String → ℕ → Json fl.Float → Option (Fault × String) → Store fl sh → Bool × Store fl sh
  transact max_records profile t document none s = (
    true,
    record (limit_profile max_records profile (insert_row profile t document s)) {
      last_error = none;
    },
  )
  transact max_records profile t document (some (in_statements, error)) s =
      (false, set_error "device snapshot write" error s)
  transact max_records profile t document (some (at_commit, error)) s = (
    false,
    set_error "device snapshot write" error (record s {
      discarded_records =
          (limit_profile max_records profile (insert_row profile t document s)).discarded_records;
    }),
  )

  -- `write_device_snapshot`. The parsed time stamp and the canonical document are `none` where the
  -- parse or `json.dumps` raises; its text is the third argument then.
  unfoldable pub write_device_snapshot :
      ℕ
      → String
      → Option (ℕ × Json fl.Float)
      → String
      → Option (Fault × String)
      → Store fl sh
      → Bool × Store fl sh
  write_device_snapshot max_records profile none reason fault s =
      (false, set_error "device snapshot serialization" reason s)
  write_device_snapshot max_records profile (some (t, document)) reason fault s =
      if s.connected then transact max_records profile t document fault s else (false, s)

  -- `get_device_snapshot_count`; an empty profile asks for the count that the triggers keep.
  unfoldable pub get_device_snapshot_count : String → Store fl sh → ℕ
  get_device_snapshot_count profile s =
      if s.connected
      then (if is_empty profile then s.snapshot_count else count (of_profile profile) s.rows)
      else 0

  -- `SELECT DISTINCT profile`
  unfoldable pub profiles : List (Row fl sh) → List String
  profiles [] = []
  profiles (r ∷ rows) =
      let rest = profiles rows in if contains rest r.profile then rest else r.profile ∷ rest

  unfoldable pub prune_each : ℕ → List String → Store fl sh × ℕ → Store fl sh × ℕ
  prune_each max_records [] st = st
  prune_each max_records (profile ∷ l) (s, removed) =
      let (s', n) = prune max_records profile s in prune_each max_records l (s', removed + n)

  unfoldable pub apply_record_limit : ℕ → Store fl sh → ℕ × Store fl sh
  apply_record_limit zero s = (0, s)
  apply_record_limit (suc m) s =
      let (s', removed) = prune_each (suc m) (profiles s.rows) (s, 0) in
      if s.connected then (removed, s') else (0, s)
