-- ===== src/Examples/Records.antt =====
-- Runs of the database and of the statistics.
use amplifier_panel.Base.{
  ℕ, ◌-◌, ◌≡◌, ◌≤◌, ◌≢◌, refl, true, false, String, none, some, List, [], ◌∷◌, ◌++◌, arith, length,
  drop, count, string_eq, pair_eq, nat_eq, ltb, inl, inr, ne_of,
}
use amplifier_panel.Base.Dict
use amplifier_panel.Base.Dict.{Dict}
use amplifier_panel.Syslog.{Sent}
use amplifier_panel.Examples.Numbers.{numbers, shown}
use amplifier_panel.Statistics.{
  Json, number, object, member, no_members, add_snapshots, Stats, visit_numbers, path,
}
use amplifier_panel.Statistics.Bounds.{Bounds, add_snapshots_bound}
use amplifier_panel.Database.{Store, ControlRequest}
use amplifier_panel.Database.Snapshots.{
  write_device_snapshot, at_commit, last_time, transact, limit_profile, insert_row, prune,
}
use amplifier_panel.Database.Retention.{rows_of, new_row, write_keeps_newest}
use amplifier_panel.Database.Summaries.{IsConsistent}
use amplifier_panel.Database.Writes.{IsWellFormed, write-IsWellFormed}
use amplifier_panel.Database.Queries.{in_range, statistics_from, sample}
use amplifier_panel.Database.Sampling.{last_of, first_of, sample_bounded}
use amplifier_panel.Database.Totals.{sample_count_exact}
use amplifier_panel.Database.Requests.{for_device, add_request, ControlStatus, reconcile}
use amplifier_panel.Database.Newest.{AllBelow, new_request, add_request_bounded, add_request_kept}
use amplifier_panel.Database.History.{reconcile_audits_once}

abbrev gain : ℕ → Json ℕ
gain n = object (member "gain" (number n) no_members)

abbrev pub empty : Store numbers shown
empty = record {
  rows = [];
  hourly = [];
  requests = [];
  snapshot_count = 0;
  connected = true;
  last_error = none;
  discarded_records = 0;
}

abbrev oba : String
oba = "oba"

abbrev oba3 : String
oba3 = "oba3"

oba_ne_oba3 : oba ≢ oba3
unfolding string_eq
oba_ne_oba3 = ne_of oba oba3 refl

abbrev points : List ℕ
points = 10 ∷ 20 ∷ 30 ∷ 40 ∷ 50 ∷ 60 ∷ []

ltb_irrefl : (a : ℕ) → ltb a a ≡ false
ltb_irrefl a = ground arith

ltb_trans : (a b c : ℕ) → ltb a b ≡ true → ltb b c ≡ true → ltb a c ≡ true
ltb_trans a b c h k = ground arith

empty-IsConsistent : IsConsistent numbers shown [] []
unfolding Dict.lookup
empty-IsConsistent = record { nodup = tt; agrees = λ p bucket found w. absurd (ground (arith, w)) }

empty-IsWellFormed : IsWellFormed numbers shown empty
empty-IsWellFormed = record {
  consistent = empty-IsConsistent;
  increasing = λ q. tt;
  counted = refl;
}

abbrev one_row : Store numbers shown
one_row = (write_device_snapshot numbers shown 2 "oba" (some (5000, gain 3)) "" none empty).1

one_row-IsWellFormed : IsWellFormed numbers shown one_row
unfolding last_time
one_row-IsWellFormed =
    write-IsWellFormed numbers shown 2 "oba" "" 5000 (gain 3) none empty empty-IsWellFormed tt

-- A second observation, of the next hour: the first hour gets its summary.
abbrev two_rows : Store numbers shown
two_rows = (write_device_snapshot numbers shown 2 "oba" (some (3700000, gain 5)) "" none one_row).1

two_rows-IsWellFormed : IsWellFormed numbers shown two_rows
unfolding last_time write_device_snapshot transact limit_profile insert_row prune string_eq
two_rows-IsWellFormed =
    write-IsWellFormed numbers shown 2 "oba" "" 3700000 (gain 5) none one_row one_row-IsWellFormed
      (omega arith)

write-IsWellFormed_example :
    IsWellFormed numbers shown
      (write_device_snapshot numbers shown 2 "oba3"
        (some (4000, gain 9))
        ""
        (some (at_commit, "disk full"))
        two_rows).1
unfolding last_time write_device_snapshot transact limit_profile insert_row prune string_eq
write-IsWellFormed_example =
    write-IsWellFormed numbers shown 2 "oba3" "" 4000 (gain 9) (some (at_commit, "disk full"))
      two_rows two_rows-IsWellFormed tt

sample_count_exact_example :
    (statistics_from numbers shown "oba" 0 8000000 two_rows).0
    ≡ count (in_range numbers shown "oba" (some 0) (some 8000000)) two_rows.rows
sample_count_exact_example =
    sample_count_exact numbers shown "oba" 0 8000000 two_rows two_rows-IsWellFormed.consistent

write_keeps_newest_example :
    let after =
      (write_device_snapshot numbers shown 2 "oba" (some (3800000, gain 6)) "" none two_rows).1 in
    let stored =
      rows_of numbers shown "oba" two_rows.rows
      ++ new_row numbers shown "oba" 3800000 (gain 6) ∷ [] in
    (rows_of numbers shown "oba" after.rows ≡ drop (length stored - 2) stored)
    × (length (rows_of numbers shown "oba" after.rows) ≤ 2)
    × (rows_of numbers shown "oba3" after.rows ≡ rows_of numbers shown "oba3" two_rows.rows)
unfolding write_device_snapshot transact limit_profile insert_row prune string_eq
write_keeps_newest_example =
    write_keeps_newest numbers shown 1 "oba" "oba3" "" 3800000 (gain 6) two_rows refl oba_ne_oba3

sample_bounded_example :
    (length (sample 3 points) ≤ 3)
    × (last_of (sample 3 points) ≡ last_of points)
    × (first_of (sample 3 points) ≡ some 10)
sample_bounded_example = sample_bounded 3 10 (20 ∷ 30 ∷ 40 ∷ 50 ∷ 60 ∷ []) (omega arith)

abbrev earlier_request : ControlRequest numbers shown
earlier_request = record {
  created_ms = 900;
  updated_ms = 900;
  device_id = "oba";
  username = "admin";
  request_values = gain 4;
  request_state = "pending";
  message = "awaiting acknowledgement";
}

-- The clock stands before the request that is stored.
add_request_kept_example :
    (Dict.lookup "r2"
        (add_request numbers shown "r2" "oba" "admin" (gain 7) 500 (("r1", earlier_request) ∷ []))
      ≡ some (new_request numbers shown "oba" "admin" (gain 7) 500 (("r1", earlier_request) ∷ [])))
    × AllBelow numbers shown
        (new_request numbers shown "oba" "admin"
          (gain 7)
          500
          (("r1", earlier_request) ∷ [])).created_ms
        "oba"
        (("r1", earlier_request) ∷ [])
unfolding Dict.lookup
add_request_kept_example =
    add_request_kept numbers shown "r2" "oba" "admin" (gain 7) 500 (("r1", earlier_request) ∷ [])
      (refl, tt)

add_request_bounded_example :
    count
      (for_device numbers shown "oba")
      (add_request numbers shown "r2" "oba" "admin" (gain 7) 500 (("r1", earlier_request) ∷ []))
    ≤ 100
unfolding Dict.lookup
add_request_bounded_example =
    add_request_bounded numbers shown "r2" "oba" "admin" (gain 7) 500 (("r1", earlier_request) ∷ [])
      (refl, tt)

abbrev applied : ControlStatus numbers shown
applied = record {
  request_id = some "r1";
  request_device_id = some "oba";
  status_state = "applied";
  message = "done";
}

abbrev with_request : Store numbers shown
with_request = record empty { requests = ("r1", earlier_request) ∷ [] }

abbrev first_reconcile : Store numbers shown × List Sent
first_reconcile = reconcile numbers shown true (λ text. text) applied 1000 none (with_request, [])

reconcile_audits_once_example :
    (reconcile numbers shown true (λ text. text) applied 2000 none first_reconcile).1
    ≡ first_reconcile.1
reconcile_audits_once_example =
    reconcile_audits_once numbers shown true (λ text. text) applied 1000 2000 none with_request []

abbrev three : Stats numbers shown
three = ("gain", record { count = 1; sum = 3; sum_squares = 9; min = 3; max = 3 }) ∷ []

add_snapshots_bound_example :
    Bounds numbers shown 5
      (Dict.lookup "gain" (add_snapshots numbers shown (gain 3 ∷ gain 5 ∷ []) []))
unfolding visit_numbers path Dict.lookup Dict.insert string_eq
add_snapshots_bound_example =
    add_snapshots_bound numbers shown ltb_irrefl ltb_trans "gain" 5 (gain 3 ∷ gain 5 ∷ []) []
      (inr (inl refl))
