-- ===== src/Database.antt =====
-- app/services/database.py over the tables of app/services/database_schema.py. `device_snapshots` is
-- the list of its rows in the order of their ids: a new id is above all others. The hourly summaries
-- and the control requests are dicts by their primary keys. A JSON column holds the document, and a
-- time is in milliseconds since 1970. The lock makes each function one step.
pub mod Snapshots
pub mod Requests
pub mod Queries
pub mod Sampling
pub mod Retention
pub mod Summaries
pub mod Refresh
pub mod Pruning
pub mod Writes
pub mod Totals
pub mod History
pub mod Ranking
pub mod Newest
use amplifier_panel.Base.{ℕ, Bool, String, Option, List}
use amplifier_panel.Base.Dict.{Dict}
use amplifier_panel.Device.{Floats}
use amplifier_panel.Statistics.{Json, Shown, Stats}

abbrev pub hour_ms : ℕ
hour_ms = 3600000

module _ (fl : Floats) (sh : Shown fl.Float) where
  pub record Row : Type 0 where
    pub timestamp_ms : ℕ
    pub profile : String
    pub document : Json fl.Float

  pub record Summary : Type 0 where
    pub sample_count : ℕ
    pub statistics : Stats fl sh

  pub record ControlRequest : Type 0 where
    pub created_ms : ℕ
    pub updated_ms : ℕ
    pub device_id : String
    pub username : String
    pub request_values : Json fl.Float
    pub request_state : String
    pub message : String

  -- The tables, the count that the triggers of `device_snapshots` keep, and the module's globals;
  -- `connected` says whether `init_database` opens the file.
  pub record Store : Type 0 where
    pub rows : List Row
    pub hourly : Dict (String × ℕ) Summary
    pub requests : Dict String ControlRequest
    pub snapshot_count : ℕ
    pub connected : Bool
    pub last_error : Option String
    pub discarded_records : ℕ
