-- ===== src/Lib.antt =====
-- Amplifier-Panel: the core of the Amp Panel dashboard in antt.
--
-- The program polls the status document of optical amplifiers, keeps an inventory of devices with their
-- live values, raises alarms on limits, stores observations in SQLite with hourly summaries, and serves
-- a web panel with accounts and sessions. A separate privileged agent changes the settings of the host's
-- network. The parts and the files that model them:
--
-- * Network (tools/network_agent.py). Network.Address has the IPv4 arithmetic (`_prefix`, the netmask, the
--   test of the gateway), with masks written as ℕ below 2 ^ 32. Network.Host is a small monad over
--   the agent's state: the pending checkpoints and the trace of all commands run. What a command answers
--   is a parameter, a function of the commands before it, so a failure may come at any place. `ip`'s JSON
--   is given as read by the parameter. Network.Commands has the reading functions and the checkpoint
--   calls, Network.Apply has `apply_network_settings` and `confirm_network_settings`: `plan` is the part before
--   the checkpoint, `change` the body of the `try`, `settle` what follows it. Network.Keeps, Network.Rollback
--   and Network.Pending hold the proofs. The clock's two readings are arguments.
-- * Database (app/services/database.py, database_schema.py, control_requests.py). The store has the tables as
--   lists in the order of their ids, the hourly summaries as a dict, the count the triggers keep, and
--   the module's globals. Database.Snapshots has the writes and the pruning; a failure of SQLite is an
--   argument that says whether it comes in a statement or at the commit, and the tables are then restored.
--   Database.Queries has the ranges, the sample and the merged statistics, Database.Requests the control
--   requests. Times are whole milliseconds since the epoch. The SQL is translated to functions on lists;
--   an observation that SQLite has stored is given as its parsed document.
-- * Statistics (app/services/device_statistics.py): flattening and accumulators over a parameter for floats
--   with its operations; what is said of minima asks that `<` is irreflexive and transitive. No sums are
--   compared, since rounding is not modelled.
-- * Auth (app/api/security.py, app/api/auth.py, app/core/state.py, app/services/radius.py). The state has
--   accounts, sessions, failures, what was saved and what was audited. Auth.Login.login is three parts, as in
--   the code: a locked one, the check of the password without the lock, and a locked one. The change that
--   other requests make to the state and to the account between them is an argument; Auth.Login.Sessions
--   takes the locked parts as the steps of a relation. The clock counts microseconds, tokens are arguments.
--   `json.dumps` of a text is a parameter, and so is an error of the disk.
-- * Passwords (app/core/passwords.py), with base64 in Passwords.Base64; PBKDF2 is a parameter.
-- * Alarms (app/services/alarms.py): Alarms has `evaluate`, `active` and `acknowledge` on the latched alarms;
--   the notices are what `evaluate` returns. Alarms.Limits and Alarms.Sound are about the limits found,
--   Alarms.Lookup describes the loops by the lookup of a key.
-- * Inventory (app/core/state.py): the inventory and live status that alarms and endpoints read.
-- * Status (app/services/xml_status.py, app/devices/registry.py): `parse_status` on the element tree. The XML
--   parser, and the reading of a float from a text, are parameters. Device has the types it shares with Alarms.
-- * Runtime (app/devices/runtime.py and `poll_once` of app/services/xml_status.py): the panel's state joins the
--   inventory, the database and what is sent, and one poll goes through all of them. What the file, the
--   clock, the control files and SQLite answer is an argument, the length of a snapshot's JSON too. An
--   exception is an `err` that ends the loop over the devices and the loop over the readings.
-- * Control (app/services/xml_control.py, the handler `update_device_control` of app/api/devices.py): a control
--   document is the tree that ElementTree writes and reads. Control has its construction, Control.Write the
--   replacement of the file, with the step at which it fails, and whether the temporary file can then be removed,
--   as an argument, Control.Status the status of the
--   files, Control.Handler the handler over the panel's state and the reconciliation after it.
-- * Snmp (app/services/snmp.py): the tree of OIDs and the answers to GET and GETNEXT; pysnmp is outside. The walk
--   of a client is a recursion on a number of requests; one more than there are OIDs is shown to be enough.
-- * Settings (app/core/state.py): the merges of what the file of the settings holds, as JSON documents. The
--   reading and writing of that file is outside.
-- * EnvFile (tools/amp_panel_cli.py): `_env_value`, `read_env_file` and the content that `write_env_file` writes.
-- * Syslog (app/services/syslog.py): audit events as a list of what is sent.
-- * Base has what all share: lists, dicts as association lists in Python's order, results, text, sorting.
--   Examples runs the theorems at concrete inputs.
--
-- The loops are structural on lists, and each definition of the program is total without fuel.
--
-- Not modelled: the mapping file's store and its validation, SNMP traps and the threads of the agent, NTP, the
-- socket server of the network agent, the settings and log endpoints, the rest of the installer's command
-- line, and the browser's files. The modelled parts take what these produce as arguments.
pub mod Base
pub mod Syslog
pub mod Passwords
pub mod Auth
pub mod Device
pub mod Alarms
pub mod Network
pub mod Inventory
pub mod Statistics
pub mod Database
pub mod Status
pub mod Settings
pub mod Runtime
pub mod Control
pub mod EnvFile
pub mod Snmp
pub mod Examples
