-- ===== src/Examples.antt =====
-- Runs of the model at concrete inputs: each applies one theorem where its hypotheses hold.
mod Numbers
mod Network
mod Records
mod Accounts
mod Alarms
mod Devices
mod Panel
mod Requests
