-- ===== src/Examples.antt =====
-- Tests and witnesses: the theorems at concrete inputs.
mod Transfer
mod Download
mod Schedule
mod Jobs
mod Firewall
mod Backoff
mod Upload
mod CpuRegistry
mod Scheduler
mod Plugin
mod Node
mod Recovery
