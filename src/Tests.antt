-- ===== src/Tests.antt =====
-- Runs of the models at concrete inputs, and the theorems at such inputs.
mod Stream
mod Heartbeat
mod LiveStatus
mod Cron
mod Reaper
mod Wire
