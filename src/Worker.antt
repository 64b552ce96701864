-- ===== src/Worker.antt =====
-- bridge/noc_bridge/worker.py, class `Worker`: what one delivery does to the job table, the broker
-- and the metrics.
pub mod Base
pub mod Settle
pub mod Deliver
pub mod Settlement
pub mod Delivery
pub mod Handling
pub mod Safety
pub mod Attempts
pub mod Evidence
pub mod Process
