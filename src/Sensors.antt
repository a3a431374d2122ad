-- ===== src/Sensors.antt =====
-- The sensors service, sensors-hf.
pub mod Calibration
mod Examples
