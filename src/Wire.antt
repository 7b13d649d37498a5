-- ===== src/Wire.antt =====
-- Packed review rows: rust/rwkv-srs-cpu/src/model/process_payload.rs and the parser of
-- rust/rwkv-srs-cpu/src/model/prediction_batch.rs.
pub mod Read
pub mod Layout
pub mod Process
pub mod Packed
pub mod RoundTrip
pub mod Prediction
