-- ===== src/Checkpoint.antt =====
-- The binary checkpoint of a runtime: rust/rwkv-srs-cpu/src/model/checkpoint_bin.rs, over a file as a
-- list of bytes.
pub mod Reader
pub mod Writer
pub mod Maps
pub mod Reads
pub mod Select
pub mod Tensor
pub mod Scope
pub mod Save
pub mod Restore
pub mod RoundTrip
pub mod Flat
pub mod Merge
pub mod Expected
