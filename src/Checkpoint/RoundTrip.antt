-- ===== src/Checkpoint/RoundTrip.antt =====
-- What the writers of checkpoint_bin.rs append, its readers take back.
pub mod Encodings
pub mod Tensors
pub mod Entities
pub mod Sizes
pub mod Indexed
pub mod States
pub mod Stored
pub mod Runtime
pub mod Whole
