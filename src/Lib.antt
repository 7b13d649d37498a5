-- ===== src/Lib.antt =====
-- The deterministic part of the rwkv-srs runtime, a spaced repetition model whose native module is
-- written in Rust under rust/rwkv-srs-cpu.
--
-- A live session keeps a queue of candidate cards in the order of their predicted retrievability. It
-- selects which cards to predict again, merges the new predictions into the order, and tracks cards
-- that are excluded, answered or removed.
--
-- A runtime holds a feature state, which derives the columns of a review from what it has recorded,
-- and the recurrent states of a neural network. A review arrives as a record of a packed payload. The
-- feature pass turns it into two vectors of 92 columns, one that asks for a prediction and one with
-- the outcome, and records it in the feature state; an identity that is new gets an encoding from a
-- Mersenne twister in the form of Torch. A batch runs inside a transaction that puts everything back
-- when a row or the network fails.
--
-- A runtime is saved as a binary checkpoint: a header, the feature state, and for each submodule an
-- index of the sizes of its recurrent states before the states. A restore takes all of it, or with a
-- scope only the entries of some cards, notes, decks and presets. A save over a partly loaded file
-- merges the file's entries with the current ones.
--
-- The files, and what they model:
--   Base.antt, Map.antt    integers of 64 bits, results, and the sorted maps of the standard library
--   Review.antt            ReviewInput and MaybeId of rust/rwkv-srs-cpu/src/state.rs; a float is the
--                          number of its bit pattern
--   Bytes.antt             little-endian words
--   Wire.antt              the payload of process reviews: src/model/process_payload.rs, and in
--                          Wire/Prediction the batches of predictions: src/model/prediction_batch.rs
--   Rng.antt               TorchMt19937: src/id_encoding.rs, and its serialized form in Rng/Torch
--   Features.antt          the scalers and day encodings: src/features.rs
--   State.antt             FeatureState: src/state.rs. State/Rows has the prepared rows, State/Vector
--                          their vectors, State/Direct the two paths without rows, State/Record the
--                          records of a processed review
--   Undo.antt              the journal of a batch, BatchUndoFrame: src/model/undo.rs, and in
--                          Undo/Recurrent store_review_states of src/model.rs
--   Bulk.antt              feature_prepass_step and its loop: src/model/bulk.rs, and the transaction
--                          around them, DeterministicPipelineTransaction: src/model/pipeline.rs
--   Checkpoint.antt        the binary checkpoint: src/model/checkpoint_bin.rs, and the states of
--                          src/model/state.rs. Checkpoint/Reader and Checkpoint/Writer have the words,
--                          Checkpoint/Maps the maps, Checkpoint/Tensor the recurrent states and their
--                          flat form, Checkpoint/Scope what a scope keeps, Checkpoint/Save and
--                          Checkpoint/Restore the two directions, Checkpoint/Merge the merged copy of
--                          a map, Checkpoint/Expected the size of a file before it is written;
--                          Checkpoint/Reads relates what is written to what is read
--   Floats.antt            the order of f64 on bit patterns; ordered_f64_key and next_up
--   Sorting.antt           comparisons, and sorts and merges by them
--   Live.antt              the live session: src/model/live_session.rs. Live/Candidate has the
--                          candidates, Live/Rank the rank of a slot, Live/Order the full sort and the
--                          merge, Live/Select the slots of a refresh, Live/Final what a refresh hands
--                          back, Live/Edit the methods that change candidates, Live/Undo the undo
--                          frame of an answer, Live/New the start, Live/Session the invariant
--   Tests.antt             concrete runs and instances, also in Tests/Sessions, Tests/Batches and
--                          Tests/Checkpoints
-- (src/ stands for rust/rwkv-srs-cpu/src/ here.) The other files under these hold proofs; each says
-- which code it is about.
--
-- Conventions. A method that changes its receiver returns the new state beside its outcome, also
-- when it fails. `none` of a function that returns an option, and the error `panicked`, stand for a
-- panic; beside `panicked` stands the feature state that the unwinding leaves. Integers wrap around
-- as in a release build, written out with `% 2 ^ 64` or `wrap_i64`.
-- A reader is a place and the bytes after it, a writer's operation gives the bytes that it appends. A
-- tensor is the parameter `TensorOps`, of which the theorems on flat states ask that it gives back the
-- shape and the values it is made from.
-- IEEE 754 arithmetic is the parameter `FloatOps`; the laws that theorems ask of it are that the
-- casts of 0.0 and 1.0 to 32 bits are exact, and for the search of next_boundary that a sum of finite
-- numbers is a number and grows past the prediction. Comparisons of floats are defined on the bits.
-- That search is the one loop on fuel, with as many rounds as there are patterns of 64 bits, since it
-- sees none twice; every other loop is structural in its list of rows, columns, slots or submodules, or
-- in the number of rounds that the source writes out. A read of a session's vector out of range gives
-- a default, where the source panics; the invariant of a session keeps its slots in range.
--
-- Not modelled: the network itself and its kernels (floating point over tensors of another library),
-- the code for the GPU and its caches, the bindings to Python and the Python package, profiling, the
-- undo of a single review, of live sessions the drivers that call the network (refresh_live_session
-- and the reconciliations) and the views of a session, and of checkpoints the merged save of
-- the encodings, the states and the whole file, the functions that open paths, and failures of the allocator below its limit and of the disk.
pub mod Base
pub mod Live
pub mod Map
pub mod Bytes
pub mod Review
pub mod Wire
pub mod Rng
pub mod Features
pub mod Floats
pub mod Sorting
pub mod State
pub mod Undo
pub mod Bulk
pub mod Checkpoint
pub mod Tests
