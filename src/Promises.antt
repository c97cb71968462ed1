-- ===== src/Promises.antt =====
-- The promises of src/promises and src/promise_plus.h: arrays of values that a producer thread
-- fills in order and that consumer threads wait for. The index of a value is an `int`; the marks
-- that start at -1 are kept increased by one, as the number of values up to them.
pub mod StaticStep
pub mod DynamicStep
pub mod Naive
use npb_sync.Prelude.{ℕ, ◌+◌, ◌-◌, ◌%◌, ◌^◌, Bool, leb}

-- `index - mark >= step` for `int`s against an `unsigned int`: the difference is taken modulo 2^32.
-- The mark is given as the number of values up to it.
abbrev pub far_enough : ℕ → ℕ → ℕ → Bool
far_enough index mark step = leb step ((index + 1 + (2 ^ 32 - mark)) % 2 ^ 32)
