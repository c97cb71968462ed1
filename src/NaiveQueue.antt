-- ===== src/NaiveQueue.antt =====
-- The two-level queue of src/naive_queue.hpp: local ring buffers of the class `NaiveQueueImpl<T>`
-- in front of the shared one of `NaiveQueueMaster<T>`.
pub mod Local
pub mod Resize
pub mod Master
pub mod Transfer
pub mod Client
pub mod Calls
pub mod Views
pub mod Pushes
pub mod Takes
pub mod Plain
pub mod Timed
pub mod Observer
pub mod Pipeline
