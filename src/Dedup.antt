-- ===== src/Dedup.antt =====
-- The parts of the program under src/dedup: its data structures, the kernels and stages, the format of its
-- files, and in `Workers` two of its threads over the queues.
pub mod Queue
pub mod Tree
pub mod Mbuffer
pub mod HashTable
pub mod Sequence
pub mod Chunk
pub mod Files
pub mod EncodeCommon
pub mod Decoder
pub mod Archive
pub mod Binheap
pub mod Reorder
pub mod Rabin
pub mod Refine
pub mod Fragment
pub mod Layers
pub mod Workers
