-- ===== src/SmartFifo.antt =====
-- The FIFO of src/smart_fifo.h: producers fill chunks of their own and append them to a shared
-- chain, from which the consumers take ranges of elements.
pub mod Semaphore
pub mod Chunk
pub mod Chain
pub mod Elements
pub mod Proxy
