-- ===== src/Lib.antt =====
-- NPB-sync: synchronisation structures for pipelines of threads, and the programs that use them.
--
-- NaiveQueue and its children model src/naive_queue.hpp: `Ring` is the class `Ringbuffer<T>`
-- (`init`, `empty`, `full`, `pop`, `push`, `available`, `reinit`), `NaiveQueue/Local` the ring that
-- `NaiveQueueImpl<T>` has of its own (`push_local`, `pop_local`, `resize`), `NaiveQueue/Master` the
-- shared queue `NaiveQueueMaster<T>` and `NaiveQueue/Client` the calls of a view.
-- `NaiveQueue/Pipeline` lets a producer and a consumer take turns in any order.
-- `Memory` has arrays and the slots of a ring, `Prelude` the shared names.
-- `NaiveQueue/Plain` is the class `NaiveQueue<T>` without views, `NaiveQueue/Timed` the calls that
-- measure themselves. `NaiveQueue/Observer` is the class `Observer<T>` of src/naive_queue.tpp with the
-- pushes that report to it: `Averages` and `Steps` are its formulas, `Times` the reports,
-- `TimedPush` the calls `timed_push` and `generic_push`. The floating-point unit is a parameter, and
-- a report is one step: the reports of several threads come one after the other.
--
-- SmartFifo models src/smart_fifo.h: `Semaphore`, `Chunk`, the shared `Chain` of `SmartFIFOImpl<T>`,
-- the `Elements` that a consumer has taken, and `Proxy`, the class `SmartFIFO<T>`.
-- Promises models src/promises: `StaticStep`, `DynamicStep` and `Naive`.
-- Dedup models the program src/dedup: `Queue` is src/dedup/queue.h and queue.cpp, `Tree` is
-- src/dedup/tree.cpp, `Mbuffer` is src/dedup/mbuffer.cpp and `HashTable` src/dedup/hashtable.cpp;
-- `Sequence` and `Chunk` are the types of src/dedup/dedupdef.h, `Files` is src/dedup/util.cpp,
-- `Rabin` src/dedup/rabin.cpp, `EncodeCommon` the kernels of src/dedup/encode_common.cpp and
-- `Decoder` is src/dedup/decoder.cpp. `Fragment` and `Refine` are the cutting loops of the stages
-- in src/dedup/encode_default.cpp, `Binheap` is src/dedup/binheap.cpp and `Reorder` the last
-- stage, as the rounds of its loops over the tree and the heaps. `Archive` lets the steps of the
-- stages come in any order and puts the decoder behind them; `Archive/Whole` begins with the file
-- that is cut. `Workers` are the threads Deduplicate and Compress of
-- src/dedup/encode_naive_queue.cpp, the kernels between the views of `NaiveQueue/Client`: a step of a
-- thread is one attempt of the call at which it stands. `Layers` is the description of the threads in
-- src/dedup/lua_core.cpp, from which the queues are made. A file is the list of its bytes; `read` and
-- `write`, zlib, bzip2 and SHA-1 are parameters, with what their manuals say as hypotheses.
--
-- A call that may wait is modelled by one attempt under the mutex, which waits and changes nothing
-- or runs to its `return`; a `while` around a wait is a further attempt. Wake-ups are thus any later
-- moment; `NaiveQueue/Pipeline/Signals` has the calls of `notify_all` and threads that sleep until
-- they are notified, or wake up without a reason. Sums of the type `size_t` are taken modulo 2^64; the
-- invariants keep all indices below 2^31, so that no `int` overflows. The loops of the shared
-- queue recur on the rounds that `limit` allows; the loops over bytes recur on fuel, the number of
-- bytes left, which each round lowers. The `int` of rabinseg is its 32-bit pattern, negative from
-- 2^31 on. Allocation is an argument: the array that `malloc` returns,
-- if it returns one.
--
-- Not modelled: clocks, printing, memory orders; `shared_transfer`, which is not called; the
-- FIFO of src/fifo_plus.h; of src/dedup the creation of the threads, the loops of the stages
-- Fragment, FragmentRefine and Reorder around the queues of src/dedup/encode_naive_queue.cpp, and
-- the loops of all stages in encode_default.cpp, encode_fifo.cpp and encode_smart.cpp, which are copies
-- with other queues; the benchmarks, the tests and all input and output.
pub mod Prelude
pub mod Memory
pub mod Ring
pub mod Dedup
pub mod NaiveQueue
pub mod Promises
pub mod SmartFifo
mod Tests
