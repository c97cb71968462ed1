-- ===== src/Tests.antt =====
-- Tests of the models on concrete inputs, and the theorems at inputs that meet their hypotheses.
mod Queues
mod Doubles
mod Observers
mod Measurements
mod Trees
mod Archives
mod Reorderings
mod WholeFiles
mod Fulfilled
mod Chunks
mod Buffers
mod Workers
mod Layers
