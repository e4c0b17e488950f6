-- ===== src/Tests.antt =====
-- Test data, tests on published vectors, and the theorems at concrete inputs.
mod Bus
mod Cipher
mod Counters
mod Watching
mod Tapping
mod Memories
mod Serial
mod Chained
mod Bursts
mod Exchanging
mod Crossing
mod Accelerated
mod Streaming
