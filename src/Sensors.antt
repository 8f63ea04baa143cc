-- ===== src/Sensors.antt =====
-- The sensors of the library, and what they share.
pub mod Reading
pub mod Deltas
pub mod Infiniband
pub mod CpuSensors
pub mod AmdRapl
pub mod Disk
pub mod Load
pub mod Rapl
pub mod NvidiaSensors
pub mod NvidiaGpu
pub mod Counters
pub mod MemoryCounters
pub mod Memory
pub mod Routes
pub mod Network
pub mod Temperature
pub mod Likwid
