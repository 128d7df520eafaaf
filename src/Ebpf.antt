-- ===== src/Ebpf.antt =====
-- The eBPF program raft-ebpf/src/main.rs: what the kernel and the crates give it, the classifier,
-- and what the classifier does with the bytes of a packet.
pub mod Kernel
pub mod Classify
pub mod Layout
pub mod Verdict
pub mod Judge
pub mod Counters
pub mod Traffic
pub mod Bounds
pub mod Runs
