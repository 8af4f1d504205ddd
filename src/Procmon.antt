-- ===== src/Procmon.antt =====
-- procmon/cmd/procmon: the sampler of processes and the pruning of its files. What is read from
-- /proc and from the data directory is an argument of the definitions.
pub mod Procfs
pub mod Collect
pub mod Prune
pub mod Container
