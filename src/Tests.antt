-- ===== src/Tests.antt =====
-- Small configs and engines, what the code does on them, and the theorems at such inputs.
mod Batches
mod Tasks
mod Sequences
mod Tables
mod Roles
mod Configs
