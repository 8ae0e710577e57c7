-- ===== src/Tests.antt =====
-- Runs of the definitions at small inputs, and the theorems applied to such inputs.
mod Paths
mod Versions
mod Checkpoints
mod Models
mod Documents
