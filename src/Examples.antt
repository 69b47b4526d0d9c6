-- ===== src/Examples.antt =====
-- Small concrete inputs, on which the definitions run and the theorems apply.
pub mod Words
pub mod Nodes
pub mod Sessions
pub mod Trees
pub mod Scans
pub mod Changes
