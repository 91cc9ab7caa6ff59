-- ===== src/Tests.antt =====
-- Runs of the definitions on concrete inputs, and the theorems applied to such inputs.
mod Views
mod Wires
mod Sums
mod Checks
mod Buffers
mod Engines
mod Loads
mod Steps
mod Loaders
mod Decodes
