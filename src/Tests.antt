-- ===== src/Tests.antt =====
-- Runs of the modelled code on concrete inputs, one for each property with hypotheses.
mod Words
mod Links
mod Mesh
mod Addresses
mod Alarms
mod Bindings
mod Buffers
mod Tables
mod Neighbors
mod Pans
mod Pool
mod Tree
