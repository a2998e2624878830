-- ===== src/Examples.antt =====
-- Runs of the model on concrete packets, connections and registries, and instances of its theorems.
mod Fields
mod Packets
mod Spawn
mod Routes
mod Connections
mod Parts
mod Newest
mod Steps
mod Items
mod V975
