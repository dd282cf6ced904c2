-- ===== src/Tests.antt =====
-- Runs of the model: the theorems applied at concrete inputs.
mod Keys
mod Instances
mod Routing
mod Selecting
mod Console
mod Hbbs
mod Hbbr
mod Tcp
mod Loops
mod Updating
mod Peers
