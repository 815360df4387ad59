-- ===== src/Tests.antt =====
-- Concrete runs of the code, and the theorems applied to them.
mod Stacks
mod Linux
mod Threads
mod Passes
mod Commands
mod Buddies
mod Drivers
mod Movers
mod Creations
mod Returns
mod Values
mod Assembling
