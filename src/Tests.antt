-- ===== src/Tests.antt =====
-- Runs of the modelled code at concrete inputs.
mod Processes
mod Booting
mod Logging
mod Piping
mod Sorting
mod Strings
mod Rides
mod Buffers
mod Opening
mod Storage
mod Mess
mod Naming
mod Paging
mod Inodes
mod Writing
mod Commands
