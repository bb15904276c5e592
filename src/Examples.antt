-- ===== src/Examples.antt =====
-- Runs of the program's parts at concrete inputs.
mod Messages
mod Waits
mod Frames
mod Payloads
mod Readers
mod Machines
mod Switches
mod Sessions
mod Setups
mod Choices
