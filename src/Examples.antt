-- ===== src/Examples.antt =====
-- The theorems at concrete inputs, by the part of the system that they are about.
mod Books
mod Calls
mod Application
mod Data
mod Functions
mod Registers
mod Host
mod Memory
mod Processor
mod Setup
