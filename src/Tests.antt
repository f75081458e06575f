-- ===== src/Tests.antt =====
-- Runs of the modelled code on concrete inputs, and the theorems applied to inputs.
mod Buffers
mod Programs
mod Lexing
mod Parsing
mod Compiling
mod Arrays
mod Values
mod Maps
mod Running
