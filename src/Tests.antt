-- ===== src/Tests.antt =====
-- Runs on concrete inputs, and the theorems of the development at inputs that meet their
-- hypotheses.
mod Arena
mod Children
mod Compiling
mod Constants
mod Dumps
mod Instructions
mod Interning
mod Lexing
mod Nesting
mod ParseRuns
mod Strings
mod Visits
