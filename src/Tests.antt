-- ===== src/Tests.antt =====
-- The theorems at concrete inputs: a stored library, and the program's lists and streams.
mod Storage
mod Sessions
mod Stores
mod Shells
mod Generator
mod Players
mod Processes
mod Program
mod Regressions
