-- ===== src/Program.antt =====
-- The program mlib: how its parts are started (src/core.c, src/mlib.c), the loop that reads lines
-- and runs commands (src/mlib_shell.c), and what each command does to the program's state.
pub mod Loop
pub mod Scripts
pub mod World
pub mod Sound
pub mod Runs
pub mod Session
pub mod Entry
pub mod Start
pub mod History
pub mod Commands
