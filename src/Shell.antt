-- ===== src/Shell.antt =====
-- The shells: temp.c, with its history, and the reading of a line, the pipes and the jobs in
-- lab_shell/my_shell.c.
pub mod History
pub mod Line
pub mod Pipes
pub mod Jobs
pub mod Execute
pub mod Session
