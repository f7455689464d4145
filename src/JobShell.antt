-- ===== src/JobShell.antt =====
-- The shell of lab_shell/shell, which has background jobs, redirection and completion.
pub mod Jobs
pub mod Line
pub mod Completion
pub mod Eval
pub mod Redirection
