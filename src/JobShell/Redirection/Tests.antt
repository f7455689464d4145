-- ===== src/JobShell/Redirection/Tests.antt =====
-- A command of lab_shell/shell whose output is redirected.
use cs.Base.{some, none, ltb, if◌then◌else◌}
use cs.Shell.Pipes.{Table, file}

abbrev shell_table : Table
shell_table fd = if ltb fd 3 then some (file fd) else none
