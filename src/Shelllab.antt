-- ===== src/Shelllab.antt =====
-- The shell of shelllab/: its job list and its parser (tsh_helper.c), and its handlers (tsh.c).
pub mod Jobs
pub mod Parse
pub mod Tsh
