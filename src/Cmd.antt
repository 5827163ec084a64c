-- ===== src/Cmd.antt =====
-- cmd: the commands that run the services.
pub mod Shell
pub mod MQueue
