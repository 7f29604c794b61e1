-- ===== src/Local.antt =====
-- src/local: the scripts of the development stack.
pub mod InitNodes
