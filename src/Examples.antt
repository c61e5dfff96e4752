-- ===== src/Examples.antt =====
-- examples/: the handlers of the example servers and what their clients do with them.
pub mod Crud
mod Tests
