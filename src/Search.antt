-- ===== src/Search.antt =====
-- src/search.
pub mod Symbols
pub mod Replace
pub mod Fsm
pub mod Text
pub mod Parse
pub mod Build
pub mod Main
pub mod Files
mod Tests
mod BuildTests
