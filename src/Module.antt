-- ===== src/Module.antt =====
-- src/modules/module.c: the loader's linker.
pub mod Relocation
pub mod Capacity
pub mod PowerPc
pub mod Lands
pub mod Replace
pub mod Words
pub mod Stub
pub mod Elf
pub mod Link
pub mod Place
pub mod Final
pub mod Metadata
pub mod Declared
pub mod Files
pub mod Extension
pub mod Load
pub mod Listed
pub mod Size
pub mod Fit
pub mod Layout
pub mod Bounds
pub mod Cursors
pub mod Keeps
pub mod Order
pub mod Asserts
pub mod Main
mod Tests
mod LinkTests
mod LoadTests
