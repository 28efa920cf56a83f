-- ===== src/Netplay.antt =====
-- modules/netslug_main/main.c.
pub mod Types
pub mod Ioctl
pub mod Packet
pub mod Threads
pub mod Frame
pub mod Wpad
pub mod Reads
pub mod Random
pub mod World
mod Tests
