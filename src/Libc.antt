-- ===== src/Libc.antt =====
-- The freestanding C library of libc/.
pub mod Memory
pub mod Text
pub mod System
pub mod Colors
pub mod Spinlock
pub mod Tests
