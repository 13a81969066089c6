-- ===== src/Net.antt =====
-- src/util/nettool.h and src/core/socket.h, socket.cpp: sockets.
pub mod SysCall
pub mod Passive
pub mod Socket
mod Tests
