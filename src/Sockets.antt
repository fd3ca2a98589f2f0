-- ===== src/Sockets.antt =====
-- Src/socket.cpp: the socket functions. Those that wait take the operating system's `Os`; what a
-- critical section encloses is one function without it.
pub mod Open
pub mod Transfer
pub mod Api
pub mod Reachable
pub mod Examples
