-- ===== src/Ntp.antt =====
-- Src/ntp_client.c: the NTP client.
pub mod Packet
pub mod Client
pub mod Text
