-- ===== src/Dns.antt =====
-- Src/dns_client.c: the DNS client.
pub mod Result
pub mod Name
pub mod Message
pub mod Client
pub mod Text
