-- ===== src/WebSocket.antt =====
-- Src/websocket_client.c and Inc/websocket_client.h: the WebSocket client.
pub mod Frame
pub mod Base64
pub mod Client
pub mod Handshake
mod Examples
