-- ===== src/GetFile.antt =====
-- The GETFILE protocol of projects/gflib: the server library (gfserver.c) and the client library
-- (gfclient.c).
pub mod Send
pub mod Header
pub mod Client
pub mod Server
pub mod Exchange
mod Tests
