-- ===== src/Web.antt =====
-- libIWeb/ILibWebClient.c and libIWeb/ILibWebServer.c: HTTP on sockets.
pub mod Chunks
pub mod Headers
pub mod Server
pub mod Directories
pub mod Delivery
