-- ===== src/Sockets.antt =====
-- libIWeb/ILibAsyncSocket.c: a socket of the chain.
pub mod Output
