-- ===== src/Recovery.antt =====
-- The two ends of the recovery protocol: include/llte/socket_io.hpp, market_data/recovery_client.cpp,
-- and `serve_connection` of exchange/recovery_server.cpp. The socket is a parameter: `recv` and `send`
-- act on a state of the world.
pub mod SocketIo
pub mod Client
pub mod Server
mod Tests
