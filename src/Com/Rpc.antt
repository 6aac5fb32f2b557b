-- ===== src/Com/Rpc.antt =====
-- src/ara/com/someip/rpc/someip_rpc_message.cpp, rpc_server.cpp and rpc_client.cpp. A handler of
-- the server is a function of the request's payload to whether it handled it and the response's
-- payload. The map of handlers is an association list, the set of services a list.
pub mod Message
pub mod RoundTrip
pub mod Server
pub mod Reply
pub mod Client
pub mod Exchange
pub mod Tests
