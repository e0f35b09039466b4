-- ===== src/Grpc.antt =====
-- pkg/grpc/: the messages of the gRPC service and the stubs of its client and its server.
pub mod Messages
pub mod Getters
pub mod Stubs
pub mod Transport
pub mod Calls
