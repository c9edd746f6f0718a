-- ===== src/Server.antt =====
-- The RPC handlers of app/server/grpc_server.go. A handler is a function from what it asks of the
-- message store and the room repository, of the clock and of the random ids, to its response and the
-- calls that it makes, in their order. The hub's part is app/chat/hub.go (module `Hub`).
pub mod Calls
pub mod Chat
pub mod Incoming
pub mod History
pub mod Listing
pub mod Messages
pub mod Groups
pub mod Creation
pub mod Uploads
pub mod Stream
pub mod StreamTests
pub mod Tests
