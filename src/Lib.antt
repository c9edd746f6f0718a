-- ===== src/Lib.antt =====
-- The chat service: a gRPC server that keeps the streams of the connected users, sends each message of
-- a room to the clients in the room and through a broker to the other processes, and stores messages
-- and rooms in MongoDB and PostgreSQL.
--
-- Parts and how they interact. A client opens the stream `Chat`, which registers it with the hub
-- under the canonical id of its room. Each frame goes through `processIncoming`, which asks the message
-- store, broadcasts through the hub and starts goroutines that store. The unary calls ask the same
-- stores. The hub subscribes to the broker once for each room that has clients here, and forwards what
-- the broker delivers. The interceptors let a call through to its handler or refuse it.
--
-- - Prelude: the names shared by all modules. Text: byte strings, with the functions of the Go package
--   strings that the code uses, sort.Strings, maps with string keys (Text.Assoc) and decimal numbers.
--   Chan: buffered channels. Proto: the messages of app/pb/chat.pb.go.
-- - RoomId: `normalizeRoomID` of app/server/grpc_server.go (normalize_room_id), `splitRoomID` and
--   `roomIDAliases` of app/repository/mongodb.go (split_room_id, room_id_aliases).
-- - Broker and Hub: app/broker/broker.go and app/chat/hub.go. A `*Client` is a number, the hub has a
--   store of clients; 64 shards by FNV-1a as in the code; register, unregister, at_capacity, broadcast,
--   forward_from_broker are the methods. One step is what is done under the lock of a shard, with the
--   change of the counter that follows it. A client's channel is full at 256 messages, as in the code.
-- - Kafka: app/broker/kafka_broker.go. subscribe, the function `cancel` that it returns, publish, and the
--   rounds of `consume`: the channels are read under the lock and sent to without it, and a round has
--   the calls of other goroutines before it reads and before each send.
-- - Presence: app/chat/presence.go, the store in memory (set_online, get) and, in Presence.Redis, the
--   one in Redis with its heartbeat.
-- - Auth: app/interceptors/auth.go, both interceptors as functions that get the handler.
-- - Server: app/server/grpc_server.go. Calls: what handlers ask and call. Chat: the beginning and the
--   end of a stream over the hub. Stream: the interleaving of one stream as a step relation. Incoming:
--   `processIncoming`, `toServerMsg`, `persistMessage`. Messages: the unary calls on messages. History:
--   `GetMessages`. Listing: `GetUserRooms`. Groups: `GetConversation` and the group calls. Creation:
--   `CreateRoom` over its three stores. Uploads: `RequestUpload`, `GetDownloadUrl`, `GetPresence`.
-- - Store: `MessageRepository` of app/repository/mongodb.go, over an engine whose commands have the
--   effect that MongoDB documents (Store.Engine). Documents: the documents and their conversion.
--   Messages, Reading, Groups, Direct: the methods. Service, GroupService: the repository as the store
--   that the handlers call.
-- - Rooms: `RoomRepository` of app/repository/postgres.go over the interface Rooms.Statements, whose
--   statements have the effect of the SQL in the code on the rows of four tables. Direct, Detailed: the
--   methods; Shuffled: rows in no order.
-- - RoomStore: app/chat/room_store.go, over Redis or the map in memory.
-- - Config: app/config/config.go. Load: the settings file, the environment and the check; Comma and
--   Brokers: lists in a variable. Text.Atoi: strconv.Atoi and ParseInt.
-- - Cloudinary: app/storage/cloudinary.go, the links and their signature.
-- - Wiring: `main` of cmd/server/main.go up to the point where it serves.
--
-- How the code is read. Times are integers, milliseconds of the Unix clock; the zero time is its own
-- number. Strings are lists of bytes. An error is a value (`err`), a panic another (`Panic`). A handler
-- yields its reply, the calls it makes, and the calls of a goroutine that it starts; what is only
-- logged is left out. Fuel occurs where text is trimmed, on the length of the text, of which each
-- round takes a byte, and in decimal numbers, on the number itself, of which each round leaves less
-- than before.
--
-- Parameters. JSON encoding (Broker.Codec, RoomStore) with its round trip; the broker of the hub;
-- MongoDB (Store.Engine, whose laws hold for commands that succeed), the rows of its aggregation and
-- mongo.IsDuplicateKeyError; PostgreSQL (Rooms.Statements) and Redis (RoomStore, Presence.Redis) as
-- interfaces with laws; the environment, the `.env` file, the settings file and its parser (Config);
-- what the constructors of the client libraries answer (Wiring); jwt.Parse, a function of what `verify` passes to it; the test of a regular
-- expression; SHA-1; uuid.NewString and the clock, as arguments. Each interface has an instance in a
-- Tests or Instance module.
--
-- Not modelled: app/pb beyond the messages used and their enumerations (generated code); the Redis
-- broker, the MinIO and S3 storages, and the reader and the writer inside the Kafka broker (calls of a
-- client library); app/logger; opening and closing the databases and running the statements of `Migrate`; the
-- health service, listening and the shutdown of cmd/server; `DurationEnv` of app/config, which nothing
-- calls. In Go a set has no order and the members of a new group come in any; here they come in the
-- order of the request.
pub mod Auth
pub mod Broker
pub mod Chan
pub mod Cloudinary
pub mod Config
pub mod Hub
pub mod Kafka
pub mod Prelude
pub mod Presence
pub mod Proto
pub mod RoomId
pub mod RoomStore
pub mod Rooms
pub mod Server
pub mod Store
pub mod Text
pub mod Wiring
