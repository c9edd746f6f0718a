-- ===== src/Wiring.antt =====
-- `main` of cmd/server/main.go up to the point where it serves: which parts a process has. What the
-- client libraries and the network answer is a parameter; what is only logged is left out.
pub mod Started
pub mod Tests
use chat_service.Prelude.{
  ◌==◌, ok, ◌+◌, [], err, ◌&&◌, ◌||◌, leb, ◌∷◌, Result, false, some, none, ℤ, not, Option,
  if◌then◌else◌, List, Bool,
}
use chat_service.Config.{Config, Env, addr, default, postgres_dsn_built}
use chat_service.Config.Brokers.{kafka_brokers}
use chat_service.Config.Load.{Invalid, load}
use chat_service.Text.{same, is_empty, Bytes, lit}

-- Whether the calls of the libraries succeed.
pub record World : Type 0 where
  -- redis.ParseURL
  pub parses_url : Bytes → Bool
  -- awsconfig.LoadDefaultConfig, minio.New
  pub aws_config : Config → Bool
  pub minio_client : Config → Bool
  -- repository.NewMessageRepository and NewRoomRepository, and the statements of Migrate
  pub mongo_connects : Bytes → Bytes → Bool
  pub postgres_connects : Bytes → Bool
  pub postgres_migrates : Bool
  -- os.ReadFile; pem.Decode and jwt.ParseRSAPublicKeyFromPEM
  pub key_file : Bytes → Option Bytes
  pub parses_key : Bytes → Bool

pub data BrokerKind : Type 0 where
  noop_broker redis_broker : BrokerKind
  -- the brokers, the topic and the consumer group
  kafka_broker : List Bytes → Bytes → Bytes → BrokerKind

pub data StorageKind : Type 0 where
  no_storage cloudinary s3 minio : StorageKind

pub data PresenceKind : Type 0 where
  local_presence redis_presence : PresenceKind

-- The process that serves.
pub record Process : Type 0 where
  pub broker : BrokerKind
  pub storage : StorageKind
  pub has_msg_repo : Bool
  pub has_pg_rooms : Bool
  pub presence : PresenceKind
  pub authenticates : Bool
  pub max_conns : ℤ
  pub address : Bytes

-- panic(err) of the settings, and log.Fatal
pub data Stopped : Type 0 where
  bad_settings : Invalid → Stopped
  fatal : Stopped

-- strings.ToLower, as far as it can give an ASCII letter: A to Z, and the letters U+0130 and U+212A.
unfoldable pub to_lower : Bytes → Bytes
to_lower [] = []
to_lower (a ∷ []) = (if leb 65 a && leb a 90 then a + 32 else a) ∷ []
to_lower (a ∷ b ∷ []) =
    let rest = to_lower (b ∷ []) in
    if (a == 0xc4) && (b == 0xb0)
    then b'i' ∷ []
    else (if leb 65 a && leb a 90 then a + 32 else a) ∷ rest
to_lower (a ∷ b ∷ c ∷ s) =
    let rest = to_lower (b ∷ c ∷ s) in
    let after_two = to_lower (c ∷ s) in
    let after_three = to_lower s in
    if (a == 0xc4) && (b == 0xb0)
    then b'i' ∷ after_two
    else if (a == 0xe2) && (b == 0x84) && (c == 0xaa)
    then b'k' ∷ after_three
    else (if leb 65 a && leb a 90 then a + 32 else a) ∷ rest

-- NewCloudinaryStorage is not nil
unfoldable pub new_cloudinary_storage : Config → Bool
new_cloudinary_storage c = not (
    is_empty c.cloudinary_cloud_name
    || is_empty c.cloudinary_api_key
    || is_empty c.cloudinary_api_secret)

-- a, b := defaults of NewKafkaBroker
unfoldable pub or_default : Bytes → Bytes → Bytes
or_default value otherwise = if is_empty value then otherwise else value

-- NewKafkaBroker; its only error is an empty list of brokers
unfoldable pub new_kafka_broker : List Bytes → Bytes → Bytes → Option BrokerKind
unfolding or_default
new_kafka_broker [] topic group = none
new_kafka_broker (b ∷ bs) topic group = some (
    kafka_broker (b ∷ bs) (or_default topic (lit "chat-messages"))
      (or_default group (lit "chat-service")))

module _ (w : World) where
  -- NewRedisClient is not nil
  unfoldable pub new_redis_client : Bytes → Bytes → Bool
  new_redis_client url address =
      if not (is_empty url) then w.parses_url url else not (is_empty address)

  -- the switch on the storage backend; `none` is log.Fatal
  unfoldable pub wire_storage : Config → Option StorageKind
  unfolding to_lower new_cloudinary_storage
  wire_storage c =
      let backend = to_lower c.storage_backend in
      if same backend (lit "cloudinary")
      then some (if new_cloudinary_storage c then cloudinary else no_storage)
      else if same backend (lit "s3")
      then (if is_empty c.s3_bucket
          then some no_storage
          else if w.aws_config c
          then some s3
          else none)
      else if is_empty c.minio_endpoint
      then some no_storage
      else if w.minio_client c
      then some minio
      else none

  -- The broker where Kafka is not used: Redis, or Noop without a client.
  abbrev pub fallback_broker : Bool → BrokerKind
  fallback_broker has_redis = if has_redis then redis_broker else noop_broker

  abbrev pub or_fallback : Option BrokerKind → Bool → BrokerKind
  or_fallback none has_redis = fallback_broker has_redis
  or_fallback (some b) has_redis = b

  unfoldable pub wire_broker : Env → Config → BrokerKind
  unfolding new_redis_client new_kafka_broker kafka_brokers
  wire_broker env c =
      or_fallback (new_kafka_broker (kafka_brokers env c) c.kafka_topic c.kafka_group_id)
        (new_redis_client c.redis_url c.redis_addr)

  unfoldable pub wire_pg_rooms : Config → Bool
  unfolding postgres_dsn_built
  wire_pg_rooms c =
      let dsn = postgres_dsn_built c in
      not (is_empty dsn) && w.postgres_connects dsn && w.postgres_migrates

  abbrev pub loads : Option Bytes → Bool
  loads none = false
  loads (some raw) = w.parses_key raw

  -- NewAuthInterceptor succeeds
  unfoldable pub new_auth_interceptor : Config → Bool
  new_auth_interceptor c = loads (w.key_file c.jwt_public_key_path)

  unfoldable pub process : Env → Config → StorageKind → Process
  unfolding wire_broker wire_pg_rooms new_auth_interceptor addr
  process env c storage = record {
    broker = wire_broker env c;
    storage = storage;
    has_msg_repo = not (is_empty c.mongo_uri) && w.mongo_connects c.mongo_uri c.mongo_db;
    has_pg_rooms = wire_pg_rooms c;
    presence = if new_redis_client c.redis_url c.redis_addr then redis_presence else local_presence;
    authenticates = not c.jwt_disabled && new_auth_interceptor c;
    max_conns = c.max_conns_per_pod;
    address = addr c.port;
  }

  abbrev pub with_storage : Env → Config → Option StorageKind → Result Stopped Process
  with_storage env c none = err fatal
  with_storage env c (some storage) = ok (process env c storage)

  abbrev pub with_settings : Env → Config × Option Invalid → Result Stopped Process
  with_settings env (c, some e) = err (bad_settings e)
  with_settings env (c, none) = with_storage env c (wire_storage c)

  -- main, given the `.env` file, the settings file and its parser
  unfoldable pub main :
      (Env → Env)
      → (Bytes → Option Bytes)
      → (Bytes → Config → Config)
      → Env
      → Result Stopped Process
  unfolding process wire_storage load
  main dotenv read_file unmarshal env =
      with_settings (dotenv env) (load dotenv read_file unmarshal env)
