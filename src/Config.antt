-- ===== src/Config.antt =====
-- The settings of app/config/config.go: the record, its defaults, and what is computed from it.
pub mod Comma
pub mod Brokers
pub mod Load
pub mod Loaded
pub mod Tests
use chat_service.Text.Decimal.{itoa}
use chat_service.Prelude.{◌++◌, not, false, ◌∷◌, [], Bool, if◌then◌else◌, pos, ℤ}
use chat_service.Text.{is_empty, Bytes, lit}

-- Config; a Go `int` is a ℤ here, and `atoi` bounds what is read into it.
pub record Config : Type 0 where
  pub service_name : Bytes
  pub port : ℤ
  pub log_level : Bytes
  pub redis_url : Bytes
  pub redis_addr : Bytes
  pub redis_password : Bytes
  pub storage_backend : Bytes
  pub minio_bucket : Bytes
  pub minio_endpoint : Bytes
  pub minio_access_key : Bytes
  pub minio_secret_key : Bytes
  pub minio_use_ssl : Bool
  pub s3_bucket : Bytes
  pub s3_region : Bytes
  pub s3_endpoint : Bytes
  pub s3_access_key_id : Bytes
  pub s3_secret_access_key : Bytes
  pub s3_force_path_style : Bool
  pub cloudinary_cloud_name : Bytes
  pub cloudinary_api_key : Bytes
  pub cloudinary_api_secret : Bytes
  pub mongo_uri : Bytes
  pub mongo_db : Bytes
  pub postgres_dsn : Bytes
  pub postgres_host : Bytes
  pub postgres_port : ℤ
  pub postgres_user : Bytes
  pub postgres_pass : Bytes
  pub postgres_db : Bytes
  pub postgres_ssl : Bytes
  pub kafka_brokers_raw : Bytes
  pub kafka_topic : Bytes
  pub kafka_group_id : Bytes
  pub max_conns_per_pod : ℤ
  pub jwt_public_key_path : Bytes
  pub jwt_audience : Bytes
  pub jwt_issuer : Bytes
  pub jwt_disabled : Bool

-- Default()
unfoldable pub default : Config
default = record {
  service_name = lit "chat-service";
  port = pos 50051;
  log_level = lit "info";
  redis_url = [];
  redis_addr = [];
  redis_password = [];
  storage_backend = lit "minio";
  minio_bucket = lit "chat-media";
  minio_endpoint = [];
  minio_access_key = [];
  minio_secret_key = [];
  minio_use_ssl = false;
  s3_bucket = lit "chat-media";
  s3_region = lit "us-east-1";
  s3_endpoint = [];
  s3_access_key_id = [];
  s3_secret_access_key = [];
  s3_force_path_style = false;
  cloudinary_cloud_name = [];
  cloudinary_api_key = [];
  cloudinary_api_secret = [];
  mongo_uri = [];
  mongo_db = lit "zpc_chat";
  postgres_dsn = [];
  postgres_host = lit "localhost";
  postgres_port = pos 5432;
  postgres_user = [];
  postgres_pass = [];
  postgres_db = [];
  postgres_ssl = lit "disable";
  kafka_brokers_raw = [];
  kafka_topic = lit "chat-messages";
  kafka_group_id = lit "chat-service";
  max_conns_per_pod = pos 80000;
  jwt_public_key_path = lit "config/public.pem";
  jwt_audience = lit "graphql-api";
  jwt_issuer = lit "ZPC";
  jwt_disabled = false;
}

-- The environment as os.Getenv shows it: an unset variable is the empty text.
abbrev pub Env : Type 0
Env = Bytes → Bytes

-- getenv(key, fallback)
unfoldable pub getenv : Env → Bytes → Bytes → Bytes
getenv env key fallback = let v = env key in if is_empty v then fallback else v

-- PostgresDSNBuilt
unfoldable pub postgres_dsn_built : Config → Bytes
postgres_dsn_built c =
    let ssl = if is_empty c.postgres_ssl then lit "disable" else c.postgres_ssl in
    if not (is_empty c.postgres_dsn)
    then c.postgres_dsn
    else if is_empty c.postgres_host
    then []
    else lit "host="
      ++ c.postgres_host
      ++ lit " port="
      ++ itoa c.postgres_port
      ++ lit " user="
      ++ c.postgres_user
      ++ lit " password="
      ++ c.postgres_pass
      ++ lit " dbname="
      ++ c.postgres_db
      ++ lit " sslmode="
      ++ ssl

-- Addr(port)
unfoldable pub addr : ℤ → Bytes
addr port = b':' ∷ itoa port
