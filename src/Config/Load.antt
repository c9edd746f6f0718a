-- ===== src/Config/Load.antt =====
-- `Load` and `validate` of app/config/config.go. The `.env` file, the settings file and its parser
-- are parameters.
use chat_service.Prelude.{◌||◌, pos, none, ltb_ℤ, true, not, some, Bool, ℤ, Option, if◌then◌else◌}
use chat_service.Config.{Config, Env, default, getenv}
use chat_service.Text.Atoi.{atoi}
use chat_service.Text.{same, is_empty, Bytes, lit}

-- if v := os.Getenv(k); v != "" { x = v }
unfoldable pub override : Bytes → Bytes → Bytes
override v x = if is_empty v then x else v

abbrev pub parsed : Option ℤ → ℤ → ℤ
parsed none x = x
parsed (some n) x = n

-- if v := os.Getenv(k); v != "" { if p, err := strconv.Atoi(v); err == nil { x = p } }
unfoldable pub override_int : Bytes → ℤ → ℤ
override_int v x = if is_empty v then x else parsed (atoi v) x

-- if v := os.Getenv(k); v == "true" { x = true }
unfoldable pub switch_on : Bytes → Bool → Bool
switch_on v x = if same v (lit "true") then true else x

unfoldable pub env_service : Env → Config → Config
unfolding override override_int switch_on
env_service env cfg = record cfg {
  service_name = override (env (lit "SERVICE_NAME")) cfg.service_name;
  port = override_int (env (lit "PORT")) cfg.port;
  log_level = override (env (lit "LOG_LEVEL")) cfg.log_level;
}

unfoldable pub env_redis : Env → Config → Config
unfolding override override_int switch_on
env_redis env cfg = record cfg {
  redis_url = override (env (lit "REDIS_URL")) cfg.redis_url;
  redis_addr = override (env (lit "REDIS_ADDR")) cfg.redis_addr;
  redis_password = override (env (lit "REDIS_PASSWORD")) cfg.redis_password;
}

unfoldable pub env_minio : Env → Config → Config
unfolding override override_int switch_on
env_minio env cfg = record cfg {
  storage_backend = override (env (lit "STORAGE_BACKEND")) cfg.storage_backend;
  minio_endpoint = override (env (lit "MINIO_ENDPOINT")) cfg.minio_endpoint;
  minio_access_key = override (env (lit "MINIO_ACCESS_KEY")) cfg.minio_access_key;
  minio_secret_key = override (env (lit "MINIO_SECRET_KEY")) cfg.minio_secret_key;
  minio_bucket = override (env (lit "MINIO_BUCKET")) cfg.minio_bucket;
  minio_use_ssl = switch_on (env (lit "MINIO_USE_SSL")) cfg.minio_use_ssl;
}

unfoldable pub env_s3 : Env → Config → Config
unfolding override override_int switch_on
env_s3 env cfg = record cfg {
  s3_bucket = override (env (lit "S3_BUCKET")) cfg.s3_bucket;
  s3_region = override (env (lit "S3_REGION")) cfg.s3_region;
  s3_endpoint = override (env (lit "S3_ENDPOINT")) cfg.s3_endpoint;
  s3_access_key_id = override (env (lit "AWS_ACCESS_KEY_ID")) cfg.s3_access_key_id;
  s3_secret_access_key = override (env (lit "AWS_SECRET_ACCESS_KEY")) cfg.s3_secret_access_key;
  s3_force_path_style = switch_on (env (lit "S3_FORCE_PATH_STYLE")) cfg.s3_force_path_style;
}

unfoldable pub env_cloudinary : Env → Config → Config
unfolding override override_int switch_on
env_cloudinary env cfg = record cfg {
  cloudinary_cloud_name = override (env (lit "CLOUDINARY_CLOUD_NAME")) cfg.cloudinary_cloud_name;
  cloudinary_api_key = override (env (lit "CLOUDINARY_API_KEY")) cfg.cloudinary_api_key;
  cloudinary_api_secret = override (env (lit "CLOUDINARY_API_SECRET")) cfg.cloudinary_api_secret;
}

unfoldable pub env_mongo : Env → Config → Config
unfolding override override_int switch_on
env_mongo env cfg = record cfg {
  mongo_uri = override (env (lit "MONGO_URI")) cfg.mongo_uri;
  mongo_db = override (env (lit "MONGO_DB")) cfg.mongo_db;
}

unfoldable pub env_postgres : Env → Config → Config
unfolding override override_int switch_on
env_postgres env cfg = record cfg {
  postgres_dsn = override (env (lit "POSTGRES_DSN")) cfg.postgres_dsn;
  postgres_host = override (env (lit "POSTGRES_HOST")) cfg.postgres_host;
  postgres_port = override_int (env (lit "POSTGRES_PORT")) cfg.postgres_port;
  postgres_user = override (env (lit "POSTGRES_USER")) cfg.postgres_user;
  postgres_pass = override (env (lit "POSTGRES_PASSWORD")) cfg.postgres_pass;
  postgres_db = override (env (lit "POSTGRES_DB")) cfg.postgres_db;
  postgres_ssl = override (env (lit "POSTGRES_SSLMODE")) cfg.postgres_ssl;
}

unfoldable pub env_kafka : Env → Config → Config
unfolding override override_int switch_on
env_kafka env cfg = record cfg {
  kafka_brokers_raw = override (env (lit "KAFKA_BROKERS")) cfg.kafka_brokers_raw;
  kafka_topic = override (env (lit "KAFKA_TOPIC")) cfg.kafka_topic;
  kafka_group_id = override (env (lit "KAFKA_GROUP_ID")) cfg.kafka_group_id;
  max_conns_per_pod = override_int (env (lit "MAX_CONNS_PER_POD")) cfg.max_conns_per_pod;
}

unfoldable pub env_jwt : Env → Config → Config
unfolding override override_int switch_on
env_jwt env cfg = record cfg {
  jwt_public_key_path = override (env (lit "JWT_PUBLIC_KEY_PATH")) cfg.jwt_public_key_path;
  jwt_audience = override (env (lit "JWT_AUDIENCE")) cfg.jwt_audience;
  jwt_issuer = override (env (lit "JWT_ISSUER")) cfg.jwt_issuer;
  jwt_disabled = switch_on (env (lit "JWT_DISABLED")) cfg.jwt_disabled;
}

-- What `Load` takes from the environment, section by section.
unfoldable pub from_env : Env → Config → Config
unfolding env_jwt env_kafka env_postgres env_mongo env_cloudinary env_s3 env_minio env_redis
    env_service
from_env env cfg = env_jwt env (
    env_kafka env (
      env_postgres env (
        env_mongo env
          (env_cloudinary env (env_s3 env (env_minio env (env_redis env (env_service env cfg))))))))

-- The one error, errors.New("invalid port")
pub data Invalid : Type 0 where
  invalid_port : Invalid

-- validate; `none` is nil
unfoldable pub validate : Config → Option Invalid
validate c =
    if not (ltb_ℤ (pos 0) c.port) || ltb_ℤ (pos 65535) c.port then some invalid_port else none

module _ (dotenv : Env → Env) (read_file : Bytes → Option Bytes)
    (unmarshal : Bytes → Config → Config) where
  abbrev pub of_file : Option Bytes → Config → Config
  of_file none cfg = cfg
  of_file (some y) cfg = unmarshal y cfg

  -- The settings before the environment is looked at.
  unfoldable pub file_config : Env → Config
  file_config env =
      of_file (read_file (getenv (dotenv env) (lit "CONFIG_FILE") (lit "config/config.yaml")))
        default

  -- Load
  unfoldable pub load : Env → Config × Option Invalid
  load env = let cfg = from_env (dotenv env) (file_config env) in (cfg, validate cfg)
