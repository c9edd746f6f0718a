-- ===== src/Config/Loaded.antt =====
-- What `Load` of app/config/config.go gives: the port, and what the environment changes.
use chat_service.Text.Decimal.{itoa}
use chat_service.Prelude.{
  arith, ◌||◌, ltb_ℤ, sym, not, ◌∙◌, if◌then◌else◌, ◌∷◌, inr, negsuc, inl, ◌≤◌, ◌⊎◌, ◌↔◌, ap, refl,
  ◌<◌, true, ℕ, none, [], some, Bool-cases, pos, Bool, Option, ◌≡◌, ℤ,
}
use chat_service.Config.{Config, Env, addr}
use chat_service.Config.Load.{
  load, from_env, override, override_int, switch_on, validate, file_config, parsed, invalid_port,
}
use chat_service.Text.Atoi.{is_empty-itoa, atoi, atoi-itoa}
use chat_service.Text.{same_iff, same, is_empty, Bytes, lit}

-- A port that a TCP listener can have.
abbrev pub IsPort : ℤ → Type 0
IsPort (pos n) = (0 < n) × (n ≤ 65535)
IsPort (negsuc n) = ⊥

override_twice : (v x : Bytes) → override v (override v x) ≡ override v x
unfolding override
override_twice v x = elim (Bool-cases (is_empty v)) [ inl h ↦ rw h refl | inr h ↦ rw h refl ]

parsed_twice : (o : Option ℤ) (x : ℤ) → parsed o (parsed o x) ≡ parsed o x
parsed_twice none x = refl
parsed_twice (some n) x = refl

override_int_twice : (v : Bytes) (x : ℤ) → override_int v (override_int v x) ≡ override_int v x
unfolding override_int
override_int_twice v x = elim (Bool-cases (is_empty v)) [
  | inl h ↦ rw h refl
  | inr h ↦ rw h (parsed_twice (atoi v) x)
]

switch_on_twice : (v : Bytes) (x : Bool) → switch_on v (switch_on v x) ≡ switch_on v x
unfolding switch_on
switch_on_twice v x = elim (Bool-cases (same v (lit "true"))) [
  | inl h ↦ rw h refl
  | inr h ↦ rw h refl
]

-- Reading the environment a second time changes nothing.
pub from_env-twice : (env : Env) (c : Config) → from_env env (from_env env c) ≡ from_env env c
unfolding from_env
from_env-twice env c i = record {
  service_name = override_twice (env (lit "SERVICE_NAME")) c.service_name i;
  port = override_int_twice (env (lit "PORT")) c.port i;
  log_level = override_twice (env (lit "LOG_LEVEL")) c.log_level i;
  redis_url = override_twice (env (lit "REDIS_URL")) c.redis_url i;
  redis_addr = override_twice (env (lit "REDIS_ADDR")) c.redis_addr i;
  redis_password = override_twice (env (lit "REDIS_PASSWORD")) c.redis_password i;
  storage_backend = override_twice (env (lit "STORAGE_BACKEND")) c.storage_backend i;
  minio_bucket = override_twice (env (lit "MINIO_BUCKET")) c.minio_bucket i;
  minio_endpoint = override_twice (env (lit "MINIO_ENDPOINT")) c.minio_endpoint i;
  minio_access_key = override_twice (env (lit "MINIO_ACCESS_KEY")) c.minio_access_key i;
  minio_secret_key = override_twice (env (lit "MINIO_SECRET_KEY")) c.minio_secret_key i;
  minio_use_ssl = switch_on_twice (env (lit "MINIO_USE_SSL")) c.minio_use_ssl i;
  s3_bucket = override_twice (env (lit "S3_BUCKET")) c.s3_bucket i;
  s3_region = override_twice (env (lit "S3_REGION")) c.s3_region i;
  s3_endpoint = override_twice (env (lit "S3_ENDPOINT")) c.s3_endpoint i;
  s3_access_key_id = override_twice (env (lit "AWS_ACCESS_KEY_ID")) c.s3_access_key_id i;
  s3_secret_access_key =
      override_twice (env (lit "AWS_SECRET_ACCESS_KEY")) c.s3_secret_access_key i;
  s3_force_path_style = switch_on_twice (env (lit "S3_FORCE_PATH_STYLE")) c.s3_force_path_style i;
  cloudinary_cloud_name =
      override_twice (env (lit "CLOUDINARY_CLOUD_NAME")) c.cloudinary_cloud_name i;
  cloudinary_api_key = override_twice (env (lit "CLOUDINARY_API_KEY")) c.cloudinary_api_key i;
  cloudinary_api_secret =
      override_twice (env (lit "CLOUDINARY_API_SECRET")) c.cloudinary_api_secret i;
  mongo_uri = override_twice (env (lit "MONGO_URI")) c.mongo_uri i;
  mongo_db = override_twice (env (lit "MONGO_DB")) c.mongo_db i;
  postgres_dsn = override_twice (env (lit "POSTGRES_DSN")) c.postgres_dsn i;
  postgres_host = override_twice (env (lit "POSTGRES_HOST")) c.postgres_host i;
  postgres_port = override_int_twice (env (lit "POSTGRES_PORT")) c.postgres_port i;
  postgres_user = override_twice (env (lit "POSTGRES_USER")) c.postgres_user i;
  postgres_pass = override_twice (env (lit "POSTGRES_PASSWORD")) c.postgres_pass i;
  postgres_db = override_twice (env (lit "POSTGRES_DB")) c.postgres_db i;
  postgres_ssl = override_twice (env (lit "POSTGRES_SSLMODE")) c.postgres_ssl i;
  kafka_brokers_raw = override_twice (env (lit "KAFKA_BROKERS")) c.kafka_brokers_raw i;
  kafka_topic = override_twice (env (lit "KAFKA_TOPIC")) c.kafka_topic i;
  kafka_group_id = override_twice (env (lit "KAFKA_GROUP_ID")) c.kafka_group_id i;
  max_conns_per_pod = override_int_twice (env (lit "MAX_CONNS_PER_POD")) c.max_conns_per_pod i;
  jwt_public_key_path = override_twice (env (lit "JWT_PUBLIC_KEY_PATH")) c.jwt_public_key_path i;
  jwt_audience = override_twice (env (lit "JWT_AUDIENCE")) c.jwt_audience i;
  jwt_issuer = override_twice (env (lit "JWT_ISSUER")) c.jwt_issuer i;
  jwt_disabled = switch_on_twice (env (lit "JWT_DISABLED")) c.jwt_disabled i;
}

-- An environment without the variables leaves every setting as it was.
pub from_env-unset : (env : Env) (c : Config) → ((k : Bytes) → env k ≡ []) → from_env env c ≡ c
unfolding from_env override override_int switch_on same
from_env-unset env c h i = record {
  service_name = ap (λ v. override v c.service_name) (h (lit "SERVICE_NAME")) i;
  port = ap (λ v. override_int v c.port) (h (lit "PORT")) i;
  log_level = ap (λ v. override v c.log_level) (h (lit "LOG_LEVEL")) i;
  redis_url = ap (λ v. override v c.redis_url) (h (lit "REDIS_URL")) i;
  redis_addr = ap (λ v. override v c.redis_addr) (h (lit "REDIS_ADDR")) i;
  redis_password = ap (λ v. override v c.redis_password) (h (lit "REDIS_PASSWORD")) i;
  storage_backend = ap (λ v. override v c.storage_backend) (h (lit "STORAGE_BACKEND")) i;
  minio_bucket = ap (λ v. override v c.minio_bucket) (h (lit "MINIO_BUCKET")) i;
  minio_endpoint = ap (λ v. override v c.minio_endpoint) (h (lit "MINIO_ENDPOINT")) i;
  minio_access_key = ap (λ v. override v c.minio_access_key) (h (lit "MINIO_ACCESS_KEY")) i;
  minio_secret_key = ap (λ v. override v c.minio_secret_key) (h (lit "MINIO_SECRET_KEY")) i;
  minio_use_ssl = ap (λ v. switch_on v c.minio_use_ssl) (h (lit "MINIO_USE_SSL")) i;
  s3_bucket = ap (λ v. override v c.s3_bucket) (h (lit "S3_BUCKET")) i;
  s3_region = ap (λ v. override v c.s3_region) (h (lit "S3_REGION")) i;
  s3_endpoint = ap (λ v. override v c.s3_endpoint) (h (lit "S3_ENDPOINT")) i;
  s3_access_key_id = ap (λ v. override v c.s3_access_key_id) (h (lit "AWS_ACCESS_KEY_ID")) i;
  s3_secret_access_key =
      ap (λ v. override v c.s3_secret_access_key) (h (lit "AWS_SECRET_ACCESS_KEY")) i;
  s3_force_path_style =
      ap (λ v. switch_on v c.s3_force_path_style) (h (lit "S3_FORCE_PATH_STYLE")) i;
  cloudinary_cloud_name =
      ap (λ v. override v c.cloudinary_cloud_name) (h (lit "CLOUDINARY_CLOUD_NAME")) i;
  cloudinary_api_key = ap (λ v. override v c.cloudinary_api_key) (h (lit "CLOUDINARY_API_KEY")) i;
  cloudinary_api_secret =
      ap (λ v. override v c.cloudinary_api_secret) (h (lit "CLOUDINARY_API_SECRET")) i;
  mongo_uri = ap (λ v. override v c.mongo_uri) (h (lit "MONGO_URI")) i;
  mongo_db = ap (λ v. override v c.mongo_db) (h (lit "MONGO_DB")) i;
  postgres_dsn = ap (λ v. override v c.postgres_dsn) (h (lit "POSTGRES_DSN")) i;
  postgres_host = ap (λ v. override v c.postgres_host) (h (lit "POSTGRES_HOST")) i;
  postgres_port = ap (λ v. override_int v c.postgres_port) (h (lit "POSTGRES_PORT")) i;
  postgres_user = ap (λ v. override v c.postgres_user) (h (lit "POSTGRES_USER")) i;
  postgres_pass = ap (λ v. override v c.postgres_pass) (h (lit "POSTGRES_PASSWORD")) i;
  postgres_db = ap (λ v. override v c.postgres_db) (h (lit "POSTGRES_DB")) i;
  postgres_ssl = ap (λ v. override v c.postgres_ssl) (h (lit "POSTGRES_SSLMODE")) i;
  kafka_brokers_raw = ap (λ v. override v c.kafka_brokers_raw) (h (lit "KAFKA_BROKERS")) i;
  kafka_topic = ap (λ v. override v c.kafka_topic) (h (lit "KAFKA_TOPIC")) i;
  kafka_group_id = ap (λ v. override v c.kafka_group_id) (h (lit "KAFKA_GROUP_ID")) i;
  max_conns_per_pod = ap (λ v. override_int v c.max_conns_per_pod) (h (lit "MAX_CONNS_PER_POD")) i;
  jwt_public_key_path =
      ap (λ v. override v c.jwt_public_key_path) (h (lit "JWT_PUBLIC_KEY_PATH")) i;
  jwt_audience = ap (λ v. override v c.jwt_audience) (h (lit "JWT_AUDIENCE")) i;
  jwt_issuer = ap (λ v. override v c.jwt_issuer) (h (lit "JWT_ISSUER")) i;
  jwt_disabled = ap (λ v. switch_on v c.jwt_disabled) (h (lit "JWT_DISABLED")) i;
}

in_range :
    (n : ℤ)
    → ((if not (ltb_ℤ (pos 0) n) || ltb_ℤ (pos 65535) n then some invalid_port else none) ≡ none)
      ↔ IsPort n
in_range (pos n) = ground arith
in_range (negsuc n) = ground arith

validate-IsPort : (c : Config) → (validate c ≡ none) ↔ IsPort c.port
unfolding validate
validate-IsPort c = in_range c.port

override_int-itoa :
    (n : ℕ) (v : Bytes) (x : ℤ) → n ≤ 65535 → v ≡ itoa (pos n) → override_int v x ≡ pos n
unfolding override_int
override_int-itoa n v x h e = rw (e, is_empty-itoa n, atoi-itoa (pos n) (omega arith)) refl

module _ (dotenv : Env → Env) (read_file : Bytes → Option Bytes)
    (unmarshal : Bytes → Config → Config) where
  -- `Load` succeeds exactly when the port it has read is between 1 and 65535.
  pub load-IsPort :
      (env : Env)
      → ((load dotenv read_file unmarshal env).1 ≡ none)
        ↔ IsPort (load dotenv read_file unmarshal env).0.port
  unfolding load
  load-IsPort env = validate-IsPort (load dotenv read_file unmarshal env).0

  -- A number from 1 to 65535 in PORT, in decimal, is the port that the service listens on, whatever
  -- the settings file says: `Load` succeeds, and the address is a colon and the variable.
  pub load-addr :
      (env : Env) (n : ℕ)
      → 0 < n
      → n ≤ 65535
      → dotenv env (lit "PORT") ≡ itoa (pos n)
      → ((load dotenv read_file unmarshal env).1 ≡ none)
        × (addr (load dotenv read_file unmarshal env).0.port ≡ b':' ∷ dotenv env (lit "PORT"))
  unfolding addr load from_env
  load-addr env n low high e =
      let port =
        override_int-itoa n (dotenv env (lit "PORT"))
          (file_config dotenv read_file unmarshal env).port high e in
      ((load-IsPort env).1 (rw port (low, high)), ap (◌∷◌ b':') (ap itoa port ∙ sym e))

  -- The check of tokens is switched off only by the settings file, or by the word `true` in
  -- JWT_DISABLED.
  pub load-jwt_disabled :
      (env : Env)
      → (load dotenv read_file unmarshal env).0.jwt_disabled ≡ true
      → ((file_config dotenv read_file unmarshal env).jwt_disabled ≡ true)
        ⊎ (dotenv env (lit "JWT_DISABLED") ≡ lit "true")
  unfolding load from_env switch_on
  load-jwt_disabled env h =
      elim (Bool-cases (same (dotenv env (lit "JWT_DISABLED")) (lit "true"))) [
        | inl e ↦ inr ((same_iff (dotenv env (lit "JWT_DISABLED")) (lit "true")).0 e)
        | inr e ↦ inl (
            sym (
              ap
                (λ o. if o then true else (file_config dotenv read_file unmarshal env).jwt_disabled)
                e)
            ∙ h)
      ]
