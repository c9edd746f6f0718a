-- ===== src/Wiring/Tests.antt =====
-- A process that `main` of cmd/server/main.go starts on a concrete environment, and the result at it.
use chat_service.Text.Decimal.{itoa}
use chat_service.Text.Trim.{trim_space}
use chat_service.Text.Atoi.{atoi}
use chat_service.Prelude.{
  ◌∷◌, ◌≡◌, ◌⊎◌, true, false, refl, none, some, ok, ℤ, Option, [], if◌then◌else◌,
}
use chat_service.Text.{same, Bytes, lit}
use chat_service.Config.{Env, addr, default}
use chat_service.Config.Load.{from_env, validate, file_config, load}
use chat_service.Config.Loaded.{IsPort}
use chat_service.Wiring.{
  World, Process, main, to_lower, new_auth_interceptor, no_storage, noop_broker, local_presence,
}
use chat_service.Wiring.Started.{main-authenticates}

-- Every library call succeeds but the connection to MongoDB.
abbrev world : World
world = record {
  parses_url = λ u. true;
  aws_config = λ c. true;
  minio_client = λ c. true;
  mongo_connects = λ u d. false;
  postgres_connects = λ u. true;
  postgres_migrates = true;
  key_file = λ p. some (lit "PEM");
  parses_key = λ k. true;
}

-- PORT=8080
abbrev env : Env
env k = if same k (lit "PORT") then lit "8080" else []

abbrev no_file : Bytes → Option Bytes
no_file p = none

lower : to_lower (b'S' ∷ b'3' ∷ 0xc4 ∷ 0xb0 ∷ []) ≡ lit "s3i"
unfolding to_lower
lower = refl

abbrev started : Process
started = record {
  broker = noop_broker;
  storage = no_storage;
  has_msg_repo = false;
  has_pg_rooms = true;
  presence = local_presence;
  authenticates = true;
  max_conns = (load (λ e. e) no_file (λ y c. c) env).0.max_conns_per_pod;
  address = lit ":8080";
}

runs : main world (λ e. e) no_file (λ y c. c) env ≡ ok started
unfolding main validate from_env same atoi file_config default trim_space itoa
runs = refl

main-authenticates_example :
    ((port : ℤ) × IsPort port × (started.address ≡ addr port))
    × ((started.authenticates ≡ true)
        ⊎ ((file_config (λ e. e) no_file (λ y c. c) env).jwt_disabled ≡ true)
        ⊎ (env (lit "JWT_DISABLED") ≡ lit "true")
        ⊎ (new_auth_interceptor world (load (λ e. e) no_file (λ y c. c) env).0 ≡ false))
main-authenticates_example = main-authenticates world (λ e. e) no_file (λ y c. c) env started runs
