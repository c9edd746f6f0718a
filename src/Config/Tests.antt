-- ===== src/Config/Tests.antt =====
-- The settings of app/config/config.go on concrete environments, and each result at one of them.
use chat_service.Text.Trim.{trim_space}
use chat_service.Text.Split.{join}
use chat_service.Text.Decimal.{itoa}
use chat_service.Prelude.{arith, ◌↔◌, ◌∷◌, refl, none, [], ◌≡◌, Option, if◌then◌else◌}
use chat_service.Config.{Config, Env, addr, default, postgres_dsn_built}
use chat_service.Config.Load.{load, from_env}
use chat_service.Config.Loaded.{IsPort, load-IsPort, load-addr, from_env-twice, from_env-unset}
use chat_service.Config.Comma.{split_comma}
use chat_service.Config.Brokers.{kafka_brokers, load-kafka_brokers}
use chat_service.Text.{same, Bytes, lit}

-- PORT=8080, KAFKA_BROKERS=" k1:9092,,k2:9092 ", JWT_DISABLED=true
abbrev env : Env
env k =
    if same k (lit "PORT")
    then lit "8080"
    else if same k (lit "KAFKA_BROKERS")
    then lit " k1:9092,,k2:9092 "
    else if same k (lit "JWT_DISABLED")
    then lit "true"
    else []

abbrev same_env : Env → Env
same_env e = e

abbrev no_file : Bytes → Option Bytes
no_file p = none

abbrev ignored : Bytes → Config → Config
ignored y c = c

dsn :
    postgres_dsn_built default
    ≡ lit "host=localhost port=5432 user= password= dbname= sslmode=disable"
unfolding postgres_dsn_built default itoa
dsn = refl

brokers : kafka_brokers env default ≡ lit "k1:9092" ∷ lit "k2:9092" ∷ []
unfolding kafka_brokers default same trim_space
brokers = refl

parts : split_comma (lit "a, b,") ≡ lit "a" ∷ lit "b" ∷ [] ∷ []
unfolding split_comma trim_space
parts = refl

load-IsPort_example :
    ((load same_env no_file ignored env).1 ≡ none)
    ↔ IsPort (load same_env no_file ignored env).0.port
load-IsPort_example = load-IsPort same_env no_file ignored env

load-addr_example :
    ((load same_env no_file ignored env).1 ≡ none)
    × (addr (load same_env no_file ignored env).0.port ≡ b':' ∷ lit "8080")
unfolding itoa same
load-addr_example = load-addr same_env no_file ignored env 8080 (omega arith) (omega arith) refl

from_env-twice_example : from_env env (from_env env default) ≡ from_env env default
from_env-twice_example = from_env-twice env default

from_env-unset_example : from_env (λ k. []) default ≡ default
from_env-unset_example = from_env-unset (λ k. []) default (λ k. refl)

abbrev two_brokers : Env
two_brokers k = if same k (lit "KAFKA_BROKERS") then lit "k1:9092,k2:9092" else []

load-kafka_brokers_example :
    kafka_brokers two_brokers (load same_env no_file ignored two_brokers).0
    ≡ lit "k1:9092" ∷ lit "k2:9092" ∷ []
unfolding join same
load-kafka_brokers_example =
    load-kafka_brokers same_env no_file ignored two_brokers (lit "k1:9092") (lit "k2:9092" ∷ [])
      (ground arith) refl
