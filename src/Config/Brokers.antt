-- ===== src/Config/Brokers.antt =====
-- `KafkaBrokers` of app/config/config.go.
use chat_service.Text.Trim.{trim_space_visible, trim_space}
use chat_service.Text.Split.{split_at, split-Lacks, split, join}
use chat_service.Prelude.{
  ap, ◌∙◌, refl, All-map, false, [], map, ◌≡◌, ◌∷◌, All, ℕ, if◌then◌else◌, List, Option,
}
use chat_service.Config.{Config, Env}
use chat_service.Config.Load.{from_env, load, override}
use chat_service.Config.Comma.{split_comma, split_comma-split}
use chat_service.Text.{is_empty, Lacks, IsVisible, Bytes, lit}

-- The loop that keeps the parts that are not empty.
unfoldable pub non_empty : List Bytes → List Bytes
non_empty [] = []
non_empty (b ∷ bs) = let rest = non_empty bs in if is_empty b then rest else b ∷ rest

-- KafkaBrokers; the receiver is a copy, so that the fallback does not change the settings.
unfoldable pub kafka_brokers : Env → Config → List Bytes
unfolding non_empty split_comma
kafka_brokers env c =
    let v = env (lit "KAFKA_BROKERS") in
    let raw =
      if is_empty c.kafka_brokers_raw
      then (if is_empty v then c.kafka_brokers_raw else v)
      else c.kafka_brokers_raw in
    non_empty (split_comma raw)

-- The address of a broker: visible characters, at least one, and no comma.
abbrev pub IsAddress : Bytes → Type 0
IsAddress b = IsVisible b × Lacks b',' b × (is_empty b ≡ false)

-- Splitting what was joined gives the parts back, when no part has the separator.
split-join :
    (sep : ℕ) (p : Bytes) (ps : List Bytes)
    → Lacks sep p
    → All (Lacks sep) ps
    → split sep (join (sep ∷ []) (p ∷ ps)) ≡ p ∷ ps
unfolding join
split-join sep p [] h k = split-Lacks sep p h
split-join sep p (q ∷ ps) h k =
    split_at sep p (join (sep ∷ []) (q ∷ ps)) h ∙ ap (◌∷◌ p) (split-join sep q ps k.0 k.1)

map-trim_space : (bs : List Bytes) → All IsAddress bs → non_empty (map trim_space bs) ≡ bs
unfolding non_empty
map-trim_space [] h = refl
map-trim_space (b ∷ bs) h = rw (trim_space_visible b h.0.0, h.0.2, map-trim_space bs h.1) refl

is_empty-join :
    (p : Bytes) (ps : List Bytes) → is_empty p ≡ false → is_empty (join (lit ",") (p ∷ ps)) ≡ false
unfolding join
is_empty-join [] ps h = cc
is_empty-join (c ∷ p) [] h = refl
is_empty-join (c ∷ p) (q ∷ ps) h = refl

-- Settings whose raw list is addresses with commas between them, whatever the environment has.
kafka_brokers-join :
    (env : Env) (c : Config) (b : Bytes) (bs : List Bytes)
    → All IsAddress (b ∷ bs)
    → c.kafka_brokers_raw ≡ join (lit ",") (b ∷ bs)
    → kafka_brokers env c ≡ b ∷ bs
unfolding kafka_brokers
kafka_brokers-join env c b bs h e =
    rw
      (
        e,
        is_empty-join b bs h.0.2,
        split_comma-split (join (lit ",") (b ∷ bs)),
        split-join b',' b bs h.0.1 (All-map _ _ (λ a k. k.1) bs h.1),
      )
      (map-trim_space (b ∷ bs) h)

-- Broker addresses with commas between them in KAFKA_BROKERS are what KafkaBrokers gives of the
-- settings that Load has made, whatever the settings file says: when there is at least one, and each is
-- made of visible characters other than the comma.
pub load-kafka_brokers :
    (dotenv : Env → Env) (read_file : Bytes → Option Bytes) (unmarshal : Bytes → Config → Config)
    (env : Env) (b : Bytes) (bs : List Bytes)
    → All IsAddress (b ∷ bs)
    → dotenv env (lit "KAFKA_BROKERS") ≡ join (lit ",") (b ∷ bs)
    → kafka_brokers (dotenv env) (load dotenv read_file unmarshal env).0 ≡ b ∷ bs
unfolding load from_env override
load-kafka_brokers dotenv read_file unmarshal env b bs h e =
    kafka_brokers-join (dotenv env) (load dotenv read_file unmarshal env).0 b bs h
      (rw (e, is_empty-join b bs h.0.2) refl)
