-- ===== src/Presence/Redis.antt =====
-- `RedisPresenceStore` of app/chat/presence.go. Redis is a parameter; a command whose answer the code
-- drops yields the keys after it. Times are Unix milliseconds of the process and of Redis alike.
pub mod Answers
pub mod Heartbeat
pub mod Instance
pub mod Tests
use chat_service.Text.Decimal.{itoa}
use chat_service.Prelude.{
  true, ltb, zero, none, ok, ◌≡◌, ◌*◌, pos, false, ◌+◌, map, not, some, err, ◌<◌, suc, List,
  if◌then◌else◌, ℤ, Bool, Result, ◌++◌, ℕ, Option,
}
use chat_service.Presence.{PresenceInfo}
use chat_service.Text.{same, Bytes, lit}
use chat_service.Text.Atoi.{parse_int}

-- The five commands, each at a time where expiry matters; a key has a time to live or none.
pub record Keys : Type 1 where
  pub Db : Type 0
  pub set : Bytes → Bytes → Option ℕ → ℕ → Db → Db
  pub del : Bytes → Db → Db
  pub expire : Bytes → ℕ → ℕ → Db → Db
  pub exists : Bytes → ℕ → Db → Result Bytes ℕ
  pub get : Bytes → ℕ → Db → Result Bytes Bytes

abbrev pub presence_ttl : ℕ
presence_ttl = 60000

abbrev pub presence_refresh : ℕ
presence_refresh = 30000

abbrev pub presence_key : Bytes → Bytes
presence_key user = lit "chat:presence:" ++ user

abbrev pub last_seen_key : Bytes → Bytes
last_seen_key user = lit "chat:lastseen:" ++ user

-- err == nil && n > 0
abbrev pub is_there : Result Bytes ℕ → Bool
is_there (err e) = false
is_there (ok n) = ltb 0 n

-- The last-seen time that is read, 0 where there is none.
abbrev pub seen : Result Bytes Bytes → ℤ
seen (err e) = pos 0
seen (ok ms) = parse_int ms

module _ (k : Keys) where
  -- SetOnline
  unfoldable pub set_online : ℕ → Bytes → Bool → k.Db → k.Db
  set_online now user true d = k.set (presence_key user) (lit "1") (some presence_ttl) now d
  set_online now user false d =
      k.set (last_seen_key user) (itoa (pos now)) none now (k.del (presence_key user) d)

  unfoldable pub info : ℕ → k.Db → Bytes → PresenceInfo
  info now d user =
      let online = is_there (k.exists (presence_key user) now d) in
      record {
        user_id = user;
        is_online = online;
        last_seen_unix_ms = if not online then seen (k.get (last_seen_key user) now d) else pos 0;
      }

  -- Get
  unfoldable pub get : ℕ → k.Db → List Bytes → List PresenceInfo
  unfolding info
  get now d users = map (info now d) users

  -- StartHeartbeat: a tick of its timer
  unfoldable pub heartbeat : ℕ → Bytes → k.Db → k.Db
  heartbeat now user d = k.expire (presence_key user) presence_ttl now d

  -- What Redis promises, while it answers.
  pub record IsKeys : Type 0 where
    pub exists_set :
        (j v : Bytes) (ttl now t : ℕ) (d : k.Db)
        → t < now + ttl
        → k.exists j t (k.set j v (some ttl) now d) ≡ ok 1
    pub exists_set_other :
        (i j v : Bytes) (ttl : Option ℕ) (now t : ℕ) (d : k.Db)
        → same i j ≡ false
        → k.exists j t (k.set i v ttl now d) ≡ k.exists j t d
    pub exists_del : (j : Bytes) (t : ℕ) (d : k.Db) → k.exists j t (k.del j d) ≡ ok 0
    pub exists_del_other :
        (i j : Bytes) (t : ℕ) (d : k.Db)
        → same i j ≡ false
        → k.exists j t (k.del i d) ≡ k.exists j t d
    pub exists_expire :
        (j : Bytes) (ttl now t : ℕ) (d : k.Db)
        → k.exists j now d ≡ ok 1
        → t < now + ttl
        → k.exists j t (k.expire j ttl now d) ≡ ok 1
    pub exists_expire_other :
        (i j : Bytes) (ttl now t : ℕ) (d : k.Db)
        → same i j ≡ false
        → k.exists j t (k.expire i ttl now d) ≡ k.exists j t d
    pub get_set : (j v : Bytes) (now t : ℕ) (d : k.Db) → k.get j t (k.set j v none now d) ≡ ok v
    pub get_set_other :
        (i j v : Bytes) (ttl : Option ℕ) (now t : ℕ) (d : k.Db)
        → same i j ≡ false
        → k.get j t (k.set i v ttl now d) ≡ k.get j t d
    pub get_del_other :
        (i j : Bytes) (t : ℕ) (d : k.Db) → same i j ≡ false → k.get j t (k.del i d) ≡ k.get j t d
