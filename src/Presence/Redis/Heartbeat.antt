-- ===== src/Presence/Redis/Heartbeat.antt =====
-- `StartHeartbeat` of app/chat/presence.go: the key of a user is given new time before it expires.
use chat_service.Prelude.{ap, arith, true, false, ok, [], ◌∷◌, ◌+◌, ◌≤◌, ◌<◌, ◌≡◌, ◌∙◌, List, ℕ}
use chat_service.Presence.Redis.{
  presence_refresh, heartbeat, IsKeys, Keys, info, is_there, presence_key, presence_ttl, set_online,
}
use chat_service.Presence.Redis.Answers.{Timed, exists_other, presence_key-same}
use chat_service.Text.{same, Bytes, lit}

-- A call of SetOnline, or a tick of the timer of a stream of a user.
pub data Act : Type 0 where
  call : Timed → Act
  tick : ℕ → Bytes → Act

-- `Kept user acts since`: of the acts, the latest first, the last call for the user sets the user
-- online. After it there may be ticks for the user, the first at most 30 seconds after the call and
-- each other at most 30 seconds after the one before; `since` is the time of the last of them, or of
-- the call. For others there are any calls and ticks.
pub data Kept (user : Bytes) : List Act → ℕ → Type 0 where
  came :
      (at : ℕ) (acts : List Act)
      → Kept user (call (record { at = at; user = user; online = true }) ∷ acts) at
  beat :
      {acts : List Act} {since : ℕ} (at : ℕ)
      → Kept user acts since
      → at ≤ since + presence_refresh
      → Kept user (tick at user ∷ acts) at
  other_call :
      {acts : List Act} {since : ℕ} (e : Timed)
      → Kept user acts since
      → same e.user user ≡ false
      → Kept user (call e ∷ acts) since
  other_tick :
      {acts : List Act} {since : ℕ} (at : ℕ) (other : Bytes)
      → Kept user acts since
      → same other user ≡ false
      → Kept user (tick at other ∷ acts) since

module _ (k : Keys) (laws : IsKeys k) where
  -- The keys after the acts, the latest first.
  unfoldable pub acted : k.Db → List Act → k.Db
  acted d [] = d
  acted d (call e ∷ acts) = set_online k e.at e.user e.online (acted d acts)
  acted d (tick at user ∷ acts) = heartbeat k at user (acted d acts)

  alive :
      (user : Bytes) {acts : List Act} {since : ℕ} (t : ℕ) (d : k.Db)
      → Kept user acts since
      → t < since + presence_ttl
      → k.exists (presence_key user) t (acted d acts) ≡ ok 1
  unfolding acted set_online heartbeat
  alive user t d (came at acts) h =
      laws.exists_set (presence_key user) (lit "1") presence_ttl at t (acted d acts) h
  alive user t d (beat {acts = acts} {since = since} at kept soon) h =
      laws.exists_expire (presence_key user) presence_ttl at t (acted d acts)
        (alive user at d kept (omega (arith, soon))) h
  alive user t d (other_call {acts = acts} e kept n) h =
      exists_other k laws e.at t e.user user e.online (acted d acts) n ∙ alive user t d kept h
  alive user t d (other_tick {acts = acts} at other kept n) h =
      laws.exists_expire_other (presence_key other) (presence_key user) presence_ttl at t
        (acted d acts) (presence_key-same other user ∙ n)
      ∙ alive user t d kept h

  -- While Redis answers as it promises: a user who was set online, and not offline since by any stream,
  -- is online until 60 seconds after the last tick, or after that call if there was none, provided that
  -- each tick came at most 30 seconds after the call or the tick before it; whatever was called for
  -- others in between.
  pub heartbeats_keep :
      (user : Bytes) {acts : List Act} {since : ℕ} (t : ℕ) (d : k.Db)
      → Kept user acts since
      → t < since + presence_ttl
      → (info k t (acted d acts) user).is_online ≡ true
  unfolding info
  heartbeats_keep user t d kept h = ap is_there (alive user t d kept h)
