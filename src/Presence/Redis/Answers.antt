-- ===== src/Presence/Redis/Answers.antt =====
-- What `RedisPresenceStore` of app/chat/presence.go answers after any calls, beside what the store of
-- one process answers.
use chat_service.Text.Decimal.{itoa}
use chat_service.Prelude.{
  sym, ap, subst, inr, not, ◌-◌, inl, ◌+◌, [], ◌∙◌, ok, ◌^◌, refl, Bool-cases, ◌<◌, if◌then◌else◌,
  ◌∷◌, All, false, true, ◌≤◌, ◌≡◌, map, some, none, Bool, Option, List, pos, ℕ,
}
use chat_service.Presence.{PresenceInfo}
use chat_service.Presence.Replay.{Event, last_offline, online_now}
use chat_service.Presence.Redis.{
  IsKeys, Keys, get, info, is_there, last_seen_key, presence_key, presence_ttl, seen, set_online,
}
use chat_service.Text.Atoi.{atoi-itoa, parse_int-atoi}
use chat_service.Text.{same_iff, same, Bytes, lit}

-- A call SetOnline(user, online) at a time.
pub record Timed : Type 0 where
  pub at : ℕ
  pub user : Bytes
  pub online : Bool

abbrev pub event : Timed → Event
event e = record { at = pos e.at; user = e.user; online = e.online }

-- When the last call for the user was, if it set the user online.
unfoldable pub online_since : Bytes → List Timed → Option ℕ
online_since user [] = none
online_since user (e ∷ es) =
    let rest = online_since user es in
    if same e.user user then (if e.online then some e.at else none) else rest

-- The key of that call has not expired.
abbrev pub Within : ℕ → Option ℕ → Type 0
Within t none = Unit
Within t (some at) = t < at + presence_ttl

abbrev held : Option ℕ → ℕ
held none = 0
held (some at) = 1

abbrev is_some : Option ℕ → Bool
is_some none = false
is_some (some at) = true

held_there : (o : Option ℕ) → is_there (ok (held o)) ≡ is_some o
held_there none = refl
held_there (some at) = refl

online_now-online_since :
    (user : Bytes) (es : List Timed)
    → online_now user (map event es) ≡ is_some (online_since user es)
unfolding online_now online_since
online_now-online_since user [] = refl
online_now-online_since user (e ∷ es) = elim (Bool-cases (same e.user user)) [
  | inl y ↦ rw y (elim (Bool-cases e.online) [ inl o ↦ rw o refl | inr o ↦ rw o refl ])
  | inr n ↦ rw n (online_now-online_since user es)
]

pub presence_key-same : (u v : Bytes) → same (presence_key u) (presence_key v) ≡ same u v
unfolding same
presence_key-same u v = refl

last_seen_key-same : (u v : Bytes) → same (last_seen_key u) (last_seen_key v) ≡ same u v
unfolding same
last_seen_key-same u v = refl

keys_differ : (u v : Bytes) → same (last_seen_key u) (presence_key v) ≡ false
unfolding same
keys_differ u v = refl

keys_differ_too : (u v : Bytes) → same (presence_key u) (last_seen_key v) ≡ false
unfolding same
keys_differ_too u v = refl

seen-itoa : (n : ℕ) → n ≤ 2 ^ 63 - 1 → seen (ok (itoa (pos n))) ≡ pos n
seen-itoa n h = parse_int-atoi (itoa (pos n)) (pos n) (atoi-itoa (pos n) h)

module _ (k : Keys) (laws : IsKeys k) where
  -- The keys after the calls, the latest first.
  unfoldable pub after : k.Db → List Timed → k.Db
  after d [] = d
  after d (e ∷ es) = set_online k e.at e.user e.online (after d es)

  -- Keys among which there is none of the store.
  pub record IsFresh (d : k.Db) : Type 0 where
    pub nobody : (user : Bytes) (t : ℕ) → k.exists (presence_key user) t d ≡ ok 0
    pub never : (user : Bytes) (t : ℕ) → seen (k.get (last_seen_key user) t d) ≡ pos 0

  exists_own :
      (now t : ℕ) (user : Bytes) (online : Bool) (d : k.Db)
      → Within t (if online then some now else none)
      → k.exists (presence_key user) t (set_online k now user online d)
        ≡ ok (held (if online then some now else none))
  unfolding set_online
  exists_own now t user true d h =
      laws.exists_set (presence_key user) (lit "1") presence_ttl now t d h
  exists_own now t user false d h =
      laws.exists_set_other (last_seen_key user) (presence_key user) _ none now t _
        (keys_differ user user)
      ∙ laws.exists_del (presence_key user) t d

  pub exists_other :
      (now t : ℕ) (u user : Bytes) (online : Bool) (d : k.Db)
      → same u user ≡ false
      → k.exists (presence_key user) t (set_online k now u online d)
        ≡ k.exists (presence_key user) t d
  unfolding set_online
  exists_other now t u user true d n =
      laws.exists_set_other (presence_key u) (presence_key user) _ _ now t d
        (presence_key-same u user ∙ n)
  exists_other now t u user false d n =
      laws.exists_set_other (last_seen_key u) (presence_key user) _ none now t _
        (keys_differ u user)
      ∙ laws.exists_del_other (presence_key u) (presence_key user) t d
          (presence_key-same u user ∙ n)

  exists-after :
      (es : List Timed) (t : ℕ) (user : Bytes) (d : k.Db)
      → IsFresh d
      → Within t (online_since user es)
      → k.exists (presence_key user) t (after d es) ≡ ok (held (online_since user es))
  unfolding after online_since
  exists-after [] t user d fresh h = fresh.nobody user t
  exists-after (e ∷ es) t user d fresh h = elim (Bool-cases (same e.user user)) [
    | inl y ↦
        let own : Within t (if e.online then some e.at else none) =
          subst (Within t)
            (ap (λ b. if b then (if e.online then some e.at else none) else online_since user es) y)
            h in
        subst
          (λ u.
            k.exists (presence_key u) t (set_online k e.at e.user e.online (after d es))
            ≡ ok (
                held (
                  if same e.user user
                  then (if e.online then some e.at else none)
                  else online_since user es)))
          ((same_iff e.user user).0 y) (rw y (exists_own e.at t e.user e.online (after d es) own))
    | inr n ↦
        let rest : Within t (online_since user es) =
          subst (Within t)
            (ap (λ b. if b then (if e.online then some e.at else none) else online_since user es) n)
            h in
        rw n (
          exists_other e.at t e.user user e.online (after d es) n
          ∙ exists-after es t user d fresh rest)
  ]

  get_online :
      (now t : ℕ) (u user : Bytes) (d : k.Db)
      → k.get (last_seen_key user) t (set_online k now u true d) ≡ k.get (last_seen_key user) t d
  unfolding set_online
  get_online now t u user d =
      laws.get_set_other (presence_key u) (last_seen_key user) _ _ now t d (keys_differ_too u user)

  get_offline :
      (now t : ℕ) (user : Bytes) (d : k.Db)
      → k.get (last_seen_key user) t (set_online k now user false d) ≡ ok (itoa (pos now))
  unfolding set_online
  get_offline now t user d = laws.get_set (last_seen_key user) (itoa (pos now)) now t _

  get_other :
      (now t : ℕ) (u user : Bytes) (online : Bool) (d : k.Db)
      → same u user ≡ false
      → k.get (last_seen_key user) t (set_online k now u online d) ≡ k.get (last_seen_key user) t d
  unfolding set_online
  get_other now t u user true d n = get_online now t u user d
  get_other now t u user false d n =
      laws.get_set_other (last_seen_key u) (last_seen_key user) _ none now t _
        (last_seen_key-same u user ∙ n)
      ∙ laws.get_del_other (presence_key u) (last_seen_key user) t d (keys_differ_too u user)

  seen-after :
      (es : List Timed) (t : ℕ) (user : Bytes) (d : k.Db)
      → IsFresh d
      → All (λ e. e.at ≤ 2 ^ 63 - 1) es
      → seen (k.get (last_seen_key user) t (after d es)) ≡ last_offline user (map event es)
  unfolding after last_offline
  seen-after [] t user d fresh small = fresh.never user t
  seen-after (e ∷ es) t user d fresh small = elim (Bool-cases (same e.user user)) [
    | inr n ↦ rw n (
        ap seen (get_other e.at t e.user user e.online (after d es) n)
        ∙ seen-after es t user d fresh small.1)
    | inl y ↦ elim (Bool-cases e.online) [
      | inl o ↦
          rw (y, o)
            (ap seen (get_online e.at t e.user user (after d es))
              ∙ seen-after es t user d fresh small.1)
      | inr o ↦
          rw (y, o)
            (ap
                (λ u.
                  seen (k.get (last_seen_key u) t (set_online k e.at e.user false (after d es))))
                (sym ((same_iff e.user user).0 y))
              ∙ ap seen (get_offline e.at t e.user (after d es))
              ∙ seen-itoa e.at small.0)
    ]
  ]

  -- What is answered of a user: as the store of one process does, but no last-seen time of a user who
  -- is online.
  abbrev pub answered : List Timed → Bytes → PresenceInfo
  answered es user =
      let online = online_now user (map event es) in
      record {
        user_id = user;
        is_online = online;
        last_seen_unix_ms = if not online then last_offline user (map event es) else pos 0;
      }

  info-after :
      (es : List Timed) (t : ℕ) (user : Bytes) (d : k.Db)
      → IsFresh d
      → All (λ e. e.at ≤ 2 ^ 63 - 1) es
      → Within t (online_since user es)
      → info k t (after d es) user ≡ answered es user
  unfolding info
  info-after es t user d fresh small h =
      rw
        (
          exists-after es t user d fresh h,
          seen-after es t user d fresh small,
          online_now-online_since user es,
        )
        (ap
          (λ b. record {
            user_id = user;
            is_online = b;
            last_seen_unix_ms = if not b then last_offline user (map event es) else pos 0;
          })
          (held_there (online_since user es)))

  -- After any calls of SetOnline on keys that hold nothing of the store, Get answers for each user as
  -- the store of one process does after the same calls, except that a user who is online has no
  -- last-seen time: provided that Redis answers, that no key of a user who was last set online has
  -- expired, and that the times are int64 values.
  pub redis_get-after :
      (es : List Timed) (t : ℕ) (users : List Bytes) (d : k.Db)
      → IsFresh d
      → All (λ e. e.at ≤ 2 ^ 63 - 1) es
      → All (λ user. Within t (online_since user es)) users
      → get k t (after d es) users ≡ map (answered es) users
  unfolding get
  redis_get-after es t [] d fresh small h = refl
  redis_get-after es t (user ∷ users) d fresh small h =
      rw (info-after es t user d fresh small h.0, redis_get-after es t users d fresh small h.1) refl
