-- ===== src/Presence/Redis/Instance.antt =====
-- A Redis whose keys are a function, for the runs of `RedisPresenceStore` of app/chat/presence.go.
use chat_service.Rooms.Stored.{ok_same}
use chat_service.Prelude.{
  inr, inl, ◌∙◌, refl, Bool-cases, sym, ap, ◌<◌, arith, ok, false, none, err, ltb, ◌+◌, lt→ltb, ◌≡◌,
  Result, true, some, Bool, if◌then◌else◌, ℕ, Option,
}
use chat_service.Presence.Redis.{IsKeys, Keys}
use chat_service.Text.{same, same_refl, Bytes, lit}

-- A value and when it expires.
abbrev pub Entry : Type 0
Entry = Option (Bytes × Option ℕ)

abbrev deadline : Option ℕ → ℕ → Option ℕ
deadline none now = none
deadline (some ttl) now = some (now + ttl)

abbrev before_end : Option ℕ → ℕ → Bool
before_end none t = true
before_end (some end) t = ltb t end

abbrev count : Entry → ℕ → ℕ
count none t = 0
count (some (v, end)) t = if before_end end t then 1 else 0

abbrev value : Entry → ℕ → Result Bytes Bytes
value none t = err (lit "nil")
value (some (v, end)) t = if before_end end t then ok v else err (lit "nil")

-- EXPIRE gives a key that is alive a new end.
abbrev prolonged : Entry → ℕ → ℕ → Entry
prolonged none ttl now = none
prolonged (some (v, end)) ttl now =
    if before_end end now then some (v, some (now + ttl)) else some (v, end)

abbrev pub timed_keys : Keys
timed_keys = record {
  Db = Bytes → Entry;
  set = λ j v ttl now d i. if same j i then some (v, deadline ttl now) else d i;
  del = λ j d i. if same j i then none else d i;
  expire = λ j ttl now d i. if same j i then prolonged (d i) ttl now else d i;
  exists = λ j t d. ok (count (d j) t);
  get = λ j t d. value (d j) t;
}

not_one : (b : Bool) → b ≡ false → Path (Result Bytes ℕ) (ok (if b then 1 else 0)) (ok 1) → ⊥
not_one b e h = absurd (omega (arith, sym (ap (λ c. if c then 1 else 0) e) ∙ ok_same h))

prolonged_lives :
    (e : Entry) (ttl now t : ℕ)
    → Path (Result Bytes ℕ) (ok (count e now)) (ok 1)
    → t < now + ttl
    → count (prolonged e ttl now) t ≡ 1
prolonged_lives none ttl now t h l = absurd (cc h)
prolonged_lives (some (v, end)) ttl now t h l = elim (Bool-cases (before_end end now)) [
  | inl y ↦ rw y (rw (lt→ltb t (now + ttl) l) refl)
  | inr n ↦ absurd (not_one (before_end end now) n h)
]

pub timed_keys-IsKeys : IsKeys timed_keys
timed_keys-IsKeys = record {
  exists_set = λ j v ttl now t d h. rw (same_refl j, lt→ltb t (now + ttl) h) refl;
  exists_set_other = λ i j v ttl now t d n. rw n refl;
  exists_del = λ j t d. rw (same_refl j) refl;
  exists_del_other = λ i j t d n. rw n refl;
  exists_expire =
      λ j ttl now t d h l. rw (same_refl j) (ap ok (prolonged_lives (d j) ttl now t h l));
  exists_expire_other = λ i j ttl now t d n. rw n refl;
  get_set = λ j v now t d. rw (same_refl j) refl;
  get_set_other = λ i j v ttl now t d n. rw n refl;
  get_del_other = λ i j t d n. rw n refl;
}
