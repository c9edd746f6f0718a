-- ===== src/Presence/Replay.antt =====
-- What `Get` tells after any calls of `SetOnline`.
use chat_service.Text.Assoc.{lookup-insert, lookup}
use chat_service.Presence.{set_online, PresenceInfo, LocalPresenceStore, get, info_or_new}
use chat_service.Prelude.{
  ap, true, subst, refl, inr, not, inl, ◌&&◌, [], Bool-cases, if◌then◌else◌, ◌∷◌, map, false, ◌≡◌,
  pos, Bool, List, ℤ,
}
use chat_service.Text.{same_refl, same_iff, same, Bytes}

-- A call SetOnline(user, online) at a time.
pub record Event : Type 0 where
  pub at : ℤ
  pub user : Bytes
  pub online : Bool

-- The store after the calls, the latest first.
unfoldable pub after : List Event → LocalPresenceStore
after [] = []
after (e ∷ es) = set_online e.at e.user e.online (after es)

-- The last call for the user says whether the user is online.
unfoldable pub online_now : Bytes → List Event → Bool
online_now user [] = false
online_now user (e ∷ es) =
    let rest = online_now user es in if same e.user user then e.online else rest

-- When the user was last set offline, or 0.
unfoldable pub last_offline : Bytes → List Event → ℤ
last_offline user [] = pos 0
last_offline user (e ∷ es) =
    let rest = last_offline user es in if same e.user user && not e.online then e.at else rest

-- What the calls say of a user.
abbrev pub told : List Event → Bytes → PresenceInfo
told es user = record {
  user_id = user;
  is_online = online_now user es;
  last_seen_unix_ms = last_offline user es;
}

if_not : {A : Type 0} (b : Bool) (x y : A) → (if b then x else y) ≡ (if not b then y else x)
if_not true x y = refl
if_not false x y = refl

info_after :
    (es : List Event) (user : Bytes) → info_or_new user (lookup user (after es)) ≡ told es user
unfolding info_or_new after online_now last_offline set_online lookup
info_after [] user = refl
info_after (e ∷ es) user = elim (Bool-cases (same e.user user)) [
  | inl s ↦
      subst (λ u. info_or_new u (lookup u (after (e ∷ es))) ≡ told (e ∷ es) u)
        ((same_iff e.user user).0 s)
        (rw (lookup-insert, same_refl e.user, info_after es e.user)
          (ap (λ at. record { user_id = e.user; is_online = e.online; last_seen_unix_ms = at })
            (if_not e.online (last_offline e.user es) e.at)))
  | inr s ↦ rw (lookup-insert, s) (info_after es user)
]

-- After any calls of SetOnline, Get answers for each of the users asked for, in their order: online
-- if the last call for the user said so, and last seen when the user was last set offline.
pub get-after : (es : List Event) (users : List Bytes) → get (after es) users ≡ map (told es) users
unfolding get
get-after es [] = refl
get-after es (user ∷ users) = rw (info_after es user, get-after es users) refl
