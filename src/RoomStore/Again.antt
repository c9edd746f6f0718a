-- ===== src/RoomStore/Again.antt =====
-- `CreateDM` of app/chat/room_store.go, asked twice for a pair.
use chat_service.RoomId.Canonical.{dm_room_id_comm}
use chat_service.Prelude.{
  inr, inl, ◌||◌, if_cases, sym, ap, refl, none, ◌∙◌, ok, some, ℤ, Option, ◌≡◌,
}
use chat_service.RoomStore.{IsRedis, Redis, RoomMeta, RoomStore, create_dm, get, new_dm, or_save}
use chat_service.RoomStore.Refines.{Shows, Spec, create_dm-Shows, or_put, put}
use chat_service.RoomId.{dm_room_id}
use chat_service.Rooms.Stored.{ok_same}
use chat_service.Text.{is_empty, same_refl, Bytes}

put_own : (made : RoomMeta) (spec : Spec) → put made spec made.room_id ≡ some made
unfolding put
put_own made spec = rw (same_refl made.room_id) refl

-- After CreateDM the map has its room under the id.
or_put_has :
    (made : RoomMeta) (o : Option RoomMeta) (spec : Spec)
    → spec made.room_id ≡ o
    → (or_put made o spec).1 made.room_id ≡ some (or_put made o spec).0
or_put_has made (some existing) spec e = e
or_put_has made none spec e = put_own made spec

module _ (r : Redis) (laws : IsRedis r) where
  -- CreateDM asked a second time for a pair, in either order and by whomever, answers with the same
  -- room and changes nothing, and Get finds that room under the id of the pair; on a store whose Get
  -- does not fail, whichever its backend, and where both calls succeed.
  pub create_dm-again :
      (a b by by' : Bytes) (now now' : ℤ) (m m' : RoomMeta) (s s' s'' : RoomStore r) (spec : Spec)
      → Shows r s spec
      → create_dm r a b by now s ≡ (ok m, s')
      → create_dm r b a by' now' s' ≡ (ok m', s'')
      → (m' ≡ m) × (s'' ≡ s') × (get r (dm_room_id a b) s'' ≡ ok (some m))
  unfolding create_dm new_dm
  create_dm-again a b by by' now now' m m' s s' s'' spec shows h k =
      let made = new_dm r a b by now in
      let (e, shows') = create_dm-Shows r laws a b by now m s s' spec shows h in
      let has : get r (dm_room_id a b) s' ≡ ok (some m) =
        shows' (dm_room_id a b)
        ∙ ap ok (or_put_has made (spec made.room_id) spec refl ∙ ap some (sym e)) in
      elim (if_cases (is_empty b || is_empty a) _ _ (ok m', s'') k) [
        | inl (y, q) ↦ absurd (cc (ap (λ x. x.0) q))
        | inr (n, q) ↦
            let found : get r (dm_room_id b a) s' ≡ ok (some m) =
              ap (λ id. get r id s') (dm_room_id_comm b a) ∙ has in
            let done_again : (ok m, s') ≡ (ok m', s'') =
              sym (ap (λ g. or_save r g (new_dm r b a by' now') s') found) ∙ q in
            let kept : s'' ≡ s' = sym (ap (λ x. x.1) done_again) in
            (sym (ok_same (ap (λ x. x.0) done_again)), kept, ap (get r (dm_room_id a b)) kept ∙ has)
      ]
