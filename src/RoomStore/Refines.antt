-- ===== src/RoomStore/Refines.antt =====
-- `RoomStore` of app/chat/room_store.go against what it promises: a map from ids to rooms, whichever
-- of its two backends it has.
use chat_service.RoomId.{dm_room_id}
use chat_service.Rooms.Stored.{ok_same}
use chat_service.Text.Assoc.{lookup-insert, insert}
use chat_service.Prelude.{
  if_cases, ◌||◌, subst, ℤ, none, inr, ◌∙◌, inl, Bool-cases, sym, err, ap, refl, ok, some, Result,
  ◌≡◌, if◌then◌else◌, Option,
}
use chat_service.RoomStore.{
  new_dm, create_dm, or_save, saved, some_room, IsRedis, Redis, RoomMeta, RoomStore, decode, get,
  get_from, key, save, save_marshalled, save_to,
}
use chat_service.Store.Engine.{Done, done}
use chat_service.Text.{is_empty, same_iff, same, Bytes}

-- The specification: the room under each id.
abbrev pub Spec : Type 0
Spec = Bytes → Option RoomMeta

unfoldable pub put : RoomMeta → Spec → Spec
put m spec id = if same m.room_id id then some m else spec id

-- CreateDM on the map: the room under the id, or else the one that is made.
abbrev pub or_put : RoomMeta → Option RoomMeta → Spec → RoomMeta × Spec
or_put made (some existing) spec = (existing, spec)
or_put made none spec = (made, put made spec)

module _ (r : Redis) where
  -- The store shows the rooms of the specification.
  abbrev pub Shows : RoomStore r → Spec → Type 0
  Shows s spec = (id : Bytes) → get r id s ≡ ok (spec id)

  module _ (laws : IsRedis r) where
    prefix_kept : (j k : Bytes) → same (key r j) (key r k) ≡ same j k
    unfolding same
    prefix_kept j k = refl

    decode_get :
        (m : RoomMeta) (bytes : r.Data)
        → r.marshal m ≡ ok bytes
        → decode r (ok (some bytes)) ≡ ok (some m)
    decode_get m bytes e = ap (some_room r) (laws.decoded m bytes e)

    get-save_to :
        (o : Option r.Db) (m : RoomMeta) (bytes : r.Data) (s s' : RoomStore r) (spec : Spec)
        → s.rdb ≡ o
        → r.marshal m ≡ ok bytes
        → save_to r o m bytes s ≡ (ok done, s')
        → Shows s spec
        → Shows s' (put m spec)
    unfolding get put
    get-save_to (some d) m bytes s s' spec same_db e h shows id =
        let e' : (r.set (key r m.room_id) bytes d).0 ≡ ok done = ap (λ x. x.0) h in
        let d' = (r.set (key r m.room_id) bytes d).1 in
        let kept : s'.rdb ≡ some d' = sym (ap (λ x. x.1.rdb) h) in
        let set : r.set (key r m.room_id) bytes d ≡ (ok done, d') = (λ i. (e' i, d')) in
        rw kept (elim (Bool-cases (same m.room_id id)) [
          | inl y ↦ rw y (
              ap (λ k. decode r (r.get (key r k) d')) (sym ((same_iff m.room_id id).0 y))
              ∙ ap (decode r) (laws.set_get (key r m.room_id) bytes d d' set)
              ∙ decode_get m bytes e)
          | inr n ↦ rw n (
              ap (decode r) (
                laws.set_other (key r m.room_id) (key r id) bytes d d' set
                  (prefix_kept m.room_id id ∙ n))
              ∙ ap (λ o. get_from r o id s.mem) (sym same_db)
              ∙ shows id)
        ])
    get-save_to none m bytes s s' spec same_db e h shows id =
        let none' : s'.rdb ≡ none = sym (ap (λ x. x.1.rdb) h) ∙ same_db in
        let mem' : s'.mem ≡ insert m.room_id m s.mem = sym (ap (λ x. x.1.mem) h) in
        rw (none', mem', lookup-insert m.room_id id m s.mem)
          (elim (Bool-cases (same m.room_id id)) [
            | inl y ↦ rw y refl
            | inr n ↦ rw n (ap (λ o. get_from r o id s.mem) (sym same_db) ∙ shows id)
          ])

    save_from :
        (bytes : Result Bytes r.Data) (m : RoomMeta) (s s' : RoomStore r) (spec : Spec)
        → r.marshal m ≡ bytes
        → save_marshalled r bytes m s ≡ (ok done, s')
        → Shows s spec
        → Shows s' (put m spec)
    save_from (err e) m s s' spec q h shows = absurd (cc (ap (λ x. x.0) h))
    save_from (ok bytes) m s s' spec q h shows = get-save_to s.rdb m bytes s s' spec refl q h shows

    -- A store that shows the rooms of a map shows, after a room has been saved without an error, those
    -- of the map with the room put under its id: in Redis as in memory.
    pub save-Shows :
        (m : RoomMeta) (s s' : RoomStore r) (spec : Spec)
        → save r m s ≡ (ok done, s')
        → Shows s spec
        → Shows s' (put m spec)
    unfolding save
    save-Shows m s s' spec h shows = save_from (r.marshal m) m s s' spec refl h shows

    saved_ok :
        (made m : RoomMeta) (x : Result Bytes Done × RoomStore r) (s' : RoomStore r)
        → saved r made x ≡ (ok m, s')
        → (x ≡ (ok done, s')) × (m ≡ made)
    saved_ok made m (err e, s) s' h = absurd (cc (ap (λ x. x.0) h))
    saved_ok made m (ok done, s) s' h = ((λ i. (ok done, (h i).1)), sym (ok_same (ap (λ x. x.0) h)))

    saved-Shows :
        (made m : RoomMeta) (s s' : RoomStore r) (spec : Spec)
        → saved r made (save r made s) ≡ (ok m, s')
        → Shows s spec
        → (m ≡ made) × Shows s' (put made spec)
    saved-Shows made m s s' spec h shows =
        let (e, q) = saved_ok made m (save r made s) s' h in (q, save-Shows made s s' spec e shows)

    or_save-Shows :
        (o : Option RoomMeta) (made m : RoomMeta) (s s' : RoomStore r) (spec : Spec)
        → or_save r (ok o) made s ≡ (ok m, s')
        → Shows s spec
        → (m ≡ (or_put made o spec).0) × Shows s' (or_put made o spec).1
    or_save-Shows (some existing) made m s s' spec h shows =
        (sym (ok_same (ap (λ x. x.0) h)), subst (λ x. Shows x spec) (ap (λ x. x.1) h) shows)
    or_save-Shows none made m s s' spec h shows = saved-Shows made m s s' spec h shows

    -- CreateDM refines the map: on a store that shows the rooms of a map, a call that succeeds answers
    -- with the room of the map under the id of the pair, or, if there is none, with a new one, and the
    -- store then shows the map with that room put under the id.
    pub create_dm-Shows :
        (a b by : Bytes) (now : ℤ) (m : RoomMeta) (s s' : RoomStore r) (spec : Spec)
        → Shows s spec
        → create_dm r a b by now s ≡ (ok m, s')
        → (m ≡ (or_put (new_dm r a b by now) (spec (dm_room_id a b)) spec).0)
          × Shows s' (or_put (new_dm r a b by now) (spec (dm_room_id a b)) spec).1
    unfolding create_dm
    create_dm-Shows a b by now m s s' spec shows h =
        elim (if_cases (is_empty a || is_empty b) _ _ (ok m, s') h) [
          | inl (y, e) ↦ absurd (cc (ap (λ x. x.0) e))
          | inr (n, e) ↦
              or_save-Shows (spec (dm_room_id a b)) (new_dm r a b by now) m s s' spec
                (ap (λ g. or_save r g (new_dm r a b by now) s) (sym (shows (dm_room_id a b))) ∙ e)
                shows
        ]
