-- ===== src/Server/Creation/Agreement.antt =====
-- `CreateRoom` of app/server/grpc_server.go names a pair by one id, whichever stores it has.
use chat_service.RoomId.Canonical.{dm_room_id_comm}
use chat_service.Prelude.{
  ◌∙◌, sym, refl, Bool-cases, ap, none, inr, if_cases, inl, err, true, [], false, ok, some, ◌⊎◌,
  ◌∷◌, Option, Result, ◌≡◌,
}
use chat_service.Server.Creation.{
  Conversations, CreateRoomResponse, PgRooms, Stores, after_pg, create_dm_room, create_room,
  dm_from_map, dm_in_mongo, dm_in_pg, of_map, or_id, create_by_type,
}
use chat_service.Proto.{dm}
use chat_service.RoomId.{dm_room_id}
use chat_service.Rooms.{RoomMeta}
use chat_service.RoomStore
use chat_service.Rooms.Stored.{ok_same}
use chat_service.Store.Groups.{ConversationDetail}
use chat_service.Text.{is_empty, Bytes}

-- The id of the pair, or none at all.
abbrev pub IsPairId : Bytes → Bytes → Bytes → Type 0
IsPairId a b id = (id ≡ dm_room_id a b) ⊎ (is_empty id ≡ true)

module _ {S : Type 0} (st : Stores S) (Inv : S → Type 0) where
  -- What CreateRoom relies on: in the states in question, each store that it has answers for a pair
  -- with the id of the pair (MongoDB perhaps with none), and leaves such a state.
  pub record NamesPairs : Type 0 where
    pub pg_id :
        (p : PgRooms S) (a b by : Bytes) (s s' : S) (m : RoomMeta)
        → st.pg_rooms ≡ some p
        → Inv s
        → p.get_or_create_dm a b by s ≡ (ok m, s')
        → (m.room_id ≡ dm_room_id a b) × Inv s'
    pub mongo_id :
        (r : Conversations S) (a b by : Bytes) (s s' : S) (c : ConversationDetail)
        → st.msg_repo ≡ some r
        → Inv s
        → r.create_or_get_direct_conversation a b by s ≡ (ok c, s')
        → IsPairId a b c.conversation_id
    pub mongo_keeps :
        (r : Conversations S) (a b by : Bytes) (s : S)
        → st.msg_repo ≡ some r
        → Inv s
        → Inv (r.create_or_get_direct_conversation a b by s).1
    pub map_id :
        (a b by : Bytes) (s s' : S) (m : RoomStore.RoomMeta)
        → Inv s
        → st.rooms.create_dm a b by s ≡ (ok m, s')
        → m.room_id ≡ dm_room_id a b

  module _ (names : NamesPairs) (a b by : Bytes) where
    of_map_id :
        (x : Result Bytes RoomStore.RoomMeta × S) (resp : CreateRoomResponse) (s' : S)
        → ((m : RoomStore.RoomMeta) → x ≡ (ok m, s') → m.room_id ≡ dm_room_id a b)
        → of_map x ≡ (ok resp, s')
        → resp.room_id ≡ dm_room_id a b
    of_map_id (err e, s) resp s' given h = absurd (cc (ap (λ x. x.0) h))
    of_map_id (ok m, s) resp s' given h =
        ap (λ x. x.room_id) (sym (ok_same (ap (λ x. x.0) h))) ∙ given m (λ i. (ok m, (h i).1))

    not_none : (id : Bytes) → IsPairId a b id → is_empty id ≡ false → id ≡ dm_room_id a b
    not_none id (inl e) h = e
    not_none id (inr e) h = cc

    from_map_id :
        (id name : Bytes) (s s' : S) (resp : CreateRoomResponse)
        → IsPairId a b id
        → Inv s
        → dm_from_map st a b by id name s ≡ (ok resp, s')
        → resp.room_id ≡ dm_room_id a b
    unfolding dm_from_map
    from_map_id id name s s' resp pair inv h = elim (if_cases (is_empty id) _ _ (ok resp, s') h) [
      | inl (y, e) ↦
          of_map_id (st.rooms.create_dm a b by s) resp s' (λ m q. names.map_id a b by s s' m inv q)
            e
      | inr (n, e) ↦ ap (λ x. x.room_id) (sym (ok_same (ap (λ x. x.0) e))) ∙ not_none id pair n
    ]

    or_id-IsPairId :
        (id : Bytes) (conv : Result Bytes ConversationDetail)
        → IsPairId a b id
        → ((c : ConversationDetail) → conv ≡ ok c → IsPairId a b c.conversation_id)
        → IsPairId a b (or_id id conv)
    or_id-IsPairId id (err e) pair given = pair
    or_id-IsPairId id (ok c) pair given = elim (Bool-cases (is_empty id)) [
      | inl y ↦ rw y (given c refl)
      | inr n ↦ rw n pair
    ]

    in_mongo_id :
        (o : Option (Conversations S)) (id name : Bytes) (s s' : S) (resp : CreateRoomResponse)
        → st.msg_repo ≡ o
        → IsPairId a b id
        → Inv s
        → dm_in_mongo o st a b by id name s ≡ (ok resp, s')
        → resp.room_id ≡ dm_room_id a b
    in_mongo_id none id name s s' resp has pair inv h = from_map_id id name s s' resp pair inv h
    in_mongo_id (some r) id name s s' resp has pair inv h =
        let x = r.create_or_get_direct_conversation a b by s in
        from_map_id (or_id id x.0) name x.1 s' resp
          (or_id-IsPairId id x.0 pair
            (λ c e. names.mongo_id r a b by s x.1 c has inv (λ i. (e i, x.1))))
          (names.mongo_keeps r a b by s has inv) h

    after_pg_id :
        (x : Result Bytes RoomMeta × S) (s' : S) (resp : CreateRoomResponse)
        → ((m : RoomMeta) → x ≡ (ok m, x.1) → (m.room_id ≡ dm_room_id a b) × Inv x.1)
        → after_pg st a b by x ≡ (ok resp, s')
        → resp.room_id ≡ dm_room_id a b
    after_pg_id (err e, s) s' resp given h = absurd (cc (ap (λ x. x.0) h))
    after_pg_id (ok m, s) s' resp given h =
        let (id, inv) = given m refl in
        in_mongo_id st.msg_repo m.room_id m.name s s' resp refl (inl id) inv h

    in_pg_id :
        (o : Option (PgRooms S)) (s s' : S) (resp : CreateRoomResponse)
        → st.pg_rooms ≡ o
        → Inv s
        → dm_in_pg o st a b by s ≡ (ok resp, s')
        → resp.room_id ≡ dm_room_id a b
    in_pg_id none s s' resp has inv h =
        in_mongo_id st.msg_repo [] [] s s' resp refl (inr refl) inv h
    in_pg_id (some p) s s' resp has inv h =
        let x = p.get_or_create_dm a b by s in
        after_pg_id x s' resp (λ m e. names.pg_id p a b by s x.1 m has inv e) h

  -- Whichever of PostgreSQL and MongoDB a server has, and whichever of them fails: a direct room that
  -- CreateRoom answers with has the canonical id of its two members, provided that each store that the
  -- server has names pairs so. The request for the two members in the other order names the same id.
  pub create_room-dm :
      NamesPairs
      → (a b name by : Bytes) (s s' : S) (resp : CreateRoomResponse) → Inv s
      → create_room st
          (record { type = dm; name = name; created_by = by; member_ids = a ∷ b ∷ [] })
          s
        ≡ (ok resp, s')
      → (resp.room_id ≡ dm_room_id a b) × (resp.room_id ≡ dm_room_id b a)
  unfolding create_room create_by_type create_dm_room
  create_room-dm names a b name by s s' resp inv h =
      elim (if_cases (is_empty by) _ _ (ok resp, s') h) [
        | inl (y, e) ↦ absurd (cc (ap (λ x. x.0) e))
        | inr (n, e) ↦
            let id = in_pg_id names a b by st.pg_rooms s s' resp refl inv e in
            (id, id ∙ dm_room_id_comm a b)
      ]
