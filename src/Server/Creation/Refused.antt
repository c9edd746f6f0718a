-- ===== src/Server/Creation/Refused.antt =====
-- The requests that `CreateRoom` of app/server/grpc_server.go refuses.
use chat_service.Prelude.{
  refl, ◌∷◌, ap, inr, none, ◌↔◌, ◌⊎◌, inl, ok, ◌&&◌, false, true, [], some, err, not, ◌≡◌, Option,
  Bool-cases, Result, ◌≢◌, Bool, List,
}
use chat_service.Server.Calls.{Reply, invalid_argument}
use chat_service.Server.Creation.{
  Conversations, CreateRoomRequest, CreateRoomResponse, PgRooms, Stores, after_mongo, after_pg,
  create_by_type, create_dm_room, create_group_room, create_room, dm_from_map, dm_in_mongo,
  dm_in_pg, group_in_mongo, group_in_pg, of_map, of_pg, or_id,
}
use chat_service.Proto.{RoomType, dm, group, other_room_type}
use chat_service.Rooms.{RoomMeta}
use chat_service.RoomStore
use chat_service.Store.Groups.{ConversationDetail}
use chat_service.Text.{is_empty, Bytes}

abbrev has_two : List Bytes → Bool
has_two (a ∷ b ∷ []) = true
has_two _ = false

abbrev fits_type : RoomType → List Bytes → Bytes → Bool
fits_type dm members name = has_two members
fits_type group members name = not (is_empty name)
fits_type (other_room_type n) members name = false

-- A creator, and two members for a direct room, a name for a group.
abbrev pub is_valid : CreateRoomRequest → Bool
is_valid req = not (is_empty req.created_by) && fits_type req.type req.member_ids req.name

module _ {S : Type 0} (st : Stores S) where
  abbrev Accepted : Reply CreateRoomResponse × S → Type 0
  Accepted x = x.0 ≢ err invalid_argument

  of_map-Accepted : (x : Result Bytes RoomStore.RoomMeta × S) → Accepted (of_map x)
  of_map-Accepted (err e, s) = λ h. cc
  of_map-Accepted (ok m, s) = λ h. cc

  of_pg-Accepted : (x : Result Bytes RoomMeta × S) → Accepted (of_pg x)
  of_pg-Accepted (err e, s) = λ h. cc
  of_pg-Accepted (ok m, s) = λ h. cc

  dm_from_map-Accepted :
      (a b by id name : Bytes) (s : S) → Accepted (dm_from_map st a b by id name s)
  unfolding dm_from_map
  dm_from_map-Accepted a b by id name s = elim (Bool-cases (is_empty id)) [
    | inl y ↦ rw y (of_map-Accepted (st.rooms.create_dm a b by s))
    | inr n ↦ rw n (λ h. cc)
  ]

  dm_in_mongo-Accepted :
      (o : Option (Conversations S)) (a b by id name : Bytes) (s : S)
      → Accepted (dm_in_mongo o st a b by id name s)
  dm_in_mongo-Accepted none a b by id name s = dm_from_map-Accepted a b by id name s
  dm_in_mongo-Accepted (some r) a b by id name s =
      let x = r.create_or_get_direct_conversation a b by s in
      dm_from_map-Accepted a b by (or_id id x.0) name x.1

  after_pg-Accepted :
      (a b by : Bytes) (x : Result Bytes RoomMeta × S) → Accepted (after_pg st a b by x)
  after_pg-Accepted a b by (err e, s) = λ h. cc
  after_pg-Accepted a b by (ok m, s) = dm_in_mongo-Accepted st.msg_repo a b by m.room_id m.name s

  dm_in_pg-Accepted :
      (o : Option (PgRooms S)) (a b by : Bytes) (s : S) → Accepted (dm_in_pg o st a b by s)
  dm_in_pg-Accepted none a b by s = dm_in_mongo-Accepted st.msg_repo a b by [] [] s
  dm_in_pg-Accepted (some p) a b by s = after_pg-Accepted a b by (p.get_or_create_dm a b by s)

  group_in_pg-Accepted :
      (o : Option (PgRooms S)) (req : CreateRoomRequest) (s : S) → Accepted (group_in_pg o st req s)
  group_in_pg-Accepted none req s =
      of_map-Accepted (st.rooms.create_group req.name req.created_by req.member_ids s)
  group_in_pg-Accepted (some p) req s =
      of_pg-Accepted (p.create_group _ req.name req.created_by req.member_ids s)

  after_mongo-Accepted :
      (req : CreateRoomRequest) (x : Result Bytes ConversationDetail × S)
      → Accepted (after_mongo st req x)
  after_mongo-Accepted req (err e, s) = group_in_pg-Accepted st.pg_rooms req s
  after_mongo-Accepted req (ok c, s) = λ h. cc

  group_in_mongo-Accepted :
      (o : Option (Conversations S)) (req : CreateRoomRequest) (s : S)
      → Accepted (group_in_mongo o st req s)
  group_in_mongo-Accepted none req s = group_in_pg-Accepted st.pg_rooms req s
  group_in_mongo-Accepted (some r) req s =
      after_mongo-Accepted req
        (r.create_group_conversation req.name [] [] req.created_by req.member_ids s)

  -- Whether a request that has a creator is refused, by the type of the room.
  by_type :
      (type : RoomType) (name by : Bytes) (members : List Bytes) (s : S)
      → ((fits_type type members name ≡ true)
          × Accepted (
              create_by_type type st
                (record { type = type; name = name; created_by = by; member_ids = members })
                s))
        ⊎ ((fits_type type members name ≡ false)
            × (create_by_type type st
                  (record { type = type; name = name; created_by = by; member_ids = members })
                  s
                ≡ (err invalid_argument, s)))
  unfolding create_by_type create_dm_room create_group_room
  by_type dm name by [] s = inr (refl, refl)
  by_type dm name by (a ∷ []) s = inr (refl, refl)
  by_type dm name by (a ∷ b ∷ []) s = inl (refl, dm_in_pg-Accepted st.pg_rooms a b by s)
  by_type dm name by (a ∷ b ∷ c ∷ members) s = inr (refl, refl)
  by_type group [] by members s = inr (refl, refl)
  by_type group (c ∷ name) by members s = inl (
    refl,
    group_in_mongo-Accepted st.msg_repo
        (record { type = group; name = c ∷ name; created_by = by; member_ids = members }) s,
  )
  by_type (other_room_type n) name by members s = inr (refl, refl)

  refused_by :
      (type : RoomType) (name by : Bytes) (members : List Bytes) (s : S)
      → let req : CreateRoomRequest = record {
        type = type;
        name = name;
        created_by = by;
        member_ids = members;
      } in
        ((is_valid req ≡ true) × Accepted (create_room st req s))
        ⊎ ((is_valid req ≡ false) × (create_room st req s ≡ (err invalid_argument, s)))
  unfolding create_room
  refused_by type name [] members s = inr (refl, refl)
  refused_by type name (c ∷ by) members s = by_type type name (c ∷ by) members s

  -- CreateRoom refuses a request as an invalid argument, and then changes no store, exactly where the
  -- request has no creator, or is for a direct room and has not two members, or is for a group and has
  -- no name, or is for a room of no known type. No other error is told as an invalid argument.
  pub create_room-refused :
      (req : CreateRoomRequest) (s : S)
      → (((create_room st req s).0 ≡ err invalid_argument) ↔ (is_valid req ≡ false))
        × (is_valid req ≡ false → (create_room st req s).1 ≡ s)
  create_room-refused req s = elim (refused_by req.type req.name req.created_by req.member_ids s) [
    | inl (valid, accepted) ↦ ((λ h. absurd (accepted h), λ h. cc), λ h. cc)
    | inr (invalid, e) ↦ ((λ h. invalid, λ h. ap (λ x. x.0) e), λ h. ap (λ x. x.1) e)
  ]
