-- ===== src/Server/Creation/Parts.antt =====
-- The stores of app/repository/postgres.go, app/repository/mongodb.go and app/chat/room_store.go as the
-- parts that `CreateRoom` of app/server/grpc_server.go calls.
use chat_service.Prelude.{
  false, inr, err, sym, subst, refl, ◌||◌, true, inl, ◌∙◌, none, ap, Option, if◌then◌else◌, ◌⊎◌,
  if_cases, some, ℤ, Result, ok, ◌≡◌, Bool,
}
use chat_service.Server.Creation.{Conversations, PgRooms, Stores}
use chat_service.Server.Creation.Agreement.{IsPairId, NamesPairs}
use chat_service.Rooms
use chat_service.Rooms.Direct
use chat_service.Rooms.Found.{get_or_create_dm_id}
use chat_service.Rooms.Statements.{IsSql, Sql}
use chat_service.Rooms.Stored.{ok_same, some_same}
use chat_service.RoomStore
use chat_service.RoomStore.{IsRedis, Redis}
use chat_service.RoomStore.Refines.{Shows, Spec, create_dm-Shows, or_put}
use chat_service.Store.Direct.{
  create_or_get_direct_conversation, direct_doc, found_direct, inserted_direct, find_or_insert,
  or_zero,
}
use chat_service.Store.Documents.{ConversationDoc}
use chat_service.Store.Engine.{Done, Engine, IsEngine}
use chat_service.Store.Groups.{
  ConversationDetail, create_group_conversation, doc_to_conversation_detail,
}
use chat_service.Store.Repository.{Repository}
use chat_service.RoomId.{dm_room_id}
use chat_service.Text.{same_iff, is_empty, same, Bytes}

module _ (db : Engine) (laws : IsEngine db) (is_duplicate : Bytes → Bool) where
  or_zero_id :
      (conv : Bytes) (x : Result Bytes ConversationDoc)
      → ((d : ConversationDoc) → x ≡ ok d → same d.id conv ≡ true)
      → ((doc_to_conversation_detail (or_zero x)).conversation_id ≡ conv)
        ⊎ (is_empty (doc_to_conversation_detail (or_zero x)).conversation_id ≡ true)
  unfolding doc_to_conversation_detail
  or_zero_id conv (err e) h = inr refl
  or_zero_id conv (ok d) h = inl ((same_iff d.id conv).0 (h d refl))

  inserted_id :
      (conv : Bytes) (doc : ConversationDoc) (x : Result Bytes Done) (s s' : Repository db)
      (c : ConversationDetail)
      → doc.id ≡ conv
      → inserted_direct db is_duplicate conv doc x s ≡ (ok c, s')
      → (c.conversation_id ≡ conv) ⊎ (is_empty c.conversation_id ≡ true)
  unfolding inserted_direct doc_to_conversation_detail
  inserted_id conv doc (ok d) s s' c e h =
      inl (ap (λ x. x.conversation_id) (sym (ok_same (ap (λ x. x.0) h))) ∙ e)
  inserted_id conv doc (err w) s s' c e h = elim (if_cases (is_duplicate w) _ _ (ok c, s') h) [
    | inl (y, k) ↦
        subst (λ x. (x.conversation_id ≡ conv) ⊎ (is_empty x.conversation_id ≡ true))
          (ok_same (ap (λ x. x.0) k))
          (or_zero_id conv (db.find_one (λ d. same d.id conv) s.conversations)
            (λ d q. laws.found_one _ s.conversations d q))
    | inr (n, k) ↦ absurd (cc (ap (λ x. x.0) k))
  ]

  found_id :
      (conv : Bytes) (doc existing : ConversationDoc) (s s' : Repository db)
      (c : ConversationDetail)
      → found_direct db conv doc existing s ≡ (ok c, s')
      → c.conversation_id ≡ conv
  unfolding found_direct
  found_id conv doc existing s s' c h = elim (if_cases (same existing.id conv) _ _ (ok c, s') h) [
    | inl (y, k) ↦ ap (λ x. x.conversation_id) (sym (ok_same (ap (λ x. x.0) k)))
    | inr (n, k) ↦ ap (λ x. x.conversation_id) (sym (ok_same (ap (λ x. x.0) k)))
  ]

  either_id :
      (x : Result Bytes ConversationDoc) (conv : Bytes) (doc : ConversationDoc)
      (s s' : Repository db) (c : ConversationDetail)
      → doc.id ≡ conv
      → find_or_insert db is_duplicate x conv doc s ≡ (ok c, s')
      → (c.conversation_id ≡ conv) ⊎ (is_empty c.conversation_id ≡ true)
  either_id (ok existing) conv doc s s' c e h = inl (found_id conv doc existing s s' c h)
  either_id (err w) conv doc s s' c e h = inserted_id conv doc _ _ s' c e h

  create_or_get_direct_conversation_id :
      (a b by : Bytes) (now : ℤ) (s s' : Repository db) (c : ConversationDetail)
      → create_or_get_direct_conversation db is_duplicate a b by now s ≡ (ok c, s')
      → IsPairId a b c.conversation_id
  unfolding create_or_get_direct_conversation direct_doc
  create_or_get_direct_conversation_id a b by now s s' c h =
      elim (if_cases (is_empty a || is_empty b) _ _ (ok c, s') h) [
        | inl (y, e) ↦ absurd (cc (ap (λ x. x.0) e))
        | inr (n, e) ↦ either_id _ (dm_room_id a b) (direct_doc a b by now) s s' c refl e
      ]

module _ (q : Sql) (db : Engine) (r : Redis) where
  -- The state of the three stores.
  pub record State : Type 0 where
    pub tables : Rooms.Tables q
    pub repository : Repository db
    pub store : RoomStore.RoomStore r

  -- The map of rooms holds each under its own id, and its backend answers.
  abbrev pub IsFiled : State → Type 0
  IsFiled s =
      (spec : Spec) × Shows r s.store spec
      × ((id : Bytes) (m : RoomStore.RoomMeta) → spec id ≡ some m → m.room_id ≡ id)

  module _ (is_duplicate : Bytes → Bool) (nanos now : ℤ) (uuid : Bytes)
      (has_pg has_mongo : Bool) where
    abbrev the_pg : PgRooms State
    the_pg = record {
      get_or_create_dm = λ a b by s.
          let (x, t) = Direct.get_or_create_dm q a b by now s.tables in
          (x, record s { tables = t });
      create_group = λ room name by members s.
          let (x, t) = Direct.create_group q room name by members now s.tables in
          (x, record s { tables = t });
    }

    abbrev the_mongo : Conversations State
    the_mongo = record {
      create_or_get_direct_conversation = λ a b by s.
          let (x, t) = create_or_get_direct_conversation db is_duplicate a b by now s.repository in
          (x, record s { repository = t });
      create_group_conversation = λ name photo description by members s.
          let (x, t) =
            create_group_conversation db nanos now name photo description by members s.repository in
          (x, record s { repository = t });
    }

    abbrev pub parts : Stores State
    parts = record {
      pg_rooms = if has_pg then some the_pg else none;
      msg_repo = if has_mongo then some the_mongo else none;
      rooms = record {
        create_dm = λ a b by s.
            let (x, t) = RoomStore.create_dm r a b by now s.store in (x, record s { store = t });
        create_group = λ name by members s.
            let (x, t) = RoomStore.create_group r uuid name by members now s.store in
            (x, record s { store = t });
      };
      new_id = uuid;
    }

    or_put_id :
        (a b by : Bytes) (o : Option RoomStore.RoomMeta) (spec : Spec)
        → ((m : RoomStore.RoomMeta) → o ≡ some m → m.room_id ≡ dm_room_id a b)
        → (or_put (RoomStore.new_dm r a b by now) o spec).0.room_id ≡ dm_room_id a b
    unfolding RoomStore.new_dm
    or_put_id a b by none spec h = refl
    or_put_id a b by (some m) spec h = h m refl

    if_some : {A : Type 0} (has : Bool) (x y : A) → (if has then some x else none) ≡ some y → x ≡ y
    if_some true x y h = some_same h
    if_some false x y h = cc

    -- The stores name pairs as CreateRoom relies on, in states whose map holds each room under its id.
    pub parts-NamesPairs : IsSql q → IsEngine db → IsRedis r → NamesPairs parts IsFiled
    parts-NamesPairs sql engine redis = record {
      pg_id = λ p a b by s s' m has inv h.
          let h' : the_pg.get_or_create_dm a b by s ≡ (ok m, s') =
            ap (λ x. x.get_or_create_dm a b by s) (if_some has_pg the_pg p has) ∙ h in
          let x = Direct.get_or_create_dm q a b by now s.tables in
          (
            get_or_create_dm_id q sql a b by now m s.tables x.1 (λ i. ((h' i).0, x.1)),
            subst IsFiled (ap (λ x. x.1) h') inv,
          );
      mongo_id = λ p a b by s s' c has inv h.
          let h' : the_mongo.create_or_get_direct_conversation a b by s ≡ (ok c, s') =
            ap (λ x. x.create_or_get_direct_conversation a b by s)
              (if_some has_mongo the_mongo p has)
            ∙ h in
          let x = create_or_get_direct_conversation db is_duplicate a b by now s.repository in
          create_or_get_direct_conversation_id db engine is_duplicate a b by now s.repository x.1 c
            (λ i. ((h' i).0, x.1));
      mongo_keeps = λ p a b by s has inv.
          subst (λ x. IsFiled (x.create_or_get_direct_conversation a b by s).1)
            (if_some has_mongo the_mongo p has) inv;
      map_id = λ a b by s s' m inv h.
          let (spec, shows, own) = inv in
          let x = RoomStore.create_dm r a b by now s.store in
          let (e, shows') =
            create_dm-Shows r redis a b by now m s.store x.1 spec shows (λ i. ((h i).0, x.1)) in
          ap (λ x. x.room_id) e
          ∙ or_put_id a b by (spec (dm_room_id a b)) spec (own (dm_room_id a b));
    }
