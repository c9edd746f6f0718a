-- ===== src/Store/Groups/Created.antt =====
-- What CreateGroupConversation leaves in the database.
use chat_service.Text.Decimal.{itoa}
use chat_service.Store.Repository.{Repository}
use chat_service.Store.Documents.{GroupMemberDoc, ConversationDoc}
use chat_service.Store.Groups.{
  final_members, group_doc, member_doc, doc_to_conversation_detail, after_group, after_members,
  ConversationDetail, create_group_conversation,
}
use chat_service.Prelude.{
  Bool-cases, inr, inl, ◌⊎◌, true, if◌then◌else◌, Bool, refl, subst, [], false, ap, ◌∷◌, err, map,
  ◌++◌, ok, Result, ◌≡◌, List, ℤ,
}
use chat_service.Store.Engine.{done, Done, IsEngine, Engine}
use chat_service.Text.{lit, is_empty, Bytes}

module _ (db : Engine) (created_by : Bytes) (now : ℤ) (conv : ConversationDoc) where
  -- The group and the documents of its members are in the collections.
  abbrev pub Created : ConversationDetail → Repository db → Repository db → Type 0
  Created detail s s' =
      (detail ≡ doc_to_conversation_detail conv)
      × (db.docs s'.conversations ≡ db.docs s.conversations ++ conv ∷ [])
      × (db.docs s'.group_members
          ≡ db.docs s.group_members ++ map (member_doc conv.id created_by now) conv.participants)

module _ (db : Engine) (laws : IsEngine db) (created_by : Bytes) (now : ℤ)
    (conv : ConversationDoc) where
  members_created :
      (detail : ConversationDetail) (c c' : db.Coll GroupMemberDoc) (r : Result Bytes Done)
      → db.insert_many (map (member_doc conv.id created_by now) conv.participants) c ≡ (r, c')
      → after_members db conv r ≡ ok detail
      → (detail ≡ doc_to_conversation_detail conv)
        × (db.docs c' ≡ db.docs c ++ map (member_doc conv.id created_by now) conv.participants)
  unfolding after_members
  members_created detail c c' (err e) q m = absurd cc
  members_created detail c c' (ok done) q m = (
    (let e : detail ≡ doc_to_conversation_detail conv = cc in e),
    laws.inserted_many (map (member_doc conv.id created_by now) conv.participants) c c' q,
  )

  group-Created :
      (detail : ConversationDetail) (s s' : Repository db) (c : db.Coll ConversationDoc)
      (r : Result Bytes Done)
      → db.insert_one conv s.conversations ≡ (r, c)
      → after_group db created_by now conv r (record s { conversations = c }) ≡ (ok detail, s')
      → Created db created_by now conv detail s s'
  unfolding after_group
  group-Created detail s s' c (err e) q m =
      absurd
        (let x : Path (Result Bytes ConversationDetail) (err e) (ok detail) = ap (λ x. x.0) m in cc)
  group-Created detail s s' c (ok done) q m =
      let docs = map (member_doc conv.id created_by now) conv.participants in
      let inserted = db.insert_many docs s.group_members in
      let made =
        members_created detail s.group_members inserted.1 inserted.0 refl (ap (λ x. x.0) m) in
      (
        made.0,
        subst (λ x. db.docs x ≡ db.docs s.conversations ++ conv ∷ [])
            (ap (λ x. x.1.conversations) m) (laws.inserted conv s.conversations c q),
        subst (λ x. db.docs x ≡ db.docs s.group_members ++ docs) (ap (λ x. x.1.group_members) m)
            made.1,
      )

module _ (db : Engine) (laws : IsEngine db) where
  -- CreateGroupConversation succeeds only for a group with a name and a creator; then the group with
  -- all its members as participants, counted in 32 bits, and one document for each of them have been
  -- added to the collections and nothing else, and the answer is that group.
  pub create_group_conversation_lem :
      (nanos now : ℤ) (name photo description created_by : Bytes) (member_ids : List Bytes)
      (detail : ConversationDetail) (s s' : Repository db)
      → create_group_conversation db nanos now name photo description created_by member_ids s
        ≡ (ok detail, s')
      → (is_empty name ≡ false)
        × (is_empty created_by ≡ false)
        × Created db created_by now
            (group_doc
              (lit "CONV_" ++ itoa nanos)
              name
              photo
              description
              created_by
              now
              (final_members created_by member_ids))
            detail
            s
            s'
  unfolding create_group_conversation
  create_group_conversation_lem nanos now name photo description created_by member_ids detail s s'
        h =
      named (Bool-cases (is_empty name)) (Bool-cases (is_empty created_by))
    where
      conv : ConversationDoc
      conv =
          group_doc (lit "CONV_" ++ itoa nanos) name photo description created_by now
            (final_members created_by member_ids)

      answer : Bool → Bool → Result Bytes ConversationDetail × Repository db
      answer no_name no_creator =
          let (r, c) = db.insert_one conv s.conversations in
          if no_name
          then (err (lit "group_name is required"), s)
          else if no_creator
          then (err (lit "created_by is required"), s)
          else after_group db created_by now conv r (record s { conversations = c })

      refused :
          {e : Bytes}
          → Path (Result Bytes ConversationDetail × Repository db) (err e, s) (ok detail, s')
          → ⊥
      refused m = let x = ap (λ x. x.0) m in cc

      named :
          (is_empty name ≡ true) ⊎ (is_empty name ≡ false)
          → (is_empty created_by ≡ true) ⊎ (is_empty created_by ≡ false)
          → (is_empty name ≡ false)
            × (is_empty created_by ≡ false)
            × Created db created_by now conv detail s s'
      named (inl e) f =
          absurd (refused (subst (λ t. answer t (is_empty created_by) ≡ (ok detail, s')) e h))
      named (inr e) (inl f) = absurd (
          refused (
            subst (λ t. answer false t ≡ (ok detail, s')) f
              (subst (λ t. answer t (is_empty created_by) ≡ (ok detail, s')) e h)))
      named (inr e) (inr f) =
          let inserted = db.insert_one conv s.conversations in
          (
            e,
            f,
            group-Created db laws created_by now conv detail s s' inserted.1 inserted.0 refl (
                subst (λ t. answer false t ≡ (ok detail, s')) f
                  (subst (λ t. answer t (is_empty created_by) ≡ (ok detail, s')) e h)),
          )
