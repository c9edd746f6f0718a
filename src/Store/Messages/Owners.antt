-- ===== src/Store/Messages/Owners.antt =====
-- Who can delete and edit a message.
use chat_service.Store.Repository.{Repository}
use chat_service.Store.Messages.{
  has_id, is_owned_by, present_and, edit_doc, editable, edit_message, edited, matched, mark_deleted,
  soft_delete_message_by_owner, deletable,
}
use chat_service.Store.Engine.{hit, missed, Updated, IsEngine, Engine}
use chat_service.Prelude.{
  All-map, Bool-cases, ◌↔◌, ◌||◌, ◌∙◌, sym, ℤ, ap, arith, subst, ltb, refl, err, inr, Result, ok,
  inl, ◌∷◌, ◌++◌, ◌⊎◌, false, true, All, ◌≡◌, ℕ, List, Bool,
}
use chat_service.Store.Documents.{MessageDoc}
use chat_service.Text.{is_empty, same, same_iff, Bytes}

-- One document of the first list that the filter lets through is changed in the second.
abbrev pub OneChanged :
    (MessageDoc → Bool) → (MessageDoc → MessageDoc) → List MessageDoc → List MessageDoc → Type 0
OneChanged p f ds ds' =
    (before after : List MessageDoc) × (d : MessageDoc) × (p d ≡ true)
    × (ds ≡ before ++ d ∷ after)
    × (ds' ≡ before ++ f d ∷ after)

-- No document of the first list is let through, and the second is the same.
abbrev pub NoneChanged : (MessageDoc → Bool) → List MessageDoc → List MessageDoc → Type 0
NoneChanged p ds ds' = All (λ d. p d ≡ false) ds × (ds' ≡ ds)

Updated-cases :
    (p : MessageDoc → Bool) (f : MessageDoc → MessageDoc) {n : ℕ} {ds ds' : List MessageDoc}
    → Updated p f ds n ds'
    → ((n ≡ 0) × NoneChanged p ds ds') ⊎ ((n ≡ 1) × OneChanged p f ds ds')
Updated-cases p f (missed h) = inl (refl, (h, refl))
Updated-cases p f (hit {d} before after h) = inr (refl, (before, after, d, h, refl, refl))

-- The document has the id, as its own or as that of its message.
abbrev pub HasId : Bytes → MessageDoc → Type 0
HasId id d = (d.id ≡ id) ⊎ ((is_empty d.message_id ≡ false) × (d.message_id ≡ id))

-- The document is one of the user, as its sender or as its user.
abbrev pub OwnedBy : Bytes → MessageDoc → Type 0
OwnedBy user d = (d.sender_id ≡ user) ⊎ ((is_empty d.user_id ≡ false) × (d.user_id ≡ user))

either_field :
    (a b x : Bytes)
    → ((same a x || present_and b (same b x)) ≡ true) ↔ ((a ≡ x) ⊎ ((is_empty b ≡ false) × (b ≡ x)))
either_field a b x = (
  λ h. elim (Bool-cases (same a x)) [
    | inl e ↦ inl ((same_iff a x).0 e)
    | inr e ↦ inr (ground (arith, h, e), (same_iff b x).0 (ground (arith, h, e)))
  ],
  λ h. elim h [
    | inl e ↦ rw ((same_iff a x).1 e) refl
    | inr (there, e) ↦ rw (there, (same_iff b x).1 e) (ground arith)
  ],
)

deletable_iff :
    (id user : Bytes) (d : MessageDoc)
    → (deletable id user d ≡ true) ↔ (HasId id d × OwnedBy user d)
unfolding deletable has_id is_owned_by
deletable_iff id user d =
    let ids = either_field d.id d.message_id id in
    let owners = either_field d.sender_id d.user_id user in
    (
      λ h. (ids.0 (ground (arith, h)), owners.0 (ground (arith, h))),
      λ (i, o). rw (ids.1 i, owners.1 o) refl,
    )

-- One document with the id and of the user is marked as deleted in the second list, and otherwise the
-- lists are the same.
abbrev pub Deleted : Bytes → Bytes → List MessageDoc → List MessageDoc → Type 0
Deleted id user ds ds' =
    (before after : List MessageDoc) × (d : MessageDoc) × HasId id d
    × OwnedBy user d
    × (ds ≡ before ++ d ∷ after)
    × (ds' ≡ before ++ record d { is_deleted = true } ∷ after)

-- What the answer of SoftDeleteMessageByOwner says of the messages before and after.
abbrev pub DeletionTold : Bytes → Bytes → Bool → List MessageDoc → List MessageDoc → Type 0
DeletionTold id user true ds ds' = Deleted id user ds ds'
DeletionTold id user false ds ds' = All (λ d. ¬ (HasId id d × OwnedBy user d)) ds × (ds' ≡ ds)

not_deletable :
    (id user : Bytes) (d : MessageDoc)
    → deletable id user d ≡ false
    → ¬ (HasId id d × OwnedBy user d)
not_deletable id user d h = λ k. let e = (deletable_iff id user d).1 k in cc

told_of :
    (id user : Bytes) (n : ℕ) (b : Bool) {ds ds' : List MessageDoc}
    → ((n ≡ 0) × NoneChanged (deletable id user) ds ds')
      ⊎ ((n ≡ 1) × OneChanged (deletable id user) mark_deleted ds ds')
    → ltb 0 n ≡ b
    → DeletionTold id user b ds ds'
told_of id user n true (inl (z, h)) e = absurd (ground arith)
told_of id user n true (inr (z, (before, after, d, h, old, new))) e =
    let (has, owned) = (deletable_iff id user d).0 h in (before, after, d, has, owned, old, new)
told_of id user n false {ds} (inl (z, (h, kept))) e =
    (All-map _ _ (not_deletable id user) ds h, kept)
told_of id user n false (inr (z, h)) e = absurd (ground arith)

module _ (db : Engine) (laws : IsEngine db) where
  deletion_told :
      (id user : Bytes) (b : Bool) (c c' : db.Coll MessageDoc) (r : Result Bytes ℕ)
      → db.update_one (deletable id user) mark_deleted c ≡ (r, c')
      → matched db r ≡ ok b
      → DeletionTold id user b (db.docs c) (db.docs c')
  unfolding matched
  deletion_told id user b c c' (err e) q m = absurd cc
  deletion_told id user b c c' (ok n) q m =
      told_of id user n b
        (Updated-cases (deletable id user) mark_deleted
          (laws.updated (deletable id user) mark_deleted n c c' q))
        (let e : ltb 0 n ≡ b = cc in e)

  -- When SoftDeleteMessageByOwner succeeds, its answer is whether it has marked one message as
  -- deleted, which has the given id and is one of the given user; every other message and the other
  -- collections are as they were, and where the answer is no, no such message is there.
  pub soft_delete_message_by_owner_lem :
      (id user : Bytes) (b : Bool) (s s' : Repository db)
      → soft_delete_message_by_owner db id user s ≡ (ok b, s')
      → DeletionTold id user b (db.docs s.messages) (db.docs s'.messages)
        × (s' ≡ record s { messages = s'.messages })
  unfolding soft_delete_message_by_owner
  soft_delete_message_by_owner_lem id user b s s' h =
      let update = db.update_one (deletable id user) mark_deleted s.messages in
      let after : record s { messages = update.1 } ≡ s' = ap (λ x. x.1) h in
      (
        subst (λ c. DeletionTold id user b (db.docs s.messages) (db.docs c))
            (ap (λ x. x.messages) after)
            (deletion_told id user b s.messages update.1 update.0 refl (ap (λ x. x.0) h)),
        sym after ∙ ap (λ c. record s { messages = c }) (ap (λ x. x.messages) after),
      )

  edition_told :
      (id user text : Bytes) (now at : ℤ) (c c' : db.Coll MessageDoc) (r : Result Bytes ℕ)
      → db.update_one (editable id user) (edit_doc text now) c ≡ (r, c')
      → edited db now r ≡ ok at
      → (at ≡ now) × OneChanged (editable id user) (edit_doc text now) (db.docs c) (db.docs c')
  unfolding edited
  edition_told id user text now at c c' (err e) q m = absurd cc
  edition_told id user text now at c c' (ok n) q m = told (
      Updated-cases (editable id user) (edit_doc text now)
        (laws.updated (editable id user) (edit_doc text now) n c c' q))
    where
      told :
          ((n ≡ 0) × NoneChanged (editable id user) (db.docs c) (db.docs c'))
            ⊎ ((n ≡ 1) × OneChanged (editable id user) (edit_doc text now) (db.docs c) (db.docs c'))
          → (at ≡ now) × OneChanged (editable id user) (edit_doc text now) (db.docs c) (db.docs c')
      told (inl (z, h)) = absurd (ground arith)
      told (inr (z, h)) = (ground arith, h)

  -- EditMessage succeeds only by changing the text and the time of one message, which has the given
  -- id, belongs to the given user and is not deleted; no other message changes, and the answer is the
  -- time that is stored.
  pub edit_message_lem :
      (now at : ℤ) (id user text : Bytes) (s s' : Repository db)
      → edit_message db now id user text s ≡ (ok at, s')
      → (at ≡ now)
        × OneChanged
            (editable id user)
            (edit_doc text now)
            (db.docs s.messages)
            (db.docs s'.messages)
  unfolding edit_message
  edit_message_lem now at id user text s s' h =
      let update = db.update_one (editable id user) (edit_doc text now) s.messages in
      subst
        (λ c.
          (at ≡ now)
          × OneChanged (editable id user) (edit_doc text now) (db.docs s.messages) (db.docs c))
        (ap (λ x. x.1.messages) h)
        (edition_told id user text now at s.messages update.1 update.0 refl (ap (λ x. x.0) h))
