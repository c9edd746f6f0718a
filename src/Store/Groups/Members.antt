-- ===== src/Store/Groups/Members.antt =====
-- Who is in a group, and how many the group says they are.
use chat_service.Store.Engine.{count_where}
use chat_service.RoomId.{contains}
use chat_service.RoomId.Aliases.{contains-append, Distinct-append, Distinct}
use chat_service.Store.Documents.{ConversationDoc, GroupMemberDoc}
use chat_service.Prelude.{
  ◌↔◌, length-append, ◌+◌, ◌∙◌, suc, refl, ◌&&◌, inr, sym, [], if◌then◌else◌, inl, not, ap, ◌∷◌,
  length, pos, false, Bool-cases, ◌||◌, true, arith, map, Bool, ◌≡◌, ℤ, List,
}
use chat_service.Store.Groups.{
  leave_conversation, join_conversation, final_members, member_doc, pull, add_users, add_user,
}
use chat_service.Text.{same_refl, same_iff, is_empty, lit, same, Bytes}

add_user-Distinct : (us : List Bytes) (u : Bytes) → Distinct us → Distinct (add_user us u)
unfolding add_user
add_user-Distinct us u h = ground (arith, Distinct-append us u h)

contains-same : (us : List Bytes) (u x : Bytes) → same u x ≡ true → contains us x ≡ contains us u
contains-same us u x e = ap (contains us) (sym ((same_iff u x).0 e))

add_user-contains :
    (us : List Bytes) (u x : Bytes) → contains (add_user us u) x ≡ (contains us x || same u x)
unfolding add_user contains
add_user-contains us u x = ground (arith, contains-append us (u ∷ []) x, contains-same us u x)

add_users-Distinct : (us ms : List Bytes) → Distinct us → Distinct (add_users us ms)
unfolding add_users
add_users-Distinct us [] h = h
add_users-Distinct us (m ∷ ms) h = elim (Bool-cases (is_empty m)) [
  | inl e ↦ rw e (add_users-Distinct us ms h)
  | inr e ↦ rw e (add_users-Distinct (add_user us m) ms (add_user-Distinct us m h))
]

same-is_empty : (m x : Bytes) → same m x ≡ true → is_empty m ≡ is_empty x
same-is_empty m x e = ap is_empty ((same_iff m x).0 e)

add_users-contains :
    (us ms : List Bytes) (x : Bytes)
    → contains (add_users us ms) x ≡ (contains us x || (not (is_empty x) && contains ms x))
unfolding add_users contains
add_users-contains us [] x = ground arith
add_users-contains us (m ∷ ms) x = elim (Bool-cases (is_empty m)) [
  | inl e ↦ rw e (add_users-contains us ms x ∙ ground (arith, same-is_empty m x, e))
  | inr e ↦ rw e (
      add_users-contains (add_user us m) ms x
      ∙ ground (arith, same-is_empty m x, e, add_user-contains us m x))
]

-- How many of the members' documents say OWNER.
abbrev pub is_owner : GroupMemberDoc → Bool
is_owner m = same m.role (lit "OWNER")

module _ (conv created_by : Bytes) (now : ℤ) where
  abbrev pub docs_of : List Bytes → List GroupMemberDoc
  docs_of us = map (member_doc conv created_by now) us

  is_owner-member_doc :
      (u : Bytes) → is_owner (member_doc conv created_by now u) ≡ same u created_by
  unfolding member_doc same
  is_owner-member_doc u = elim (Bool-cases (same u created_by)) [
    | inl e ↦ rw e refl
    | inr e ↦ rw e refl
  ]

  no_owner :
      (us : List Bytes) → contains us created_by ≡ false → count_where is_owner (docs_of us) ≡ 0
  unfolding count_where contains
  no_owner [] h = refl
  no_owner (u ∷ us) h = rw (is_owner-member_doc u) (ground (arith, no_owner us))

  one_owner :
      (us : List Bytes)
      → Distinct us
      → contains us created_by ≡ true
      → count_where is_owner (docs_of us) ≡ 1
  unfolding count_where contains
  one_owner [] h e = absurd cc
  one_owner (u ∷ us) h e = elim (Bool-cases (same u created_by)) [
    | inl s ↦
        rw (is_owner-member_doc u, s) (ap suc (no_owner us (contains-same us u created_by s ∙ h.0)))
    | inr s ↦ rw (is_owner-member_doc u, s) (one_owner us h.1 (ground arith))
  ]

  -- The members of a new group are its creator and the users of the request whose id is not empty, no
  -- one twice; and exactly one of the documents that are made for them says OWNER, the creator's.
  pub final_members_lem :
      (member_ids : List Bytes)
      → Distinct (final_members created_by member_ids)
        × ((x : Bytes)
            → contains (final_members created_by member_ids) x
              ≡ (same created_by x || (not (is_empty x) && contains member_ids x)))
        × (count_where is_owner (docs_of (final_members created_by member_ids)) ≡ 1)
        × ((u : Bytes) → is_owner (member_doc conv created_by now u) ≡ same u created_by)
  unfolding final_members contains
  final_members_lem member_ids =
      let once = add_users-Distinct (created_by ∷ []) member_ids (refl, tt) in
      let who = add_users-contains (created_by ∷ []) member_ids in
      (
        once,
        λ x. who x ∙ ground arith,
        one_owner (add_users (created_by ∷ []) member_ids) once
            (who created_by ∙ ground (arith, same_refl created_by)),
        is_owner-member_doc,
      )

-- The count of the conversation is the number of its participants, who are all different.
abbrev pub Counted : ConversationDoc → Type 0
Counted c = Distinct c.participants × (c.member_count ≡ pos (length c.participants))

length-pull :
    (u : Bytes) (us : List Bytes)
    → Distinct us
    → length (pull u us) + (if contains us u then 1 else 0) ≡ length us
unfolding pull contains
length-pull u [] h = refl
length-pull u (v ∷ vs) h = ground (arith, length-pull u vs h.1, contains-same vs v u)

pull-contains :
    (u x : Bytes) (us : List Bytes) → contains us x ≡ false → contains (pull u us) x ≡ false
unfolding pull contains
pull-contains u x [] h = refl
pull-contains u x (v ∷ vs) h = ground (arith, pull-contains u x vs)

pull-Distinct : (u : Bytes) (us : List Bytes) → Distinct us → Distinct (pull u us)
unfolding pull contains
pull-Distinct u [] h = tt
pull-Distinct u (v ∷ vs) h = ground (arith, pull-Distinct u vs h.1, pull-contains u v vs h.0)

length-add_user :
    (us : List Bytes) (u : Bytes)
    → length (add_user us u) ≡ (if contains us u then length us else suc (length us))
unfolding add_user
length-add_user us u = ground (arith, length-append us (u ∷ []))

module _ (u : Bytes) (c : ConversationDoc) (counted : Counted c) where
  joined_count : Counted (join_conversation u c) → contains c.participants u ≡ false
  unfolding join_conversation
  joined_count h = ground (arith, counted.1, h.1, length-add_user c.participants u)

  join-Counted : contains c.participants u ≡ false → Counted (join_conversation u c)
  unfolding join_conversation
  join-Counted e = (
    add_user-Distinct c.participants u counted.0,
    ground (arith, counted.1, length-add_user c.participants u),
  )

  left_count : Counted (leave_conversation u c) → contains c.participants u ≡ true
  unfolding leave_conversation
  left_count h = ground (arith, counted.1, h.1, length-pull u c.participants counted.0)

  leave-Counted : contains c.participants u ≡ true → Counted (leave_conversation u c)
  unfolding leave_conversation
  leave-Counted e = (
    pull-Distinct u c.participants counted.0,
    ground (arith, counted.1, length-pull u c.participants counted.0),
  )

  -- While the count of a conversation is the number of its participants, the update of AddGroupMember
  -- keeps it so exactly when the user is no participant yet, and that of RemoveGroupMember exactly
  -- when the user is one: neither method looks.
  pub member_count_iff :
      (Counted (join_conversation u c) ↔ (contains c.participants u ≡ false))
      × (Counted (leave_conversation u c) ↔ (contains c.participants u ≡ true))
  member_count_iff = ((joined_count, join-Counted), (left_count, leave-Counted))
