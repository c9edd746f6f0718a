-- ===== src/Store/Reading/Unread.antt =====
-- Marking a conversation as read against counting what is unread.
use chat_service.RoomId.Aliases.{contains-append}
use chat_service.Store.Repository.{Repository}
use chat_service.Prelude.{
  ap, ◌∙◌, Result, err, refl, pos, if◌then◌else◌, arith, ok, ◌⊎◌, ◌∷◌, [], inr, inl, ℕ, false,
  Bool-cases, ℤ, true, List, ◌≡◌,
}
use chat_service.RoomId.{contains}
use chat_service.Store.Documents.{MessageReadDoc}
use chat_service.Store.Engine.{IsEngine, update_all, Engine, count_where}
use chat_service.Store.Reading.{
  update_read_receipt, read_in, to_int32, get_unread_count, mark_message_read, is_unread,
  mark_read_by,
}
use chat_service.Text.{same_refl, same, is_empty, Bytes}

marked-contains :
    (user : Bytes) (d : MessageReadDoc) → contains (mark_read_by user d).read_by user ≡ true
unfolding mark_read_by contains
marked-contains user d = elim (Bool-cases (contains d.read_by user)) [
  | inl e ↦ rw (e, e) refl
  | inr e ↦ rw (e, contains-append) (ground (arith, same_refl user))
]

-- No document is unread in a conversation after each of its documents is marked.
none_unread :
    (user conv : Bytes) (ds : List MessageReadDoc)
    → is_empty conv ≡ false
    → count_where
        (is_unread user conv)
        (update_all (λ d. same d.conversation_id conv) (mark_read_by user) ds)
      ≡ 0
unfolding count_where update_all is_unread
none_unread user conv [] h = refl
none_unread user conv (d ∷ ds) h =
    rw (read_one (Bool-cases (same d.conversation_id conv))) (none_unread user conv ds h)
  where
    read_one :
        (same d.conversation_id conv ≡ true) ⊎ (same d.conversation_id conv ≡ false)
        → is_unread user conv (if same d.conversation_id conv then mark_read_by user d else d)
          ≡ false
    read_one (inl e) = rw (e, marked-contains) (ground arith)
    read_one (inr e) = rw (e, e, h) (ground arith)

module _ (db : Engine) (laws : IsEngine db) where
  -- When MarkMessageRead of a whole conversation has succeeded, GetUnreadCount of the same user and
  -- conversation is an error or 0, whatever had been stored.
  pub mark_message_read-get_unread_count :
      (now : ℤ) (conv user : Bytes) (n : ℕ) (s s' : Repository db)
      → is_empty conv ≡ false
      → mark_message_read db now conv user [] s ≡ (ok n, s')
      → (get_unread_count db user conv s' ≡ ok (pos 0))
        ⊎ ((e : Bytes) × (get_unread_count db user conv s' ≡ err e))
  unfolding mark_message_read get_unread_count read_in update_read_receipt to_int32
  mark_message_read-get_unread_count now conv user n s s' ne h =
      answer (db.count_documents (is_unread user conv) s'.message_read) refl
    where
      answer :
          (r : Result Bytes ℕ)
          → db.count_documents (is_unread user conv) s'.message_read ≡ r
          → (get_unread_count db user conv s' ≡ ok (pos 0))
            ⊎ ((e : Bytes) × (get_unread_count db user conv s' ≡ err e))
      answer (err e) q = inr (e, rw (q, get_unread_count) refl)
      answer (ok k) q =
          let marked =
            laws.updated_many (λ d. same d.conversation_id conv) (mark_read_by user) n
              s.message_read s'.message_read (ap (λ x. (x.0, x.1.message_read)) h) in
          let zero_left : k ≡ 0 =
            laws.counted (is_unread user conv) k s'.message_read q
            ∙ ap (count_where (is_unread user conv)) marked
            ∙ none_unread user conv (db.docs s.message_read) ne in
          inl (rw (q, get_unread_count) (ap (λ k. ok (to_int32 k)) zero_left))
