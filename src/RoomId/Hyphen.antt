-- ===== src/RoomId/Hyphen.antt =====
-- The hyphen spelling of a room of two users, one of whose ids has a hyphen itself.
use chat_service.RoomId.Canonical.{
  normalize_colon, dm_room_id_injective, IsUserId, normalize_hyphen, dm_spelling,
}
use chat_service.RoomId.{colon, dm_room_id, normalize_room_id, hyphen}
use chat_service.Prelude.{
  inr, inl, sym, ◌⊎◌, length-append, length, arith, All-append_right, All-append, All-append_left,
  ◌∙◌, ap, ◌≢◌, false, append_assoc, ◌≡◌, ◌∷◌, ℕ, ◌++◌,
}
use chat_service.Text.{IsVisible, Lacks, is_empty, Bytes}

hyphen_list : (p q b : Bytes) → (p ++ hyphen ∷ q) ++ hyphen ∷ b ≡ p ++ hyphen ∷ (q ++ hyphen ∷ b)
hyphen_list p q b = append_assoc p (hyphen ∷ q) (hyphen ∷ b)

-- The first hyphen after the prefix ends the first id, so that an id with a hyphen is cut in two:
-- the room is the one of `p` and of the rest, whatever the pair was.
pub normalize_hyphenated :
    (p : Bytes) (c : ℕ) (q b : Bytes)
    → is_empty p ≡ false
    → Lacks hyphen p
    → c ≢ hyphen
    → IsVisible (p ++ hyphen ∷ c ∷ q)
    → IsVisible b
    → normalize_room_id (dm_spelling hyphen (p ++ hyphen ∷ c ∷ q) b)
      ≡ dm_room_id p (c ∷ (q ++ hyphen ∷ b))
normalize_hyphenated p c q b ne lp hc va vb =
    ap (λ s. normalize_room_id (b'd' ∷ b'm' ∷ hyphen ∷ s)) (hyphen_list p (c ∷ q) b)
    ∙ normalize_hyphen p c (q ++ hyphen ∷ b) ne lp hc (All-append_left _ p (hyphen ∷ c ∷ q) va) (
        All-append _ (c ∷ q) (hyphen ∷ b) (All-append_right _ p (hyphen ∷ c ∷ q) va).1
          (omega arith, vb))

longer : (p q : Bytes) → p ≢ p ++ hyphen ∷ q
longer p q e = omega (arith, ap length e, length-append p (hyphen ∷ q))

-- Where the first id of the pair has a hyphen (after at least one other byte), no colon occurs
-- and the second id is not the first one's beginning, the hyphen spelling and the colon spelling of
-- the same pair are two different rooms.
pub hyphenated_rooms_differ :
    (p : Bytes) (c : ℕ) (q b : Bytes)
    → Lacks hyphen p
    → c ≢ hyphen
    → is_empty p ≡ false
    → IsUserId (p ++ hyphen ∷ c ∷ q)
    → IsUserId b
    → p ≢ b
    → normalize_room_id (dm_spelling hyphen (p ++ hyphen ∷ c ∷ q) b)
      ≢ normalize_room_id (dm_spelling colon (p ++ hyphen ∷ c ∷ q) b)
hyphenated_rooms_differ p c q b lp hc ne ha hb h e = elim rooms [
  | inl r ↦ longer p (c ∷ q) r.0
  | inr r ↦ h r.0
]
  where
    lacks_rest : Lacks colon (c ∷ q)
    lacks_rest = (All-append_right _ p (hyphen ∷ c ∷ q) ha.no_colon).1

    rooms :
        ((p ≡ p ++ hyphen ∷ c ∷ q) × (c ∷ (q ++ hyphen ∷ b) ≡ b))
        ⊎ ((p ≡ b) × (c ∷ (q ++ hyphen ∷ b) ≡ p ++ hyphen ∷ c ∷ q))
    rooms =
        dm_room_id_injective p (c ∷ (q ++ hyphen ∷ b)) (p ++ hyphen ∷ c ∷ q) b
          (All-append_left _ p (hyphen ∷ c ∷ q) ha.no_colon)
          (All-append _ (c ∷ q) (hyphen ∷ b) lacks_rest (λ x. absurd (omega arith), hb.no_colon))
          ha.no_colon hb.no_colon
          (sym (normalize_hyphenated p c q b ne lp hc ha.visible hb.visible)
            ∙ e
            ∙ normalize_colon (p ++ hyphen ∷ c ∷ q) b ha hb)
