-- ===== src/RoomId/Legacy.antt =====
-- The aliases of a direct-message room of two users whose ids have 36 bytes, as UUIDs do: where
-- `roomIDAliases` and `normalizeRoomID` meet.
use chat_service.RoomId.Canonical.{
  dm_room_id_comm, normalize_canonical, normalize_legacy, normalize_colon, legacy_id-IsVisible,
  dm_room_id_cases, spelling_parts, dm_spelling-IsVisible, dm_spelling, IsUserId,
}
use chat_service.Text.Order.{sort_strings_pair, sort_strings}
use chat_service.Text.Split.{join}
use chat_service.Text.Trim.{trim_space_visible, trim_space}
use chat_service.RoomId.{
  normalize_room_id, dm_room_id, legacy_id, add_aliases, colon, canonical_dm, room_id_aliases,
  contains,
}
use chat_service.Prelude.{
  ◌∙◌, sym, ap, subst, length, ◌⊎◌, inr, All, true, inl, refl, [], arith, ◌∷◌, ◌≡◌, ◌++◌,
}
use chat_service.Text.{IsVisible, lit, Bytes}
use chat_service.RoomId.Aliases.{add_aliases-All, add_aliases-contains_new}

legacy_sorted : Bytes → Bytes → Bytes
legacy_sorted a b = lit "CONV_" ++ join (lit "_") (sort_strings (a ∷ b ∷ []))

legacy_sorted_cases :
    (a b : Bytes) → (legacy_sorted a b ≡ legacy_id a b) ⊎ (legacy_sorted a b ≡ legacy_id b a)
unfolding legacy_sorted join
legacy_sorted_cases a b = elim (sort_strings_pair a b) [
  | inl h ↦ inl (rw h.1)
  | inr h ↦ inr (rw h.1)
]

spelling_aliases :
    (x y : Bytes)
    → IsUserId x
    → IsUserId y
    → room_id_aliases (dm_spelling colon x y)
      ≡ add_aliases
          (dm_spelling colon x y ∷ [])
          (dm_room_id x y ∷ legacy_sorted x y ∷ legacy_id x y ∷ legacy_id y x ∷ [])
unfolding room_id_aliases canonical_dm legacy_sorted join
spelling_aliases x y hx hy =
    rw (trim_space_visible _ (dm_spelling-IsVisible colon x y (omega arith) hx.visible hy.visible))
      (rw (spelling_parts x y hx.no_colon hy.no_colon) (rw (hx.nonempty, hy.nonempty)))

dm_room_id-IsVisible : (x y : Bytes) → IsUserId x → IsUserId y → IsVisible (dm_room_id x y)
dm_room_id-IsVisible x y hx hy = elim (dm_room_id_cases x y) [
  | inl e ↦
      subst IsVisible (sym e) (dm_spelling-IsVisible colon x y (omega arith) hx.visible hy.visible)
  | inr e ↦
      subst IsVisible (sym e) (dm_spelling-IsVisible colon y x (omega arith) hy.visible hx.visible)
]

legacy_sorted-IsVisible : (x y : Bytes) → IsUserId x → IsUserId y → IsVisible (legacy_sorted x y)
legacy_sorted-IsVisible x y hx hy = elim (legacy_sorted_cases x y) [
  | inl e ↦ subst IsVisible (sym e) (legacy_id-IsVisible x y hx.visible hy.visible)
  | inr e ↦ subst IsVisible (sym e) (legacy_id-IsVisible y x hy.visible hx.visible)
]

-- `raw` is normalised to `room` before and after it is trimmed.
abbrev LeadsTo : Bytes → Bytes → Type 0
LeadsTo room raw = normalize_room_id (trim_space raw) ≡ room

LeadsTo-visible :
    (room raw : Bytes) → IsVisible raw → normalize_room_id raw ≡ room → LeadsTo room raw
LeadsTo-visible room raw v e = ap normalize_room_id (trim_space_visible raw v) ∙ e

module _ (x y : Bytes) (hx : IsUserId x) (hy : IsUserId y) (lx : length x ≡ 36)
    (ly : length y ≡ 36) where
  legacy-LeadsTo : LeadsTo (dm_room_id x y) (legacy_id x y)
  legacy-LeadsTo =
      LeadsTo-visible (dm_room_id x y) (legacy_id x y)
        (legacy_id-IsVisible x y hx.visible hy.visible)
        (normalize_legacy x y hx.visible hy.visible lx (omega arith))

  legacy_back-LeadsTo : LeadsTo (dm_room_id x y) (legacy_id y x)
  legacy_back-LeadsTo =
      LeadsTo-visible (dm_room_id x y) (legacy_id y x)
        (legacy_id-IsVisible y x hy.visible hx.visible)
        (normalize_legacy y x hy.visible hx.visible ly (omega arith) ∙ dm_room_id_comm y x)

  sorted-LeadsTo : LeadsTo (dm_room_id x y) (legacy_sorted x y)
  sorted-LeadsTo = elim (legacy_sorted_cases x y) [
    | inl e ↦ subst (LeadsTo (dm_room_id x y)) (sym e) legacy-LeadsTo
    | inr e ↦ subst (LeadsTo (dm_room_id x y)) (sym e) legacy_back-LeadsTo
  ]

  spelling_aliases-All :
      All (λ id. normalize_room_id id ≡ dm_room_id x y) (room_id_aliases (dm_spelling colon x y))
  spelling_aliases-All = rw (spelling_aliases x y hx hy) (
      add_aliases-All (λ id. normalize_room_id id ≡ dm_room_id x y) (dm_spelling colon x y ∷ [])
        (dm_room_id x y ∷ legacy_sorted x y ∷ legacy_id x y ∷ legacy_id y x ∷ [])
        (normalize_colon x y hx hy, tt)
        (
          LeadsTo-visible (dm_room_id x y) (dm_room_id x y) (dm_room_id-IsVisible x y hx hy)
              (normalize_canonical x y hx hy),
          (sorted-LeadsTo, (legacy-LeadsTo, (legacy_back-LeadsTo, tt))),
        ))

  spelling_aliases_complete :
      (contains (room_id_aliases (dm_spelling colon x y)) (dm_room_id x y) ≡ true)
      × (contains (room_id_aliases (dm_spelling colon x y)) (legacy_id x y) ≡ true)
      × (contains (room_id_aliases (dm_spelling colon x y)) (legacy_id y x) ≡ true)
  spelling_aliases_complete =
      let all =
        add_aliases-contains_new (dm_spelling colon x y ∷ [])
          (dm_room_id x y ∷ legacy_sorted x y ∷ legacy_id x y ∷ legacy_id y x ∷ [])
          (
            (unfold dm_room_id in refl, trim_space_visible _ (dm_room_id-IsVisible x y hx hy)),
            (
              (
                unfold legacy_sorted in refl,
                trim_space_visible _ (legacy_sorted-IsVisible x y hx hy),
              ),
              (
                (refl, trim_space_visible _ (legacy_id-IsVisible x y hx.visible hy.visible)),
                ((refl, trim_space_visible _ (legacy_id-IsVisible y x hy.visible hx.visible)), tt),
              ),
            ),
          ) in
      rw (spelling_aliases x y hx hy) (all.0, all.1.1.0, all.1.1.1.0)

module _ (a b : Bytes) (ha : IsUserId a) (hb : IsUserId b) (la : length a ≡ 36)
    (lb : length b ≡ 36) where
  -- For two user ids of 36 bytes, every alias of their room normalises to that room's canonical id.
  pub aliases_sound :
      All (λ id. normalize_room_id id ≡ dm_room_id a b) (room_id_aliases (dm_room_id a b))
  aliases_sound = elim (dm_room_id_cases a b) [
    | inl e ↦
        subst (λ r. All (λ id. normalize_room_id id ≡ dm_room_id a b) (room_id_aliases r)) (sym e)
          (spelling_aliases-All a b ha hb la lb)
    | inr e ↦
        subst (λ r. All (λ id. normalize_room_id id ≡ r) (room_id_aliases (dm_room_id a b)))
          (dm_room_id_comm b a)
          (subst (λ r. All (λ id. normalize_room_id id ≡ dm_room_id b a) (room_id_aliases r))
            (sym e) (spelling_aliases-All b a hb ha lb la))
  ]

  -- For two user ids of 36 bytes, the aliases of their room contain its canonical id and the legacy
  -- ids of the pair in both orders.
  pub aliases_complete :
      (contains (room_id_aliases (dm_room_id a b)) (dm_room_id a b) ≡ true)
      × (contains (room_id_aliases (dm_room_id a b)) (legacy_id a b) ≡ true)
      × (contains (room_id_aliases (dm_room_id a b)) (legacy_id b a) ≡ true)
  aliases_complete = elim (dm_room_id_cases a b) [
    | inl e ↦
        let h = spelling_aliases_complete a b ha hb la lb in
        subst
          (λ r.
            (contains (room_id_aliases r) (dm_room_id a b) ≡ true)
            × (contains (room_id_aliases r) (legacy_id a b) ≡ true)
            × (contains (room_id_aliases r) (legacy_id b a) ≡ true))
          (sym e) h
    | inr e ↦
        let h = spelling_aliases_complete b a hb ha lb la in
        subst
          (λ r.
            (contains (room_id_aliases r) (dm_room_id a b) ≡ true)
            × (contains (room_id_aliases r) (legacy_id a b) ≡ true)
            × (contains (room_id_aliases r) (legacy_id b a) ≡ true))
          (sym e) (rw (dm_room_id_comm a b) h.0, h.2, h.1)
  ]
