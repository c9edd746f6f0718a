-- ===== src/RoomId/Canonical.antt =====
-- All spellings of a direct-message room have one canonical id.
use chat_service.Text.Trim.{trim_space_visible}
use chat_service.Prelude.{
  inr, inl, length-append, drop-append_suc, take-append_eq, get_elem?-append, ◌∙◌, ◌≤◌, ◌⊎◌, length,
  arith, All-append, ◌<◌, refl, ℕ, ◌≡◌, sym, ap, ◌≢◌, false, some, [], ◌∷◌, ◌++◌,
}
use chat_service.Text.{has_prefix, Bytes, lit, is_empty, has_prefix-append, Lacks, IsVisible}
use chat_service.Text.Order.{sort_strings_pair, sort_strings_pair_comm}
use chat_service.Text.Split.{split-Lacks, split, join, split_at, split_head}
use chat_service.RoomId.{
  legacy_id, normalize_room_id, legacy_pair, hyphen, normalize_trimmed, colon, dm_room_id,
  pair_of_parts, split_pair,
}

-- What the service's user ids are like: visible characters, and no colon.
pub record IsUserId (a : Bytes) : Type 0 where
  pub nonempty : is_empty a ≡ false
  pub visible : IsVisible a
  pub no_colon : Lacks colon a

-- "dm" ++ sep ++ a ++ sep ++ b
abbrev pub dm_spelling : ℕ → Bytes → Bytes → Bytes
dm_spelling sep a b = b'd' ∷ b'm' ∷ sep ∷ (a ++ sep ∷ b)

pub split_pair_dm :
    (sep : ℕ) (a : Bytes) (c : ℕ) (s : Bytes)
    → sep ≢ b'd'
    → sep ≢ b'm'
    → is_empty a ≡ false
    → Lacks sep a
    → c ≢ sep
    → split_pair (b'd' ∷ b'm' ∷ sep ∷ []) sep (dm_spelling sep a (c ∷ s)) ≡ some (a, c ∷ s)
unfolding split_pair
split_pair_dm sep a c s hd hm ne la hc =
    let (p, ps, e, j) = split_head sep c s hc in
    rw (has_prefix-append (b'd' ∷ b'm' ∷ sep ∷ []) (a ++ sep ∷ c ∷ s)) (
      rw
        (split_at sep (b'd' ∷ b'm' ∷ []) (a ++ sep ∷ c ∷ s)
          (λ x. hd (sym x), (λ x. hm (sym x), tt)))
        (rw (split_at sep a (c ∷ s) la) (rw e (rw (ne, pair_of_parts) (rw j)))))

pub dm_room_id_comm : (a b : Bytes) → dm_room_id a b ≡ dm_room_id b a
unfolding dm_room_id
dm_room_id_comm a b = ap (λ ids. lit "dm:" ++ join (colon ∷ []) ids) (sort_strings_pair_comm a b)

IsVisible-spelling :
    (prefix a : Bytes) (sep : ℕ) (b : Bytes)
    → IsVisible prefix
    → (32 < sep) × (sep < 127)
    → IsVisible a
    → IsVisible b
    → IsVisible (prefix ++ (a ++ sep ∷ b))
IsVisible-spelling prefix a sep b hp hs ha hb =
    All-append _ prefix (a ++ sep ∷ b) hp (All-append _ a (sep ∷ b) ha (hs, hb))

-- The text of a user id is a byte that is no colon, and more.
pub user_id_cons : (b : Bytes) → IsUserId b → (c : ℕ) × (s : Bytes) × (b ≡ c ∷ s) × (c ≢ colon)
user_id_cons [] h = cc (h.nonempty)
user_id_cons (c ∷ s) h = (c, s, refl, h.no_colon.0)

-- On trimmed text: the two `dm` spellings and the legacy one.
pub normalize_trimmed-colon :
    (a b : Bytes)
    → IsUserId a
    → IsUserId b
    → normalize_trimmed (dm_spelling colon a b) ≡ dm_room_id a b
unfolding normalize_trimmed has_prefix
normalize_trimmed-colon a [] ha hb = cc (hb.nonempty)
normalize_trimmed-colon a (c ∷ s) ha hb = rw (
    split_pair_dm colon a c s (λ e. absurd (omega arith)) (λ e. absurd (omega arith)) ha.nonempty
      ha.no_colon hb.no_colon.0)

pub normalize_trimmed-hyphen :
    (a : Bytes) (c : ℕ) (s : Bytes)
    → is_empty a ≡ false
    → Lacks hyphen a
    → c ≢ hyphen
    → normalize_trimmed (dm_spelling hyphen a (c ∷ s)) ≡ dm_room_id a (c ∷ s)
unfolding normalize_trimmed has_prefix
normalize_trimmed-hyphen a c s ne la hc =
    rw (split_pair_dm hyphen a c s (λ e. absurd (omega arith)) (λ e. absurd (omega arith)) ne la hc)

pub legacy_pair_lem :
    (a b : Bytes) → length a ≡ 36 → 36 ≤ length b → legacy_pair (legacy_id a b) ≡ some (a, b)
unfolding legacy_pair
legacy_pair_lem a b ha hb =
    rw
      (
        get_elem?-append a b'_' b 36 ha,
        take-append_eq a (b'_' ∷ b) 36 ha,
        drop-append_suc a b'_' b 36 ha,
      )
      (ground (arith, length-append a (b'_' ∷ b)))

pub normalize_trimmed_legacy :
    (a b : Bytes)
    → length a ≡ 36
    → 36 ≤ length b
    → normalize_trimmed (legacy_id a b) ≡ dm_room_id a b
unfolding normalize_trimmed has_prefix
normalize_trimmed_legacy a b ha hb = rw (legacy_pair_lem a b ha hb)

-- A canonical id is one of the two colon spellings.
pub dm_room_id_cases :
    (a b : Bytes)
    → (dm_room_id a b ≡ dm_spelling colon a b) ⊎ (dm_room_id a b ≡ dm_spelling colon b a)
unfolding dm_room_id
dm_room_id_cases a b = elim (sort_strings_pair a b) [ inl h ↦ inl (rw h.1) | inr h ↦ inr (rw h.1) ]

normalize_visible : (s : Bytes) → IsVisible s → normalize_room_id s ≡ normalize_trimmed s
unfolding normalize_room_id
normalize_visible s h = rw (trim_space_visible s h)

pub dm_spelling-IsVisible :
    (sep : ℕ) (a b : Bytes)
    → (32 < sep) × (sep < 127)
    → IsVisible a
    → IsVisible b
    → IsVisible (dm_spelling sep a b)
dm_spelling-IsVisible sep a b hs ha hb =
    IsVisible-spelling (b'd' ∷ b'm' ∷ sep ∷ []) a sep b (omega arith) hs ha hb

pub legacy_id-IsVisible : (a b : Bytes) → IsVisible a → IsVisible b → IsVisible (legacy_id a b)
legacy_id-IsVisible a b ha hb =
    IsVisible-spelling (lit "CONV_") a b'_' b (omega arith) (omega arith) ha hb

pub normalize_colon :
    (a b : Bytes)
    → IsUserId a
    → IsUserId b
    → normalize_room_id (dm_spelling colon a b) ≡ dm_room_id a b
normalize_colon a b ha hb =
    normalize_visible _ (dm_spelling-IsVisible colon a b (omega arith) ha.visible hb.visible)
    ∙ normalize_trimmed-colon a b ha hb

pub normalize_legacy :
    (a b : Bytes)
    → IsVisible a
    → IsVisible b
    → length a ≡ 36
    → 36 ≤ length b
    → normalize_room_id (legacy_id a b) ≡ dm_room_id a b
normalize_legacy a b ha hb la lb =
    normalize_visible _ (legacy_id-IsVisible a b ha hb) ∙ normalize_trimmed_legacy a b la lb

pub normalize_hyphen :
    (a : Bytes) (c : ℕ) (s : Bytes)
    → is_empty a ≡ false
    → Lacks hyphen a
    → c ≢ hyphen
    → IsVisible a
    → IsVisible (c ∷ s)
    → normalize_room_id (dm_spelling hyphen a (c ∷ s)) ≡ dm_room_id a (c ∷ s)
normalize_hyphen a c s ne la hc va vs =
    normalize_visible _ (dm_spelling-IsVisible hyphen a (c ∷ s) (omega arith) va vs)
    ∙ normalize_trimmed-hyphen a c s ne la hc

hyphen_of_user_id :
    (a b : Bytes)
    → IsUserId a
    → IsUserId b
    → Lacks hyphen a
    → Lacks hyphen b
    → normalize_room_id (dm_spelling hyphen a b) ≡ dm_room_id a b
hyphen_of_user_id a [] ha hb la lb = cc (hb.nonempty)
hyphen_of_user_id a (c ∷ s) ha hb la lb =
    normalize_hyphen a c s ha.nonempty la lb.0 ha.visible hb.visible

-- A canonical id of two user ids is left as it is.
pub normalize_canonical :
    (a b : Bytes) → IsUserId a → IsUserId b → normalize_room_id (dm_room_id a b) ≡ dm_room_id a b
normalize_canonical a b ha hb = elim (dm_room_id_cases a b) [
  | inl e ↦ ap normalize_room_id e ∙ normalize_colon a b ha hb
  | inr e ↦ ap normalize_room_id e ∙ normalize_colon b a hb ha ∙ dm_room_id_comm b a
]

-- For two user ids (visible, not empty, no colon) the colon spellings in both orders and the
-- canonical id itself normalise to the one canonical id.
pub normalize_spellings :
    (a b : Bytes)
    → IsUserId a
    → IsUserId b
    → (normalize_room_id (dm_spelling colon a b) ≡ dm_room_id a b)
      × (normalize_room_id (dm_spelling colon b a) ≡ dm_room_id a b)
      × (normalize_room_id (dm_room_id a b) ≡ dm_room_id a b)
normalize_spellings a b ha hb = (
  normalize_colon a b ha hb,
  normalize_colon b a hb ha ∙ dm_room_id_comm b a,
  normalize_canonical a b ha hb,
)

-- For two user ids (visible, not empty, no colon) that have no hyphen, the hyphen spellings in both
-- orders normalise to the same canonical id.
pub normalize_hyphen_spellings :
    (a b : Bytes)
    → IsUserId a
    → IsUserId b
    → Lacks hyphen a
    → Lacks hyphen b
    → (normalize_room_id (dm_spelling hyphen a b) ≡ dm_room_id a b)
      × (normalize_room_id (dm_spelling hyphen b a) ≡ dm_room_id a b)
normalize_hyphen_spellings a b ha hb la lb =
    (hyphen_of_user_id a b ha hb la lb, hyphen_of_user_id b a hb ha lb la ∙ dm_room_id_comm b a)

pub spelling_parts :
    (a b : Bytes)
    → Lacks colon a
    → Lacks colon b
    → split colon (dm_spelling colon a b) ≡ lit "dm" ∷ a ∷ b ∷ []
spelling_parts a b la lb =
    split_at colon (lit "dm") (a ++ colon ∷ b) (omega arith)
    ∙ ap (◌∷◌ (lit "dm")) (split_at colon a b la ∙ ap (◌∷◌ a) (split-Lacks colon b lb))

spelling_injective :
    (a b c d : Bytes)
    → Lacks colon a
    → Lacks colon b
    → Lacks colon c
    → Lacks colon d
    → dm_spelling colon a b ≡ dm_spelling colon c d
    → (a ≡ c) × (b ≡ d)
spelling_injective a b c d la lb lc ld e =
    let parts = sym (spelling_parts a b la lb) ∙ ap (split colon) e ∙ spelling_parts c d lc ld in
    (cc (parts), cc (parts))

-- Two rooms of pairs of ids without a colon have the same canonical id only if the pairs are the
-- same up to order.
pub dm_room_id_injective :
    (a b c d : Bytes)
    → Lacks colon a
    → Lacks colon b
    → Lacks colon c
    → Lacks colon d
    → dm_room_id a b ≡ dm_room_id c d
    → ((a ≡ c) × (b ≡ d)) ⊎ ((a ≡ d) × (b ≡ c))
dm_room_id_injective a b c d la lb lc ld e = elim (dm_room_id_cases a b) [
  | inl x ↦ elim (dm_room_id_cases c d) [
    | inl y ↦ inl (spelling_injective a b c d la lb lc ld (sym x ∙ e ∙ y))
    | inr y ↦ inr (spelling_injective a b d c la lb ld lc (sym x ∙ e ∙ y))
  ]
  | inr x ↦ elim (dm_room_id_cases c d) [
    | inl y ↦ let h = spelling_injective b a c d lb la lc ld (sym x ∙ e ∙ y) in inr (h.1, h.0)
    | inr y ↦ let h = spelling_injective b a d c lb la ld lc (sym x ∙ e ∙ y) in inl (h.1, h.0)
  ]
]
