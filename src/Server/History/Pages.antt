-- ===== src/Server/History/Pages.antt =====
-- The pages that `GetMessages` returns.
use chat_service.RoomId.{normalize_room_id}
use chat_service.Proto.{ServerMessage}
use chat_service.Server.Calls.{Server, MessageStore}
use chat_service.Prelude.{
  ◌+◌, some, false, sym, ◌∙◌, ok, inr, inl, Bool-cases, length-take, [], refl, zero, ap, ◌∷◌,
  if◌then◌else◌, negsuc, suc, ◌≡◌, arith, take, pos, ltb, length, map, ◌<◌, ◌≤◌, List, ℤ, ℕ,
}
use chat_service.Server.History.{
  history_from, in_room, GetMessagesRequest, get_messages, page_limit,
}
use chat_service.Text.{is_empty, Bytes}

-- Whatever limit a request has, a page has room for at least one message and at most 200.
pub page_limit_bounds : (limit : ℤ) → (1 ≤ page_limit limit) × (page_limit limit ≤ 200)
unfolding page_limit
page_limit_bounds (pos n) = ground arith
page_limit_bounds (negsuc n) = omega arith

module _ {ℓ κ} {A : Type ℓ} {B : Type κ} (f : A → B) where
  length-map : (xs : List A) → length (map f xs) ≡ length xs
  length-map [] = refl
  length-map (x ∷ xs) = ap suc (length-map xs)

  pub map-take : (n : ℕ) (xs : List A) → map f (take n xs) ≡ take n (map f xs)
  map-take zero xs = refl
  map-take (suc n) [] = refl
  map-take (suc n) (x ∷ xs) = ap (◌∷◌ (f x)) (map-take n xs)

module _ {ℓ} {A : Type ℓ} where
  take_short : (n : ℕ) (xs : List A) → length xs ≤ n → take n xs ≡ xs
  take_short zero [] h = refl
  take_short zero (x ∷ xs) h = absurd (omega arith)
  take_short (suc n) [] h = refl
  take_short (suc n) (x ∷ xs) h = ap (◌∷◌ x) (take_short n xs (omega arith))

  take-take : (n : ℕ) (xs : List A) → take n (take (suc n) xs) ≡ take n xs
  take-take zero xs = refl
  take-take (suc n) [] = refl
  take-take (suc n) (x ∷ xs) = ap (◌∷◌ x) (take-take n xs)

  cut_has_more : (n : ℕ) (xs : List A) → ltb n (length (take (suc n) xs)) ≡ ltb n (length xs)
  cut_has_more n xs = ground (arith, length-take (suc n) xs)

  -- A page is cut from a list of one element more, which tells whether there are more.
  cut_page :
      (n : ℕ) (xs : List A)
      → (if ltb n (length (take (suc n) xs)) then take n (take (suc n) xs) else take (suc n) xs)
        ≡ take n xs
  cut_page n xs = rw (cut_has_more n xs) (elim (Bool-cases (ltb n (length xs))) [
    | inl e ↦ rw e (take-take n xs)
    | inr e ↦ rw e (take_short (suc n) xs (ground arith) ∙ sym (take_short n xs (ground arith)))
  ])

module _ {A : Type 0} (f : A → A) (n : ℕ) (xs : List A) where
  taken : map f (take (n + 1) xs) ≡ take (suc n) (map f xs)
  taken =
      ap (λ k. map f (take k xs)) (let e : n + 1 ≡ suc n = omega arith in e) ∙ map-take f (suc n) xs

  page_has_more : ltb n (length (map f (take (n + 1) xs))) ≡ ltb n (length xs)
  page_has_more =
      ap (λ l. ltb n (length l)) taken ∙ cut_has_more n (map f xs) ∙ ap (ltb n) (length-map f xs)

  page_messages :
      (if ltb n (length (map f (take (n + 1) xs)))
        then take n (map f (take (n + 1) xs))
        else map f (take (n + 1) xs))
      ≡ map f (take n xs)
  page_messages =
      ap (λ l. if ltb n (length l) then take n l else l) taken
      ∙ cut_page n (map f xs)
      ∙ sym (map-take f n xs)

-- The store answers with the newest messages of the room before the given time, as many as asked for;
-- GetMessages asks for at least one.
abbrev pub Answers : MessageStore → Bytes → ℤ → List ServerMessage → Type 0
Answers st room before history =
    (n : ℕ) → 0 < n → st.get_messages_before room before n ≡ ok (take n history)

-- Where the store answers each request for one message or more with that many of the messages
-- `history` of the canonical room, newest first, or all if there are fewer: the response is the first
-- `page_limit` of them, under the canonical room id, and it says that there are more exactly when
-- `history` is longer than the page limit.
pub get_messages_page :
    (s : Server) (st : MessageStore) (req : GetMessagesRequest) (history : List ServerMessage)
    → is_empty (normalize_room_id req.room_id) ≡ false
    → s.msg_repo ≡ some st
    → Answers st (normalize_room_id req.room_id) req.before_unix_ms history
    → (get_messages s req).0
      ≡ ok (record {
        messages =
            map (in_room (normalize_room_id req.room_id)) (take (page_limit req.limit) history);
        has_more = ltb (page_limit req.limit) (length history);
      })
unfolding get_messages
get_messages_page s st req history ne has ans =
    rw (ne, get_messages)
      (rw (has, history_from)
        (rw (ans (page_limit req.limit + 1) (omega arith)) (λ i. ok (record {
          messages =
              page_messages (in_room (normalize_room_id req.room_id)) (page_limit req.limit) history
                i;
          has_more =
              page_has_more (in_room (normalize_room_id req.room_id)) (page_limit req.limit) history
                i;
        }))))
