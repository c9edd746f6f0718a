-- ===== src/Auth/Cases.antt =====
-- When a call reaches its handler.
use chat_service.Server.Calls.{unauthenticated, Reply}
use chat_service.Auth.{
  verified, subject, or_no_user, key_of, Token, AuthInterceptor, JwtParse, exempt, trim_prefix,
  stream_interceptor, unary_interceptor, authenticate, token_of, verify, Metadata, extract_token,
}
use chat_service.Prelude.{
  ap, ◌∙◌, sym, Bool, subst, if◌then◌else◌, [], refl, inl, inr, Bool-cases, ◌∷◌, false, err, none,
  ◌⊎◌, List, true, some, ok, ◌≡◌, ◌++◌, Option,
}
use chat_service.Text.{lit, is_empty, has_prefix, Bytes}

module _ (jwt_parse : JwtParse) (a : AuthInterceptor) where
  -- What `jwt.Parse` answers for a token.
  abbrev pub parsed : Bytes → Option Token
  parsed token =
      jwt_parse (λ is_rsa. if is_rsa then some a.public_key else none) a.audience a.issuer
        (lit "RS256" ∷ []) token

  -- The jwt library accepts the token as one of the user: as signed by RS256 with the key of the
  -- interceptor, for its audience and from its issuer. A token without a text under "sub" is one of
  -- the empty user.
  abbrev pub Accepted : Option Token → Bytes → Type 0
  Accepted answer user =
      (t : Token) × (sub : Option Bytes) × (answer ≡ some t)
      × (t.valid ≡ true)
      × (t.claims ≡ some sub)
      × (user ≡ or_no_user sub)

  -- The call has a token, which the jwt library accepts as one of the user.
  abbrev pub Authenticated : Metadata → Bytes → Type 0
  Authenticated md user =
      (token : Bytes) × (extract_token md ≡ ok token) × Accepted (parsed token) user

  -- No token of the call is accepted, as one of any user.
  abbrev pub Unknown : Metadata → Type 0
  Unknown md = (user : Bytes) → ¬ Authenticated md user

  subject_cases :
      (valid : Bool) (claims : Option (Option Bytes))
      → ((sub : Option Bytes) × (valid ≡ true)
          × (claims ≡ some sub)
          × (subject valid claims ≡ ok (or_no_user sub)))
        ⊎ (((sub : Option Bytes) → valid ≡ true → ¬ (claims ≡ some sub))
            × (subject valid claims ≡ err unauthenticated))
  unfolding subject
  subject_cases valid none = inr (λ sub v. λ h. cc, refl)
  subject_cases true (some sub) = inl (sub, refl, refl, refl)
  subject_cases false (some sub) = inr (λ s v. λ h. cc, refl)

  only_some : {t u : Token} → Path (Option Token) (some t) (some u) → t ≡ u
  only_some h = cc

  verified_cases :
      (answer : Option Token)
      → ((user : Bytes) × Accepted answer user × (verified jwt_parse a answer ≡ ok user))
        ⊎ (((user : Bytes) → ¬ Accepted answer user)
            × (verified jwt_parse a answer ≡ err unauthenticated))
  unfolding verified
  verified_cases none = inr (λ user (t, sub, e, v, c, u). cc, refl)
  verified_cases (some t) = elim (subject_cases t.valid t.claims) [
    | inl (sub, v, c, q) ↦ inl (or_no_user sub, (t, sub, refl, v, c, refl), q)
    | inr (none_such, q) ↦ inr (
      λ user (u, sub, e, v, c, w).
          let same_token : t ≡ u = only_some e in
          none_such sub (ap (λ x. x.valid) same_token ∙ v) (ap (λ x. x.claims) same_token ∙ c),
      q,
    )
  ]

  verify_cases :
      (token : Bytes)
      → ((user : Bytes) × Accepted (parsed token) user × (verify jwt_parse a token ≡ ok user))
        ⊎ (((user : Bytes) → ¬ Accepted (parsed token) user)
            × (verify jwt_parse a token ≡ err unauthenticated))
  unfolding verify key_of
  verify_cases token = verified_cases (parsed token)

  token_of_cases :
      (val : Bytes) → ((t : Bytes) × (token_of val ≡ ok t)) ⊎ (token_of val ≡ err unauthenticated)
  unfolding token_of
  token_of_cases val =
      elim (Bool-cases (is_empty (trim_prefix (trim_prefix val (lit "Bearer ")) (lit "bearer ")))) [
        | inl e ↦ inr (rw e refl)
        | inr e ↦ inl (trim_prefix (trim_prefix val (lit "Bearer ")) (lit "bearer "), rw e refl)
      ]

  extract_token_cases :
      (md : Metadata)
      → ((t : Bytes) × (extract_token md ≡ ok t)) ⊎ (extract_token md ≡ err unauthenticated)
  unfolding extract_token
  extract_token_cases none = inr refl
  extract_token_cases (some []) = inr refl
  extract_token_cases (some (val ∷ vals)) = token_of_cases val

  only_token : {t u : Bytes} → Path (Reply Bytes) (ok t) (ok u) → t ≡ u
  only_token h = cc

  authenticate_cases :
      (md : Metadata)
      → ((user : Bytes) × Authenticated md user × (authenticate jwt_parse a md ≡ ok user))
        ⊎ (Unknown md × (authenticate jwt_parse a md ≡ err unauthenticated))
  unfolding authenticate
  authenticate_cases md = elim (extract_token_cases md) [
    | inl (t, e) ↦ elim (verify_cases t) [
      | inl (user, p, q) ↦ inl (user, (t, e, p), rw (e, authenticate) q)
      | inr (none_such, q) ↦ inr (
        λ user (u, e', p).
            none_such user (subst (λ k. Accepted (parsed k) user) (only_token (sym e' ∙ e)) p),
        rw (e, authenticate) q,
      )
    ]
    | inr e ↦ inr (λ user (u, e', p). cc (e, e'), rw (e, authenticate) refl)
  ]

  module _ {Request Response : Type 0} where
    -- What becomes of a call: an exempt one reaches its handler without a user, one with an accepted
    -- token reaches it as the token's user, and one without is refused as unauthenticated.
    abbrev pub Decided :
        Bytes
        → Metadata
        → (Option Bytes → Request → Reply Response)
        → Request
        → Reply Response
        → Type 0
    Decided full_method md handler req reply =
        ((exempt full_method ≡ true) × (reply ≡ handler none req))
        ⊎ (((exempt full_method ≡ false)
              × ((user : Bytes) × Authenticated md user × (reply ≡ handler (some user) req)))
            ⊎ ((exempt full_method ≡ false) × Unknown md × (reply ≡ err unauthenticated)))

    -- For every call: the unary and the stream interceptor let a call of a health check or of the
    -- reflection service through without a user, one with a token that the jwt library accepts as the
    -- user of that token, and refuse the others, those with no such token, without calling the handler;
    -- they decide alike.
    pub interceptors-Decided :
        (full_method : Bytes) (md : Metadata) (handler : Option Bytes → Request → Reply Response)
        (req : Request)
        → Decided full_method md handler req
            (unary_interceptor jwt_parse a full_method md handler req)
          × (stream_interceptor jwt_parse a full_method md handler req
              ≡ unary_interceptor jwt_parse a full_method md handler req)
    unfolding unary_interceptor stream_interceptor
    interceptors-Decided full_method md handler req =
        (decided (Bool-cases (exempt full_method)) (authenticate_cases md), refl)
      where
        decided :
            (exempt full_method ≡ true) ⊎ (exempt full_method ≡ false)
            → ((user : Bytes) × Authenticated md user × (authenticate jwt_parse a md ≡ ok user))
              ⊎ (Unknown md × (authenticate jwt_parse a md ≡ err unauthenticated))
            → Decided full_method md handler req
                (unary_interceptor jwt_parse a full_method md handler req)
        decided (inl e) c = inl (e, rw (e, unary_interceptor) refl)
        decided (inr e) (inl (user, p, q)) =
            inr (inl (e, (user, p, rw (e, q, unary_interceptor) refl)))
        decided (inr e) (inr (none_such, q)) =
            inr (inr (e, none_such, rw (e, q, unary_interceptor) refl))

-- A token that is not empty and does not begin with "bearer " itself is read back from its header.
pub extract_token-bearer :
    (token : Bytes) (vals : List Bytes)
    → is_empty token ≡ false
    → has_prefix token (lit "bearer ") ≡ false
    → extract_token (some ((lit "Bearer " ++ token) ∷ vals)) ≡ ok token
unfolding extract_token token_of trim_prefix has_prefix
extract_token-bearer token vals ne np = rw (np, ne) refl
