-- ===== src/Auth.antt =====
-- app/interceptors/auth.go: which calls reach a handler, and as which user. `jwt.Parse` is a parameter,
-- a function of the key function, the audience, the issuer, the methods and the token.
pub mod Cases
pub mod Tests
use chat_service.Server.Calls.{unauthenticated, Reply}
use chat_service.Prelude.{
  ◌∷◌, length, drop, ◌||◌, [], none, ok, some, err, not, List, if◌then◌else◌, Bool, Option,
}
use chat_service.Text.{is_empty, lit, has_prefix, Bytes}

-- metadata.FromIncomingContext and md.Get("authorization")
abbrev pub Metadata : Type 0
Metadata = Option (List Bytes)

-- exempt
unfoldable pub exempt : Bytes → Bool
exempt full_method =
    has_prefix full_method (lit "/grpc.health") || has_prefix full_method (lit "/grpc.reflection")

-- strings.TrimPrefix
unfoldable pub trim_prefix : Bytes → Bytes → Bytes
trim_prefix s prefix = if has_prefix s prefix then drop (length prefix) s else s

unfoldable pub token_of : Bytes → Reply Bytes
unfolding trim_prefix
token_of val =
    let raw = trim_prefix (trim_prefix val (lit "Bearer ")) (lit "bearer ") in
    if is_empty raw then err unauthenticated else ok raw

-- extractToken
unfoldable pub extract_token : Metadata → Reply Bytes
unfolding token_of
extract_token none = err unauthenticated
extract_token (some []) = err unauthenticated
extract_token (some (val ∷ vals)) = token_of val

pub record AuthInterceptor : Type 0 where
  pub public_key : Bytes
  pub audience : Bytes
  pub issuer : Bytes

-- jwt.Token: `Valid`, and `Claims` where they are MapClaims, of which only a text under "sub" is read
pub record Token : Type 0 where
  pub valid : Bool
  pub claims : Option (Option Bytes)

-- The key function gets whether the method of the token is an RSA method.
abbrev pub JwtParse : Type 0
JwtParse = (Bool → Option Bytes) → Bytes → Bytes → List Bytes → Bytes → Option Token

-- sub, _ := claims["sub"].(string)
abbrev pub or_no_user : Option Bytes → Bytes
or_no_user none = []
or_no_user (some sub) = sub

unfoldable pub subject : Bool → Option (Option Bytes) → Reply Bytes
subject valid none = err unauthenticated
subject valid (some sub) = if not valid then err unauthenticated else ok (or_no_user sub)

module _ (jwt_parse : JwtParse) (a : AuthInterceptor) where
  -- The key function of verify.
  unfoldable pub key_of : Bool → Option Bytes
  key_of is_rsa = if is_rsa then some a.public_key else none

  unfoldable pub verified : Option Token → Reply Bytes
  unfolding subject
  verified none = err unauthenticated
  verified (some t) = subject t.valid t.claims

  -- verify
  unfoldable pub verify : Bytes → Reply Bytes
  unfolding key_of verified
  verify token = verified (jwt_parse key_of a.audience a.issuer (lit "RS256" ∷ []) token)

  -- What an interceptor finds out: the user of the token.
  unfoldable pub authenticate : Metadata → Reply Bytes
  unfolding extract_token verify
  authenticate md = elim (extract_token md) [ ok token ↦ verify token | err e ↦ err e ]

  module _ {Request Response : Type 0} where
    -- UnaryServerInterceptor; the handler is given the user of its context, if there is one
    unfoldable pub unary_interceptor :
        Bytes → Metadata → (Option Bytes → Request → Reply Response) → Request → Reply Response
    unfolding authenticate exempt
    unary_interceptor full_method md handler req =
        if exempt full_method
        then handler none req
        else elim (authenticate md) [ ok user ↦ handler (some user) req | err e ↦ err e ]

    -- StreamServerInterceptor: the handler is given the stream with the user in its context
    unfoldable pub stream_interceptor :
        Bytes → Metadata → (Option Bytes → Request → Reply Response) → Request → Reply Response
    unfolding authenticate exempt
    stream_interceptor full_method md handler stream =
        if exempt full_method
        then handler none stream
        else elim (authenticate md) [ ok user ↦ handler (some user) stream | err e ↦ err e ]

-- UserIDFromContext
abbrev pub user_id_from_context : Option Bytes → Bytes
user_id_from_context none = []
user_id_from_context (some user) = user
