-- ===== src/Auth/Tests.antt =====
-- Calls with and without a token.
use chat_service.Server.Calls.{Reply}
use chat_service.Auth.Cases.{interceptors-Decided, Decided}
use chat_service.Auth.{
  or_no_user, AuthInterceptor, JwtParse, exempt, trim_prefix, user_id_from_context, token_of,
  stream_interceptor, verify, extract_token, authenticate, unary_interceptor, Metadata,
}
use chat_service.Prelude.{
  true, ◌&&◌, refl, [], ◌≡◌, ◌∷◌, ok, none, ◌++◌, some, ℕ, if◌then◌else◌, Option,
}
use chat_service.Text.{same, lit, has_prefix, Bytes}

-- A library that knows one token, for an RSA key.
abbrev jwt : JwtParse
jwt key audience issuer methods token =
    if same token (lit "t0k3n") && same (or_no_user (key true)) (lit "PEM")
    then some (record { valid = true; claims = some (some (lit "alice")) })
    else none

abbrev interceptor : AuthInterceptor
interceptor = record { public_key = lit "PEM"; audience = lit "graphql-api"; issuer = lit "ZPC" }

-- A handler that answers with its user.
abbrev who : Option Bytes → ℕ → Reply Bytes
who user req = ok (user_id_from_context user)

abbrev with_token : Metadata
with_token = some ((lit "Bearer " ++ lit "t0k3n") ∷ [])

called_as_alice :
    unary_interceptor jwt interceptor (lit "/chat.ChatService/SendMessage") with_token who 7
    ≡ ok (lit "alice")
unfolding unary_interceptor authenticate verify extract_token token_of trim_prefix exempt has_prefix
    same
called_as_alice = refl

interceptors-Decided_example :
    Decided jwt interceptor
      (lit "/chat.ChatService/SendMessage")
      with_token
      who
      7
      (unary_interceptor jwt interceptor (lit "/chat.ChatService/SendMessage") with_token who 7)
    × (stream_interceptor jwt interceptor (lit "/chat.ChatService/SendMessage") with_token who 7
        ≡ unary_interceptor jwt interceptor (lit "/chat.ChatService/SendMessage") with_token who 7)
interceptors-Decided_example =
    interceptors-Decided jwt interceptor (lit "/chat.ChatService/SendMessage") with_token who 7
