-- ===== src/Wiring/Started.antt =====
-- What holds of a process that `main` of cmd/server/main.go has started.
use chat_service.Rooms.Stored.{ok_same}
use chat_service.Prelude.{
  ◌∙◌, ◌&&◌, inr, not, inl, Bool, ap, false, ◌⊎◌, true, refl, sym, ℤ, none, some, ok, ◌≡◌, Option,
}
use chat_service.Wiring.{
  Process, World, main, new_auth_interceptor, process, with_settings, with_storage, wire_storage,
  StorageKind,
}
use chat_service.Config.{Config, Env, addr}
use chat_service.Config.Load.{Invalid, file_config, load}
use chat_service.Config.Loaded.{IsPort, load-IsPort, load-jwt_disabled}
use chat_service.Text.{Bytes, lit}

module _ (w : World) (dotenv : Env → Env) (read_file : Bytes → Option Bytes)
    (unmarshal : Bytes → Config → Config) where
  storage_found :
      (env : Env) (c : Config) (o : Option StorageKind) (p : Process)
      → with_storage w env c o ≡ ok p
      → (storage : StorageKind) × (p ≡ process w env c storage)
  storage_found env c none p h = cc
  storage_found env c (some storage) p h = (storage, sym (ok_same h))

  settings_valid :
      (env : Env) (x : Config × Option Invalid) (p : Process)
      → with_settings w env x ≡ ok p
      → (x.1 ≡ none) × ((storage : StorageKind) × (p ≡ process w env x.0 storage))
  settings_valid env (c, some e) p h = cc
  settings_valid env (c, none) p h = (refl, storage_found env c (wire_storage w c) p h)

  auth_cases :
      (disabled started : Bool)
      → (disabled ≡ true) ⊎ (started ≡ false) ⊎ (not disabled && started ≡ true)
  auth_cases true started = inl refl
  auth_cases false false = inr (inl refl)
  auth_cases false true = inr (inr refl)

  -- A process that main has started has a port from 1 to 65535, and it authenticates its callers
  -- unless the settings file or JWT_DISABLED switches that off, or the key cannot be loaded.
  pub main-authenticates :
      (env : Env) (p : Process)
      → main w dotenv read_file unmarshal env ≡ ok p
      → ((port : ℤ) × IsPort port × (p.address ≡ addr port))
        × ((p.authenticates ≡ true)
            ⊎ ((file_config dotenv read_file unmarshal env).jwt_disabled ≡ true)
            ⊎ (dotenv env (lit "JWT_DISABLED") ≡ lit "true")
            ⊎ (new_auth_interceptor w (load dotenv read_file unmarshal env).0 ≡ false))
  unfolding main process
  main-authenticates env p h =
      let x = load dotenv read_file unmarshal env in
      let (valid, rest) = settings_valid (dotenv env) x p h in
      let (storage, e) = rest in
      let from = ap (λ y. y.authenticates) e in
      (
        (x.0.port, (load-IsPort dotenv read_file unmarshal env).0 valid, ap (λ y. y.address) e),
        elim (auth_cases x.0.jwt_disabled (new_auth_interceptor w x.0)) [
          | inl off ↦ elim (load-jwt_disabled dotenv read_file unmarshal env off) [
            | inl a ↦ inr (inl a)
            | inr b ↦ inr (inr (inl b))
          ]
          | inr (inl no_key) ↦ inr (inr (inr no_key))
          | inr (inr checked) ↦ inl (from ∙ checked)
        ],
      )
