-- ===== src/Auth/WsGuard.antt =====
-- server/src/modules/auth/guards/ws-jwt.guard.ts, and `validateJwtUser` of
-- server/src/modules/auth/auth.service.ts. The JWT library is the parameter `verify`: the payload of
-- a token that is valid at a time. A text stands for its i18n key.
use bid_battle.Prelude.{false, ℕ, ◌/◌, String, Bool, Option, none, some, ltb, if◌then◌else◌}
use bid_battle.Entities.{User}
use bid_battle.Platform.Sockets.{AuthJwt, Client, extract_token}
use bid_battle.Platform.Effects.{
  Platform, Eff, Exception, pure, throw, try_catch, ◌>>=◌, ◌>>◌, ask_rows, ask_client,
  change_client, current_time,
}

-- `user.passwordChangedAt && payload.iat != null && payload.iat < passwordChangedAtSeconds`
abbrev pub is_outdated : AuthJwt → User → Bool
is_outdated payload user = elim user.password_changed_at [
  | none ↦ false
  | some changed ↦ elim payload.iat [ none ↦ false | some iat ↦ ltb iat (changed / 1000) ]
]

abbrev pub set_user : Option AuthJwt → Client → Client
set_user user c = record c { user = user }

module _ (P : Platform) (verify : String → ℕ → Option AuthJwt) where
  abbrev check_user : AuthJwt → Option User → Eff P User
  check_user payload none = throw (Exception.unauthorized "user.error.user_not_found")
  check_user payload (some user) =
      if is_outdated payload user
      then throw (Exception.unauthorized "auth.errors.token_invalidated_password_changed")
      else pure user

  unfoldable pub validate_jwt_user : AuthJwt → Eff P User
  validate_jwt_user payload = do
    found ← ask_rows (P.database.find_user payload.sub)
    check_user payload found

  -- a payload that is verified: the account is looked up, and the client is that user
  unfoldable pub accept_payload : Option AuthJwt → Eff P AuthJwt
  accept_payload none = throw (Exception.ws_exception "auth.errors.invalid_token")
  accept_payload (some payload) = do
    user ← validate_jwt_user payload
    change_client (set_user (some payload))
    pure payload

  unfoldable pub validate_token : Option String → Eff P AuthJwt
  validate_token none = throw (Exception.ws_exception "auth.errors.no_token")
  validate_token (some token) = do now ← current_time; accept_payload (verify token now)

  unfoldable pub validate_client : Eff P AuthJwt
  validate_client = do c ← ask_client; validate_token (extract_token c.authorization)

  abbrev activate_as : Option AuthJwt → Eff P (Unit {0})
  activate_as (some _) = pure tt
  activate_as none = do payload ← validate_client; pure tt

  unfoldable pub can_activate : Eff P (Unit {0})
  can_activate = do c ← ask_client; activate_as c.user

  unfoldable pub validate_optional : Eff P (Option AuthJwt)
  validate_optional = try_catch (do payload ← validate_client; pure (some payload)) (λ _. pure none)

  -- the user is forgotten when there is no token or it is not valid, but not when the account is
  -- gone or its password has changed
  abbrev revalidate_payload : Option AuthJwt → Eff P AuthJwt
  revalidate_payload none = do
    change_client (set_user none)
    throw (Exception.ws_exception "auth.errors.invalid_token")
  revalidate_payload (some payload) = accept_payload (some payload)

  unfoldable pub revalidate_token : Option String → Eff P AuthJwt
  revalidate_token none = do
    change_client (set_user none)
    throw (Exception.ws_exception "auth.errors.no_token")
  revalidate_token (some token) = do now ← current_time; revalidate_payload (verify token now)

  unfoldable pub revalidate_socket : Eff P AuthJwt
  revalidate_socket = do c ← ask_client; revalidate_token (extract_token c.authorization)
