-- ===== src/Auth.antt =====
-- src/aomarket/auth/service.py and src/aomarket/api/auth_deps.py: API keys, and who may write.
-- PBKDF2-HMAC-SHA256 under the configured pepper is the parameter `hash`; the random part of a
-- new token is an argument.
pub mod Sound
pub mod Keys
pub mod Gate
pub mod Admins
use aomarket_bot.Prelude.{
  ℕ, zero, suc, String, Bool, true, false, not, ◌&&◌, ◌||◌, Option, none, some, List, str_eq,
  if◌then◌else◌,
}
use aomarket_bot.Prelude.Text.{◌<>◌}
use aomarket_bot.Db.{MarketUser, ApiKey}
use aomarket_bot.Exec.{Action, pure, ◌>>=◌, ◌>>◌}
use aomarket_bot.MarketRepo
use aomarket_bot.ApiKeyRepo

pub record ApiKeyPrincipal : Type 0 where
  pub player : String
  pub is_admin : Bool

-- The fields of an `AuthService` that are no repository
pub record AuthConfig : Type 0 where
  pub owner_character : String
  pub hash : String → String

abbrev pub prefix_length : ℕ
prefix_length = 12

take_text : ℕ → String → String
take_text zero s = ""
take_text (suc n) String.[] = ""
take_text (suc n) (String.◌∷◌ c s) = String.◌∷◌ c (take_text n s)

-- `_prefix`
unfoldable pub prefix : String → String
unfolding take_text
prefix raw = take_text prefix_length raw

-- `_generate_token`
unfoldable pub generate_token : String → String
generate_token random = "aomk_" <> random

module _ (config : AuthConfig) where
  unfoldable pub ensure_registered : String → Action Unit
  unfolding ◌>>=◌
  ensure_registered player = do
    known ← MarketRepo.is_registered player
    if known then pure tt else MarketRepo.register player

  unfoldable pub generate_key : String → String → Action String
  unfolding ensure_registered ◌>>=◌
  generate_key random player = do
    ensure_registered player
    ApiKeyRepo.revoke_all_for_player player
    let raw = generate_token random
    ApiKeyRepo.create player (config.hash raw) (prefix raw)
    pure raw

  unfoldable pub revoke_keys : String → Action ℕ
  revoke_keys player = ApiKeyRepo.revoke_all_for_player player

  unfoldable pub list_keys : String → Action (List ApiKey)
  list_keys player = ApiKeyRepo.list_for_player player

  abbrev pub admin_flag : Option MarketUser → Bool
  admin_flag none = false
  admin_flag (some u) = u.is_admin

  unfoldable pub is_admin_player : String → Action Bool
  unfolding ◌>>=◌
  is_admin_player player =
      if not (str_eq config.owner_character "") && str_eq player config.owner_character
      then pure true
      else do user ← MarketRepo.get_user player; pure (admin_flag user)

  unfoldable pub principal_of : ApiKey → Action (Option ApiKeyPrincipal)
  unfolding is_admin_player ◌>>=◌
  principal_of key = do
    ApiKeyRepo.touch_last_used key.id
    is_admin ← is_admin_player key.player
    pure (some (record { player = key.player; is_admin = is_admin }))

  unfoldable pub authenticate : String → Action (Option ApiKeyPrincipal)
  unfolding principal_of ◌>>=◌
  authenticate raw_token = do
    key ← ApiKeyRepo.get_by_hash (config.hash raw_token)
    elim key [ none ↦ pure none | some k ↦ principal_of k ]

-- auth_deps.py: the answer of a dependency, a principal or an HTTP status.
pub data Access : Type 0 where
  granted : ApiKeyPrincipal → Access
  refused : ℕ → Access

module _ (config : AuthConfig) where
  -- `_authenticate`: a missing or empty header, and a key that is unknown or revoked
  unfoldable pub check_header : Option String → Action Access
  unfolding ◌>>=◌
  check_header none = pure (refused 401)
  check_header (some header) = if str_eq header "" then pure (refused 401) else do
    principal ← authenticate config header
    pure (elim principal [ none ↦ refused 401 | some p ↦ granted p ])

  abbrev pub admit : (ApiKeyPrincipal → Bool) → Access → Access
  admit allowed (refused status) = refused status
  admit allowed (granted p) = if allowed p then granted p else refused 403

  unfoldable pub require_admin_key : Option String → Action Access
  unfolding check_header ◌>>=◌
  require_admin_key header = do access ← check_header header; pure (admit (λ p. p.is_admin) access)

  -- `not principal.is_admin and principal.player != player` is refused.
  unfoldable pub require_player_key : String → Option String → Action Access
  unfolding check_header ◌>>=◌
  require_player_key player header = do
    access ← check_header header
    pure (admit (λ p. p.is_admin || str_eq p.player player) access)
