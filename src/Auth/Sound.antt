-- ===== src/Auth/Sound.antt =====
-- The methods of auth/service.py keep the constraints of the tables.
use aomarket_bot.Prelude.{String, none, some}
use aomarket_bot.Db.{ApiKey}
use aomarket_bot.Exec.Keeps.{Keeps, Keeps-bind, Keeps-pure, keeps_rules}
use aomarket_bot.MarketRepo.Sound.{SoundWorld, repo_sound}
use aomarket_bot.ApiKeyRepo.Sound.{key_sound, get_by_hash-Sound}
use aomarket_bot.ApiKeyRepo.{get_by_hash}
use aomarket_bot.Auth.{
  AuthConfig, ensure_registered, generate_key, revoke_keys, list_keys, is_admin_player,
  principal_of, authenticate,
}

module _ (config : AuthConfig) where
  ensure_registered-Sound : (player : String) → Keeps SoundWorld (ensure_registered config player)
  unfolding ensure_registered
  ensure_registered-Sound player = search repo_sound

  pub generate_key-Sound :
      (random player : String) → Keeps SoundWorld (generate_key config random player)
  unfolding generate_key
  generate_key-Sound random player = search (repo_sound, key_sound, ensure_registered-Sound)

  pub revoke_keys-Sound : (player : String) → Keeps SoundWorld (revoke_keys config player)
  unfolding revoke_keys
  revoke_keys-Sound player = search key_sound

  pub list_keys-Sound : (player : String) → Keeps SoundWorld (list_keys config player)
  unfolding list_keys
  list_keys-Sound player = search key_sound

  is_admin_player-Sound : (player : String) → Keeps SoundWorld (is_admin_player config player)
  unfolding is_admin_player
  is_admin_player-Sound player = search repo_sound

  principal_of-Sound : (key : ApiKey) → Keeps SoundWorld (principal_of config key)
  unfolding principal_of
  principal_of-Sound key = search (keeps_rules, key_sound, is_admin_player-Sound)

  pub authenticate-Sound : (raw : String) → Keeps SoundWorld (authenticate config raw)
  unfolding authenticate
  authenticate-Sound raw =
      Keeps-bind (get_by_hash (config.hash raw)) _ (get_by_hash-Sound (config.hash raw))
        (elim [ none ↦ Keeps-pure none | some k ↦ principal_of-Sound k ])

pub ruleset auth_sound =
    (generate_key-Sound, revoke_keys-Sound, list_keys-Sound, authenticate-Sound)
