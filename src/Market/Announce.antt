-- ===== src/Market/Announce.antt =====
-- service.py: the messages to the private channel, and the log of actions.
use aomarket_bot.Prelude.{ℕ, String, not, Option, none, some, str_eq, if◌then◌else◌}
use aomarket_bot.Prelude.Text.{str, spaces, ◌<>◌}
use aomarket_bot.Exec.{
  Error, Message, privgroup, tell, Action, pure, raise, lift, send, ◌>>=◌, ◌>>◌,
}
use aomarket_bot.SettingsRepo.{get_bool}
use aomarket_bot.MarketRepo
use aomarket_bot.Market.Env.{Env}

-- A message goes out when the callback returns.
unfoldable pub deliver : Message → Option Error → Action Unit
deliver m none = send m
deliver m (some e) = raise e

unfoldable pub call_privgroup : Option (String → Option Error) → String → Action Unit
unfolding deliver
call_privgroup none message = pure tt
call_privgroup (some callback) message = deliver (privgroup message) (callback message)

unfoldable pub call_tell : Option (String → String → Option Error) → String → String → Action Unit
unfolding deliver
call_tell none player message = pure tt
call_tell (some callback) player message = deliver (tell player message) (callback player message)

module _ (env : Env) where
  unfoldable pub send_privgroup : String → Action Unit
  unfolding call_privgroup
  send_privgroup message = call_privgroup env.chat.send_privgroup message

  unfoldable pub send_tell : String → String → Action Unit
  unfolding call_tell
  send_tell player message = call_tell env.chat.send_tell player message

  -- `suffix` in `announce`
  unfoldable pub suffix : Option ℕ → Action String
  unfolding ◌>>=◌
  suffix none = pure ""
  suffix (some aoid) = do
    item ← lift (env.get_item aoid)
    pure (elim item [ none ↦ " (AOID " <> str aoid <> ")" | some i ↦ " (" <> i.name <> ")" ])

  unfoldable pub announce : String → String → Option ℕ → Action Unit
  unfolding suffix send_privgroup ◌>>=◌
  announce player action aoid = do
    enabled ← get_bool "LogToPrivateChannel"
    if not enabled then pure tt else do
      shown ← suffix aoid
      send_privgroup (player <> " used market " <> spaces action <> shown)

  unfoldable pub announce_background : String → Action Unit
  unfolding send_privgroup ◌>>=◌
  announce_background message = do
    enabled ← get_bool "LogBackgroundToPrivateChannel"
    if not enabled then pure tt else send_privgroup ("Market: " <> message)

  unfoldable pub announce_tracked : String → String → Action Unit
  unfolding announce_background send_privgroup ◌>>=◌
  announce_tracked item_name source =
      if str_eq source "auto"
      then announce_background (item_name <> " added to auto-tracking")
      else do
        enabled ← get_bool "LogToPrivateChannel"
        if not enabled then pure tt else send_privgroup (item_name <> " added to tracking (manual)")

  unfoldable pub log_action : String → String → Option ℕ → Action Unit
  unfolding announce ◌>>=◌
  log_action player action aoid = do
    MarketRepo.log_action player action aoid
    announce player action aoid
