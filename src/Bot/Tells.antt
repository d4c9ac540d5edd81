-- ===== src/Bot/Tells.antt =====
-- src/aomarket/bot/runner.py: the handler of a tell.
use aomarket_bot.Prelude.{ℕ, String, Option, none, some, str_eq, if◌then◌else◌}
use aomarket_bot.Prelude.Text.{str}
use aomarket_bot.Exec.{Error, Action, pure, reply, ◌>>=◌}
use aomarket_bot.Market.Env.{Env}
use aomarket_bot.Market.Announce.{deliver}
use aomarket_bot.Market.Dispatch.{handle_command}
use aomarket_bot.Auth.{AuthConfig}
use aomarket_bot.Bot.Admin.{handle_admin_command}

-- What a `MarketBot` has of its chat client: the names it was told, and the sending of a tell,
-- which may raise.
pub record Bot : Type 0 where
  pub env : Env
  pub config : AuthConfig
  pub name_for_id : ℕ → Option String
  pub send_tell : ℕ → String → Option Error

-- `self.chat_client.name_for_id(char_id) or str(char_id)`
abbrev pub player_name : Option String → ℕ → String
player_name none char_id = str char_id
player_name (some name) char_id = if str_eq name "" then str char_id else name

module _ (bot : Bot) where
  -- `if reply is None`
  unfoldable pub or_market : String → String → String → Option String → Action String
  or_market random player message (some text) = pure text
  or_market random player message none = handle_command bot.env bot.config player random message

  unfoldable pub handle_tell : String → ℕ → String → Action Unit
  unfolding or_market deliver ◌>>=◌
  handle_tell random char_id message = do
    let player = player_name (bot.name_for_id char_id) char_id
    admin_reply ← handle_admin_command bot.config bot.env.texts player message
    text ← or_market random player message admin_reply
    deliver (reply char_id text) (bot.send_tell char_id text)
