-- ===== src/Bot/Strangers.antt =====
-- The admin commands show themselves to admins only.
use aomarket_bot.Prelude.{ℕ, String, ◌≡◌, refl, false, Option, none, some, List}
use aomarket_bot.Exec.{World, ok, reply, ◌>>=◌}
use aomarket_bot.Market.Env.{Texts}
use aomarket_bot.Market.Announce.{deliver}
use aomarket_bot.Market.Dispatch.{handle_command}
use aomarket_bot.Auth.{AuthConfig}
use aomarket_bot.Auth.Admins.{is_admin_in, is_admin_player-in}
use aomarket_bot.Bot.Admin.{
  AdminCommand, admin_answer, admin_patterns, first_admin_match, handle_admin_command,
}
use aomarket_bot.Bot.Tells.{Bot, player_name, or_market, handle_tell}

admin_answer-none :
    (config : AuthConfig) (texts : Texts) (player : String)
    (found : Option (AdminCommand × List String)) (w : World)
    → is_admin_in config player w.db ≡ false
    → admin_answer config texts player found w ≡ (ok none, w)
unfolding admin_answer ◌>>=◌
admin_answer-none config texts player none w stranger = refl
admin_answer-none config texts player (some (c, groups)) w stranger =
    rw (is_admin_player-in config player w) (rw stranger refl)

handle_admin_command-none :
    (config : AuthConfig) (texts : Texts) (player msg : String) (w : World)
    → is_admin_in config player w.db ≡ false
    → handle_admin_command config texts player msg w ≡ (ok none, w)
unfolding handle_admin_command
handle_admin_command-none config texts player msg w stranger =
    admin_answer-none config texts player (first_admin_match admin_patterns msg) w stranger

-- To a sender who is no admin the bot answers any tell, admin commands included, as the market
-- command handler does, and does what that does, as if there were no admin commands.
pub handle_tell-stranger :
    (bot : Bot) (random : String) (char_id : ℕ) (message : String) (w : World)
    → is_admin_in bot.config (player_name (bot.name_for_id char_id) char_id) w.db ≡ false
    → handle_tell bot random char_id message w
      ≡ (handle_command bot.env bot.config
              (player_name (bot.name_for_id char_id) char_id)
              random
              message
            >>= λ text. deliver (reply char_id text) (bot.send_tell char_id text))
          w
unfolding handle_tell or_market ◌>>=◌
handle_tell-stranger bot random char_id message w stranger =
    rw
      (handle_admin_command-none bot.config bot.env.texts
        (player_name (bot.name_for_id char_id) char_id) message w stranger)
      refl
