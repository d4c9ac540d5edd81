-- ===== src/Market/Dispatch/Reading.antt =====
-- The messages that change nothing.
use aomarket_bot.Prelude.{String, ◌≡◌, ◌⊎◌, inl, inr, refl, arith, Bool, true, false, some, List}
use aomarket_bot.Exec.{World, ok, ◌>>=◌}
use aomarket_bot.SettingsRepo.{get_bool}
use aomarket_bot.Market.Env.{Env}
use aomarket_bot.Market.Reads.{get_bool-Reads}
use aomarket_bot.Market.Commands.{Command, patterns, first_match}
use aomarket_bot.Market.Dispatch.{handle_command}
use aomarket_bot.Market.Dispatch.Kept.{may_change, handle_command-Kept}
use aomarket_bot.Auth.{AuthConfig}

both : {b : Bool} → b ≡ true → b ≡ false → ⊥
both h n = ground arith

-- A message changes nothing, in no table and on no chat channel, where the module is disabled, and
-- where it is no command that may write: a search, a status, a list, the look at a filter, the
-- usage text, or one of the four destructive commands without its confirmation.
pub handle_command-reads :
    (env : Env) (config : AuthConfig) (player random msg : String) (w : World)
    → ((get_bool "Enabled" w).0 ≡ ok false)
      ⊎ ((c : Command) (groups : List String)
          → first_match patterns msg ≡ some (c, groups)
          → may_change c groups ≡ false)
    → (handle_command env config player random msg w).1 ≡ w
unfolding handle_command ◌>>=◌
handle_command-reads env config player random msg w (inl disabled) =
    rw disabled ((get_bool-Reads (λ v. v ≡ w) "Enabled").run w refl)
handle_command-reads env config player random msg w (inr reads) =
    (handle_command-Kept (λ v. v ≡ w) env config player random msg
        (λ c groups e m. absurd (both m (reads c groups e)))
        (λ groups e y. absurd (both y (reads Command.untrack_all groups e)))).run
      w refl
