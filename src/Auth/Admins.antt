-- ===== src/Auth/Admins.antt =====
-- Who counts as an admin, as a function of the tables.
use aomarket_bot.Prelude.{String, ◌≡◌, refl, Bool, not, ◌&&◌, ◌||◌, str_eq, Bool-cases, inl, inr}
use aomarket_bot.Prelude.Table.{find}
use aomarket_bot.Db.{Db, is_user}
use aomarket_bot.Exec.{World, ok, ◌>>=◌}
use aomarket_bot.MarketRepo
use aomarket_bot.Auth.{AuthConfig, admin_flag, is_admin_player}

-- The owner, or a player whose row says so
abbrev pub is_admin_in : AuthConfig → String → Db → Bool
is_admin_in config player db =
    (not (str_eq config.owner_character "") && str_eq player config.owner_character)
    || admin_flag config (find (is_user player) db.users)

pub is_admin_player-in :
    (config : AuthConfig) (player : String) (w : World)
    → is_admin_player config player w ≡ (ok (is_admin_in config player w.db), w)
unfolding is_admin_player MarketRepo.get_user ◌>>=◌
is_admin_player-in config player w =
    elim (Bool-cases
      (not (str_eq config.owner_character "") && str_eq player config.owner_character)) [
        | inl owner ↦ rw owner refl
        | inr other ↦ rw other refl
      ]
