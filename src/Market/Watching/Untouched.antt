-- ===== src/Market/Watching/Untouched.antt =====
-- What the messages, the log, the settings and the upsert of an item leave alone in service.py: the
-- subscriptions and the clock.
use aomarket_bot.Prelude.{ℕ, String, ◌≡◌, Bool, Option, none, some, List}
use aomarket_bot.Prelude.Int.{ℤ}
use aomarket_bot.Db.{MarketSubscription}
use aomarket_bot.Exec.{World, Error, Message, send, ◌>>=◌}
use aomarket_bot.Exec.Keeps.{Keeps, Keeps-raise, Keeps-pure, keeps_rules}
use aomarket_bot.MarketRepo
use aomarket_bot.SettingsRepo.{get_bool, get_int, get, get_row}
use aomarket_bot.Market.Env.{Env}
use aomarket_bot.Market.Announce.{
  deliver, call_privgroup, send_privgroup, suffix, announce, announce_background, announce_tracked,
  log_action,
}
use aomarket_bot.Market.Watching.{watch_item}

-- What no message and no other table changes
module _ (subs : List MarketSubscription) (now : ℤ) where
  abbrev pub Same : World → Type 0
  Same w = (w.db.subscriptions ≡ subs) × (w.now ≡ now)

  send-Same : (m : Message) → Keeps Same (send m)
  unfolding ◌>>=◌
  send-Same m = record { run = λ w h. h }

  deliver-Same : (m : Message) (e : Option Error) → Keeps Same (deliver m e)
  unfolding deliver
  deliver-Same m none = send-Same m
  deliver-Same m (some e) = Keeps-raise e

  call_privgroup-Same :
      (callback : Option (String → Option Error)) (message : String)
      → Keeps Same (call_privgroup callback message)
  unfolding call_privgroup
  call_privgroup-Same none message = Keeps-pure tt
  call_privgroup-Same (some f) message = deliver-Same _ (f message)

  get_row-Same : (key : String) → Keeps Same (get_row key)
  unfolding get_row
  get_row-Same key = search keeps_rules

  get-Same : (key : String) → Keeps Same (get key)
  unfolding get
  get-Same key = search (keeps_rules, get_row-Same)

  get_bool-Same : (key : String) → Keeps Same (get_bool key)
  unfolding get_bool
  get_bool-Same key = search (keeps_rules, get-Same)

  pub get_int-Same : (key : String) → Keeps Same (get_int key)
  unfolding get_int
  get_int-Same key = search (keeps_rules, get-Same)

  log_row-Same :
      (player action : String) (aoid : Option ℕ)
      → Keeps Same (MarketRepo.log_action player action aoid)
  unfolding MarketRepo.log_action ◌>>=◌
  log_row-Same player action aoid = record { run = λ w h. h }

  upsert_watch-Same :
      (aoid : ℕ) (name : String) (ql : ℕ) (icon : Option ℕ) (auto : Bool)
      → Keeps Same (MarketRepo.upsert_watch aoid name ql icon auto)
  unfolding MarketRepo.upsert_watch ◌>>=◌
  upsert_watch-Same aoid name ql icon auto = record { run = λ w h. h }

  ruleset same_base = (
    keeps_rules, call_privgroup-Same, get_bool-Same, get_int-Same, log_row-Same, upsert_watch-Same,
  )

  module _ (env : Env) where
    send_privgroup-Same : (message : String) → Keeps Same (send_privgroup env message)
    unfolding send_privgroup
    send_privgroup-Same message = search same_base

    suffix-Same : (aoid : Option ℕ) → Keeps Same (suffix env aoid)
    unfolding suffix
    suffix-Same none = search same_base
    suffix-Same (some a) = search same_base

    announce-Same :
        (player action : String) (aoid : Option ℕ) → Keeps Same (announce env player action aoid)
    unfolding announce
    announce-Same player action aoid = search (same_base, suffix-Same) depth 8

    announce_background-Same : (message : String) → Keeps Same (announce_background env message)
    unfolding announce_background
    announce_background-Same message = search same_base

    announce_tracked-Same : (name source : String) → Keeps Same (announce_tracked env name source)
    unfolding announce_tracked
    announce_tracked-Same name source = search (same_base, announce_background-Same)

    pub log_action-Same :
        (player action : String) (aoid : Option ℕ) → Keeps Same (log_action env player action aoid)
    unfolding log_action
    log_action-Same player action aoid = search (same_base, announce-Same)

    pub watch_item-Same :
        (aoid : ℕ) (name : String) (ql : ℕ) (icon : Option ℕ) (auto : Bool)
        → Keeps Same (watch_item env aoid name ql icon auto)
    unfolding watch_item
    watch_item-Same aoid name ql icon auto = search (same_base, announce_tracked-Same)
