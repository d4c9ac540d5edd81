-- ===== src/Market/Dispatch/Isolation.antt =====
-- A player's commands leave the rows of other players alone.
use aomarket_bot.Prelude.{ℕ, String, ◌≢◌, refl, Bool, false, Option, none, some, List, [], ◌∷◌}
use aomarket_bot.Prelude.Table.{select}
use aomarket_bot.Db.{MarketSubscription, ApiKey}
use aomarket_bot.Exec.{World, Error, Message, Action, Result}
use aomarket_bot.Exec.Keeps.{Keeps, Keeps-bind, Keeps-lift, Keeps-pure, Keeps-raise}
use aomarket_bot.Market.Env.{Env, Item}
use aomarket_bot.Market.Parsing.{Range}
use aomarket_bot.Market.Announce.{
  deliver, call_privgroup, send_privgroup, suffix, announce, announce_background, announce_tracked,
  log_action,
}
use aomarket_bot.Market.Players
use aomarket_bot.Market.Watching
use aomarket_bot.Market.Watching.{sorted_set}
use aomarket_bot.Market.Reads.{reads, require_subscription-Reads}
use aomarket_bot.Market.Commands.{Command, patterns, first_match}
use aomarket_bot.Market.Dispatch.{handle_command}
use aomarket_bot.Market.Dispatch.Kept.{Writes, handle_command-Kept}
use aomarket_bot.Market.Dispatch.Others.{
  is_other, is_other_key, Others, others_base, send-Others, update_price_filter-Others,
  update_ql_filter-Others, delete_subscription-Others,
}
use aomarket_bot.Auth.{AuthConfig}
use aomarket_bot.Auth

module _ (player : String) (subs : List MarketSubscription) (keys : List ApiKey) (env : Env) where
  abbrev P : World → Type 0
  P = Others player subs keys

  deliver-Others : (m : Message) (e : Option Error) → Keeps P (deliver m e)
  unfolding deliver
  deliver-Others m none = send-Others player subs keys m
  deliver-Others m (some e) = Keeps-raise e

  call_privgroup-Others :
      (callback : Option (String → Option Error)) (message : String)
      → Keeps P (call_privgroup callback message)
  unfolding call_privgroup
  call_privgroup-Others none message = Keeps-pure tt
  call_privgroup-Others (some f) message = deliver-Others _ (f message)

  ruleset base = (reads, others_base, call_privgroup-Others)

  send_privgroup-Others : (message : String) → Keeps P (send_privgroup env message)
  unfolding send_privgroup
  send_privgroup-Others message = search base

  suffix-Others : (aoid : Option ℕ) → Keeps P (suffix env aoid)
  unfolding suffix
  suffix-Others none = search base
  suffix-Others (some a) = search base

  announce-Others : (p action : String) (aoid : Option ℕ) → Keeps P (announce env p action aoid)
  unfolding announce
  announce-Others p action aoid = search (base, suffix-Others) depth 8

  announce_background-Others : (message : String) → Keeps P (announce_background env message)
  unfolding announce_background
  announce_background-Others message = search base

  announce_tracked-Others : (name source : String) → Keeps P (announce_tracked env name source)
  unfolding announce_tracked
  announce_tracked-Others name source = search (base, announce_background-Others)

  log_action-Others : (p action : String) (aoid : Option ℕ) → Keeps P (log_action env p action aoid)
  unfolding log_action
  log_action-Others p action aoid = search (base, announce-Others)

  ruleset logged = (base, announce-Others, log_action-Others)

  register-Others : Keeps P (Players.register env player)
  unfolding Players.register
  register-Others = search logged

  unregister-Others : Keeps P (Players.unregister env player)
  unfolding Players.unregister
  unregister-Others = search logged

  pub watch_item-Others :
      (aoid : ℕ) (name : String) (ql : ℕ) (icon : Option ℕ) (auto : Bool)
      → Keeps P (Watching.watch_item env aoid name ql icon auto)
  unfolding Watching.watch_item
  watch_item-Others aoid name ql icon auto = search (base, announce_tracked-Others)

  denied-Others : (p : String) (aoid : ℕ) → Keeps P (Watching.denied env p aoid)
  unfolding Watching.denied
  denied-Others p aoid = search logged

  subscribe_item-Others :
      (aoid : ℕ) (item : Option Item) → Keeps P (Watching.subscribe_item env player aoid item)
  unfolding Watching.subscribe_item
  subscribe_item-Others aoid none = search base
  subscribe_item-Others aoid (some item) =
      search (logged, denied-Others, watch_item-Others) depth 14

  subscribe-Others : (aoid : ℕ) → Keeps P (Watching.subscribe env player aoid)
  unfolding Watching.subscribe
  subscribe-Others aoid = search (base, subscribe_item-Others)

  unsubscribe-Others : (aoid : ℕ) → Keeps P (Watching.unsubscribe env player aoid)
  unfolding Watching.unsubscribe
  unsubscribe-Others aoid = search logged

  unsubscribe_each-Others : (aoids : List ℕ) → Keeps P (Watching.unsubscribe_each env player aoids)
  unfolding Watching.unsubscribe_each
  unsubscribe_each-Others [] = Keeps-pure ([], [])
  unsubscribe_each-Others (a ∷ rest) =
      Keeps-bind _ _ (delete_subscription-Others player subs keys a) λ deleted.
        Keeps-bind _ _ (log_action-Others player "unwatch" (some a))
          λ _. Keeps-bind _ _ (unsubscribe_each-Others rest) λ r. Keeps-pure _

  unsubscribe_bulk-Others : (aoids : List ℕ) → Keeps P (Watching.unsubscribe_bulk env player aoids)
  unfolding Watching.unsubscribe_bulk
  unsubscribe_bulk-Others aoids = unsubscribe_each-Others (sorted_set aoids)

  unsubscribe_all-Others : Keeps P (Watching.unsubscribe_all env player)
  unfolding Watching.unsubscribe_all
  unsubscribe_all-Others = search logged

  store_range-Others :
      (spec : String) (store : Option ℕ → Option ℕ → Action Unit)
      → ((lo hi : Option ℕ) → Keeps P (store lo hi))
      → (range : Option Range) → Keeps P (Watching.store_range spec store range)
  unfolding Watching.store_range
  store_range-Others spec store k none = search base
  store_range-Others spec store k (some (lo, hi)) = k lo hi

  set_range-Others :
      (aoid : ℕ) (spec : String) (parsed : Result (Option Range))
      (store : Option ℕ → Option ℕ → Action Unit)
      → ((lo hi : Option ℕ) → Keeps P (store lo hi))
      → Keeps P (Watching.set_range player aoid spec parsed store)
  unfolding Watching.set_range
  set_range-Others aoid spec parsed store k =
      Keeps-bind _ _ (require_subscription-Reads P player aoid)
        λ _. Keeps-bind _ _ (Keeps-lift parsed) λ range. store_range-Others spec store k range

  set_price_filter-Others :
      (aoid : ℕ) (spec : String) → Keeps P (Watching.set_price_filter env player aoid spec)
  unfolding Watching.set_price_filter
  set_price_filter-Others aoid spec =
      set_range-Others aoid spec _ _ (update_price_filter-Others player subs keys aoid)

  set_ql_filter-Others :
      (aoid : ℕ) (spec : String) → Keeps P (Watching.set_ql_filter player aoid spec)
  unfolding Watching.set_ql_filter
  set_ql_filter-Others aoid spec =
      set_range-Others aoid spec _ _ (update_ql_filter-Others player subs keys aoid)

  clear_filter-Others : (aoid : ℕ) → Keeps P (Watching.clear_filter player aoid)
  unfolding Watching.clear_filter
  clear_filter-Others aoid = search base

  module _ (config : AuthConfig) where
    ensure_registered-Others : Keeps P (Auth.ensure_registered config player)
    unfolding Auth.ensure_registered
    ensure_registered-Others = search base

    generate_key-Others : (random : String) → Keeps P (Auth.generate_key config random player)
    unfolding Auth.generate_key
    generate_key-Others random = search (base, ensure_registered-Others)

    revoke_keys-Others : Keeps P (Auth.revoke_keys config player)
    unfolding Auth.revoke_keys
    revoke_keys-Others = search base

    pub Writes-Others : Writes P env config player
    Writes-Others = record {
      register = register-Others;
      unregister = unregister-Others;
      generate_key = generate_key-Others;
      revoke_keys = revoke_keys-Others;
      watch_item = λ aoid name ql icon. watch_item-Others aoid name ql icon false;
      subscribe = subscribe-Others;
      unsubscribe = unsubscribe-Others;
      unsubscribe_bulk = unsubscribe_bulk-Others;
      unsubscribe_all = unsubscribe_all-Others;
      set_price_filter = set_price_filter-Others;
      set_ql_filter = set_ql_filter-Others;
      clear_filter = clear_filter-Others;
    }

-- A chat message that is not the command `untrack all`, whatever it says and whether the command
-- returns or raises, leaves the subscriptions of every other player, with their filters, and the
-- API keys of every other player as they were.
pub handle_command-Others :
    (env : Env) (config : AuthConfig) (player random msg : String) (w : World)
    → ((groups : List String) → first_match patterns msg ≢ some (Command.untrack_all, groups))
    → Others player
        (select (is_other player) w.db.subscriptions)
        (select (is_other_key player) w.db.api_keys)
        (handle_command env config player random msg w).1
handle_command-Others env config player random msg w other =
    (handle_command-Kept (Others player _ _) env config player random msg
        (λ c groups e m. Writes-Others player _ _ env config)
        (λ groups e y. absurd (other groups e))).run
      w (refl, refl)
