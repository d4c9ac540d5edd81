-- ===== src/Market/Dispatch/Kept.antt =====
-- What a chat command keeps: all that the methods it may call keep.
use aomarket_bot.Prelude.{
  ℕ, String, ◌≡◌, refl, ap, Bool-cases, inl, inr, true, false, Bool, false, Option, none, some,
  List, [], ◌∷◌,
}
use aomarket_bot.Exec.{World, Action}
use aomarket_bot.Exec.Keeps.{
  Keeps, Keeps-bind, Keeps-if, Keeps-pure, Keeps-catch, Keeps-lift, keeps_rules,
}
use aomarket_bot.Market.Env.{Env, Item}
use aomarket_bot.Market.Players
use aomarket_bot.Market.Watching
use aomarket_bot.Market.Reads.{reads, get_bool-Reads}
use aomarket_bot.Market.Commands.{Command, patterns, first_match}
use aomarket_bot.Market.Dispatch.{overview_reply, dispatch, answer, handle_command}
use aomarket_bot.Market.Replies.{to_int, to_ints, confirmed, unless_confirmed}
use aomarket_bot.Auth.{AuthConfig}
use aomarket_bot.Auth

-- The methods that write, as a player's command or request calls them
pub record Writes (P : World → Type 0) (env : Env) (config : AuthConfig) (player : String)
    : Type 0 where
  pub register : Keeps P (Players.register env player)
  pub unregister : Keeps P (Players.unregister env player)
  pub generate_key : (random : String) → Keeps P (Auth.generate_key config random player)
  pub revoke_keys : Keeps P (Auth.revoke_keys config player)
  pub watch_item :
      (aoid : ℕ) (name : String) (ql : ℕ) (icon : Option ℕ)
      → Keeps P (Watching.watch_item env aoid name ql icon false)
  pub subscribe : (aoid : ℕ) → Keeps P (Watching.subscribe env player aoid)
  pub unsubscribe : (aoid : ℕ) → Keeps P (Watching.unsubscribe env player aoid)
  pub unsubscribe_bulk : (aoids : List ℕ) → Keeps P (Watching.unsubscribe_bulk env player aoids)
  pub unsubscribe_all : Keeps P (Watching.unsubscribe_all env player)
  pub set_price_filter :
      (aoid : ℕ) (spec : String) → Keeps P (Watching.set_price_filter env player aoid spec)
  pub set_ql_filter : (aoid : ℕ) (spec : String) → Keeps P (Watching.set_ql_filter player aoid spec)
  pub clear_filter : (aoid : ℕ) → Keeps P (Watching.clear_filter player aoid)

-- What a command may write: the reading commands nothing, and a command that asks to be confirmed
-- nothing before it is.
abbrev pub may_change : Command → List String → Bool
may_change Command.unregister groups = confirmed groups
may_change Command.untrack_all groups = confirmed groups
may_change Command.apikey_revoke groups = confirmed groups
may_change Command.unwatch_all groups = confirmed groups
may_change Command.apikey_list groups = false
may_change Command.status_details groups = false
may_change Command.status groups = false
may_change Command.watchlist groups = false
may_change Command.user_stats groups = false
may_change Command.filter_show groups = false
may_change Command.watch_search groups = false
may_change Command.search_ groups = false
may_change _ groups = true

module _ (P : World → Type 0) (env : Env) (config : AuthConfig) (player : String) where
  to_int-Kept : (s : String) → Keeps P (to_int s)
  unfolding to_int
  to_int-Kept s = search keeps_rules

  to_ints-Kept : (words : List (List ℕ)) → Keeps P (to_ints words)
  unfolding to_ints
  to_ints-Kept [] = search keeps_rules
  to_ints-Kept (w ∷ words) =
      Keeps-bind _ _ (Keeps-lift _)
        λ n. Keeps-bind _ _ (to_ints-Kept words) λ ns. Keeps-pure (n ∷ ns)

  confirmed-Kept :
      (groups : List String) (refusal : String) (act : Action String)
      → (confirmed groups ≡ true → Keeps P act)
      → Keeps P (unless_confirmed groups refusal act)
  confirmed-Kept groups refusal act k = elim (Bool-cases (confirmed groups)) [
    | inl yes_ ↦ rw yes_ (k yes_)
    | inr no_ ↦ rw no_ (Keeps-pure refusal)
  ]

  overview-Kept :
      Writes P env config player
      → (aoid : ℕ) (item : Option Item) → Keeps P (overview_reply env config player aoid item)
  unfolding overview_reply
  overview-Kept ws aoid none = search keeps_rules
  overview-Kept ws aoid (some item) = search (keeps_rules, ws.watch_item)

  ruleset base = (reads, to_int-Kept, to_ints-Kept)

  pub dispatch-Kept :
      (random : String) (c : Command) (groups : List String)
      → (may_change c groups ≡ true → Writes P env config player)
      → (c ≡ Command.untrack_all → confirmed groups ≡ true → Keeps P Watching.untrack_all)
      → Keeps P (dispatch env config player random c groups)
  unfolding dispatch
  dispatch-Kept random Command.register groups ws k = search (base, (ws refl).register)
  dispatch-Kept random Command.unregister groups ws k =
      confirmed-Kept groups _ _ λ y. search (base, (ws y).unregister)
  dispatch-Kept random Command.untrack_all groups ws k =
      confirmed-Kept groups _ _ λ y. search (base, k refl y)
  dispatch-Kept random Command.apikey_generate groups ws k = search (base, (ws refl).generate_key)
  dispatch-Kept random Command.apikey_revoke groups ws k =
      confirmed-Kept groups _ _ λ y. search (base, (ws y).revoke_keys)
  dispatch-Kept random Command.apikey_list groups ws k = search base
  dispatch-Kept random Command.status_details groups ws k = search base
  dispatch-Kept random Command.status groups ws k = search base
  dispatch-Kept random Command.watchlist groups ws k = search base
  dispatch-Kept random Command.user_stats groups ws k = search base
  dispatch-Kept random Command.filter_price groups ws k = search (base, (ws refl).set_price_filter)
  dispatch-Kept random Command.filter_ql groups ws k = search (base, (ws refl).set_ql_filter)
  dispatch-Kept random Command.filter_clear groups ws k = search (base, (ws refl).clear_filter)
  dispatch-Kept random Command.filter_show groups ws k = search base
  dispatch-Kept random Command.unwatch_all groups ws k =
      confirmed-Kept groups _ _ λ y. search (base, (ws y).unsubscribe_all)
  dispatch-Kept random Command.unwatch_bulk groups ws k = search (base, (ws refl).unsubscribe_bulk)
  dispatch-Kept random Command.unwatch groups ws k = search (base, (ws refl).unsubscribe)
  dispatch-Kept random Command.watch_aoid groups ws k = search (base, (ws refl).subscribe)
  dispatch-Kept random Command.watch_search groups ws k = search base
  dispatch-Kept random Command.overview groups ws k = search (base, overview-Kept (ws refl))
  dispatch-Kept random Command.search_ groups ws k = search base

  -- The methods have to keep it only where the message is a command that may write, and
  -- `untrack_all` only where it is that command.
  pub answer-Kept :
      (random : String) (found : Option (Command × List String))
      → ((c : Command) (groups : List String)
          → found ≡ some (c, groups)
          → may_change c groups ≡ true
          → Writes P env config player)
      → ((groups : List String)
          → found ≡ some (Command.untrack_all, groups)
          → confirmed groups ≡ true
          → Keeps P Watching.untrack_all)
      → Keeps P (answer env config player random found)
  unfolding answer
  answer-Kept random none ws k = search keeps_rules
  answer-Kept random (some (c, groups)) ws k = Keeps-catch _ _ (
      dispatch-Kept random c groups (ws c groups refl)
        (λ e. k groups (ap (λ d. some (d, groups)) e)))

  pub handle_command-Kept :
      (random msg : String)
      → ((c : Command) (groups : List String)
          → first_match patterns msg ≡ some (c, groups)
          → may_change c groups ≡ true
          → Writes P env config player)
      → ((groups : List String)
          → first_match patterns msg ≡ some (Command.untrack_all, groups)
          → confirmed groups ≡ true
          → Keeps P Watching.untrack_all)
      → Keeps P (handle_command env config player random msg)
  unfolding handle_command
  handle_command-Kept random msg ws k =
      Keeps-bind _ _ (get_bool-Reads P "Enabled") λ enabled.
        Keeps-if _ _ _ (Keeps-pure _) (answer-Kept random (first_match patterns msg) ws k)
