-- ===== src/Market/Dispatch.antt =====
-- src/aomarket/market/commands.py: what each command calls, the reply, and the text of an error.
pub mod Kept
pub mod Others
pub mod Isolation
pub mod Errors
pub mod Reading
use aomarket_bot.Prelude.{
  ℕ, String, Bool, true, false, not, ◌&&◌, ◌||◌, Option, none, some, List, [], ◌∷◌, ◌++◌, map,
  length, ◌==◌, str_eq, is_some, if◌then◌else◌,
}
use aomarket_bot.Prelude.Int.{pos}
use aomarket_bot.Prelude.Text.{codes, str, str_ℤ, strip_text, join, ◌<>◌}
use aomarket_bot.Db.{ApiKey, MarketSubscription}
use aomarket_bot.Exec.{
  is_market_error, Error, ok, err, Action, pure, lift, value_error, catch, ◌>>=◌, ◌>>◌,
}
use aomarket_bot.Regex.{lower_equal}
use aomarket_bot.SettingsRepo.{get_bool}
use aomarket_bot.Market.Env.{Env, Item, Texts}
use aomarket_bot.Market.Parsing.{decimal_value}
use aomarket_bot.Market.Players
use aomarket_bot.Market.Watching
use aomarket_bot.Market.Rendering.{
  render_search_results, render_overview, filter_of, render_watchlist, render_status_summary,
  render_user_stats,
}
use aomarket_bot.Market.Commands.{Command, is_separator, patterns, first_match}
use aomarket_bot.Market.Commands
use aomarket_bot.Auth.{AuthConfig}
use aomarket_bot.Auth
use aomarket_bot.Market.Replies.{
  group1, group2, confirmed, to_int, add_char, new_word, split_words, to_ints, unless_confirmed,
  key_line, key_list, numbers, stopped, missing,
}

-- The whole `if name == ...` chain, a function for each command that does more than one call
module _ (env : Env) (config : AuthConfig) (player : String) where
  abbrev pub filter_reply : String → ℕ → Action String
  filter_reply start aoid = do
    sub ← Watching.get_filter player aoid
    pure (start <> filter_of env.floats sub)

  abbrev pub stats_reply : String → Option Players.UserStats → String
  stats_reply target none = target <> " has no recorded Market activity."
  stats_reply target (some stats) = render_user_stats target stats

  abbrev pub or_player : String → String
  or_player target = if str_eq target "" then player else target

  abbrev pub search_reply : String → Action String
  search_reply keywords = do
    (items, total) ← lift (env.search_items (strip_text keywords) none (pos 50) (pos 0))
    pure (render_search_results items)

  unfoldable pub overview_reply : ℕ → Option Item → Action String
  unfolding ◌>>=◌
  overview_reply aoid none =
      pure ("Unknown item ID " <> str aoid <> ". Try 'market <item name>' to search first.")
  overview_reply aoid (some item) = do
    Watching.watch_item env aoid item.name item.ql item.icon false
    pure (render_overview env.floats item.name aoid item.ql (env.get_orders aoid))

  abbrev pub key_reply : String → String
  key_reply raw =
      "Your new API key: " <> raw <> "\nSave this now - it will not be shown again. Send it as the "
      <> "X-Api-Key header on write requests to your own /players/" <> player
      <> "/... endpoints. Generating a new key revokes any previous one."

  -- `_dispatch`; `random` is what `token_urlsafe` gives to a new key.
  unfoldable pub dispatch : String → Command → List String → Action String
  unfolding to_int to_ints overview_reply join ◌>>=◌
  dispatch random Command.register groups = do
    Players.register env player
    pure "You're registered with the Market module. Try 'market watch <item>' to build a watchlist."
  dispatch random Command.unregister groups =
      unless_confirmed groups "This cannot be undone. Confirm with 'market unregister confirm'." (do
        removed ← Players.unregister env player
        pure ("Unregistered. Removed " <> str removed <> " watchlist item(s)."))
  dispatch random Command.untrack_all groups =
      unless_confirmed groups "This cannot be undone. Confirm with 'market untrack all confirm'."
        (do cleared ← Watching.untrack_all; pure ("Cleared " <> str cleared <> " tracked item(s)."))
  dispatch random Command.apikey_generate groups = do
    raw ← Auth.generate_key config random player
    pure (key_reply raw)
  dispatch random Command.apikey_revoke groups =
      unless_confirmed groups
        "This will disable your current key immediately. Confirm with 'market apikey revoke confirm'."
        (do
          n ← Auth.revoke_keys config player
          pure (
              if n == 0
              then "You have no active keys."
              else "Revoked " <> str n <> " active key(s)."))
  dispatch random Command.apikey_list groups = do
    keys ← Auth.list_keys config player
    pure (key_list env.texts keys)
  dispatch random Command.status_details groups = do
    rows ← Players.status_details 500 0
    summary ← Players.status_summary
    pure (render_status_summary summary <> "\n" <> str (length rows) <> " item(s) tracked.")
  dispatch random Command.status groups = do
    summary ← Players.status_summary
    pure (render_status_summary summary)
  dispatch random Command.watchlist groups = do
    rows ← Watching.list_watchlist player
    pure (render_watchlist env.floats rows)
  dispatch random Command.user_stats groups = do
    let target = or_player (strip_text (group1 groups))
    stats ← Players.user_stats target
    pure (stats_reply target stats)
  dispatch random Command.filter_price groups = do
    aoid ← to_int (group1 groups)
    Watching.set_price_filter env player aoid (strip_text (group2 groups))
    filter_reply "Price filter updated. " aoid
  dispatch random Command.filter_ql groups = do
    aoid ← to_int (group1 groups)
    Watching.set_ql_filter player aoid (strip_text (group2 groups))
    filter_reply "QL filter updated. " aoid
  dispatch random Command.filter_clear groups = do
    aoid ← to_int (group1 groups)
    Watching.clear_filter player aoid
    pure "Filter cleared - you'll be notified of every new order again."
  dispatch random Command.filter_show groups = do
    aoid ← to_int (group1 groups)
    filter_reply "" aoid
  dispatch random Command.unwatch_all groups =
      unless_confirmed groups "This cannot be undone. Confirm with 'market unwatch all confirm'."
        (do
          n ← Watching.unsubscribe_all env player
          pure ("Stopped watching all " <> str n <> " item(s)."))
  dispatch random Command.unwatch_bulk groups = do
    aoids ← to_ints (split_words (codes (strip_text (group1 groups))))
    (removed, not_watched) ← Watching.unsubscribe_bulk env player aoids
    pure (join "\n" (stopped removed ++ missing not_watched))
  dispatch random Command.unwatch groups = do
    aoid ← to_int (group1 groups)
    deleted ← Watching.unsubscribe env player aoid
    pure (
        if deleted
        then "Stopped watching aoid " <> str aoid <> "."
        else "You weren't watching aoid " <> str aoid <> ".")
  dispatch random Command.watch_aoid groups = do
    aoid ← to_int (group1 groups)
    item ← Watching.subscribe env player aoid
    pure (
        "You're now watching "
        <> item.name
        <> " (QL"
        <> str item.ql
        <> ") - you'll get a tell when a new order shows up.")
  dispatch random Command.watch_search groups = search_reply (group1 groups)
  dispatch random Command.overview groups = do
    aoid ← to_int (group1 groups)
    found ← lift (env.get_item aoid)
    overview_reply aoid found
  dispatch random Command.search_ groups = search_reply (group1 groups)

  -- `_format_error`. What falls through to `str(exc)` is NoActivityError, whose argument is the
  -- player, and MarketDisabledError, which has none; no other exception comes here.
  unfoldable pub format_error : Error → String
  format_error (Error.unknown_item aoid) =
      "Unknown item ID " <> str aoid <> ". Try 'market <item name>' to search first."
  format_error (Error.not_registered p) = "You need to register first - try 'market register'."
  format_error (Error.already_registered p) = "You're already registered."
  format_error (Error.already_watching aoid) = "You're already watching aoid " <> str aoid <> "."
  format_error (Error.not_watching aoid) =
      "You're not watching aoid " <> str aoid <> " - try 'market watch " <> str aoid <> "' first."
  format_error (Error.subscription_limit limit) =
      "You're already watching the maximum of " <> str_ℤ limit <> " item(s)."
  format_error (Error.invalid_range spec) = "Couldn't parse range " <> env.texts.repr spec <> "."
  format_error (Error.no_activity p) = p
  format_error _ = ""

  -- `except MarketError as exc: return _format_error(exc)`
  abbrev pub on_market_error : Error → Option String
  on_market_error e = if is_market_error e then some (format_error e) else none

  unfoldable pub answer : String → Option (Command × List String) → Action String
  unfolding dispatch
  answer random none = pure (
      "Usage: market <item name> | market <aoid> | market status | market register | "
      <> "market watch <item> | market unwatch <aoid> | market watchlist | market apikey generate | market help")
  answer random (some (c, groups)) = catch on_market_error (dispatch random c groups)

  unfoldable pub handle_command : String → String → Action String
  unfolding answer ◌>>=◌
  handle_command random msg = do
    enabled ← get_bool "Enabled"
    if not enabled
        then pure "The Market module is currently disabled."
        else answer random (first_match patterns msg)
