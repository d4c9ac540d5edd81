-- ===== src/Api/Isolation.antt =====
-- Whose subscriptions the routes leave alone.
use aomarket_bot.Prelude.{ℕ, String, ◌≡◌, ◌≢◌, refl, Option, List}
use aomarket_bot.Prelude.Table.{select}
use aomarket_bot.Db.{MarketSubscription, ApiKey}
use aomarket_bot.Exec.{World, Action, ◌>>=◌}
use aomarket_bot.Exec.Keeps.{Keeps}
use aomarket_bot.ApiKeyRepo
use aomarket_bot.Market.Env.{Env}
use aomarket_bot.Market.Reads.{authenticate-Kept}
use aomarket_bot.Market.Dispatch.Kept.{Writes}
use aomarket_bot.Market.Dispatch.Others.{is_other, is_other_key, Others}
use aomarket_bot.Market.Dispatch.Isolation.{Writes-Others}
use aomarket_bot.Auth.{AuthConfig}
use aomarket_bot.Api.Requests.{Request}
use aomarket_bot.Api.Answers.{App}
use aomarket_bot.Api.Serve.{admin_only, guard_of, serve}
use aomarket_bot.Api.Kept.{player_of}
use aomarket_bot.Api.Guarded.{serve-Kept}

module _ (player : String) (subs : List MarketSubscription) where
  abbrev OtherSubs : World → Type 0
  OtherSubs w = select (is_other player) w.db.subscriptions ≡ subs

  -- The part of `Others` that concerns subscriptions
  project :
      {A : Type 0} (m : Action A)
      → ((keys : List ApiKey) → Keeps (Others player subs keys) m)
      → Keeps OtherSubs m
  project m k = record {
    run = λ w h. ((k (select (is_other_key player) w.db.api_keys)).run w (h, refl)).0;
  }

  Writes-OtherSubs : (env : Env) (config : AuthConfig) → Writes OtherSubs env config player
  Writes-OtherSubs env config = record {
    register = project _ (λ keys. (ws keys).register);
    unregister = project _ (λ keys. (ws keys).unregister);
    generate_key = λ random. project _ (λ keys. (ws keys).generate_key random);
    revoke_keys = project _ (λ keys. (ws keys).revoke_keys);
    watch_item = λ aoid name ql icon. project _ (λ keys. (ws keys).watch_item aoid name ql icon);
    subscribe = λ aoid. project _ (λ keys. (ws keys).subscribe aoid);
    unsubscribe = λ aoid. project _ (λ keys. (ws keys).unsubscribe aoid);
    unsubscribe_bulk = λ aoids. project _ (λ keys. (ws keys).unsubscribe_bulk aoids);
    unsubscribe_all = project _ (λ keys. (ws keys).unsubscribe_all);
    set_price_filter = λ aoid spec. project _ (λ keys. (ws keys).set_price_filter aoid spec);
    set_ql_filter = λ aoid spec. project _ (λ keys. (ws keys).set_ql_filter aoid spec);
    clear_filter = λ aoid. project _ (λ keys. (ws keys).clear_filter aoid);
  }
    where
      ws : (keys : List ApiKey) → Writes (Others player subs keys) env config player
      ws keys = Writes-Others player subs keys env config

  touch-OtherSubs : (id : ℕ) → Keeps OtherSubs (ApiKeyRepo.touch_last_used id)
  unfolding ApiKeyRepo.touch_last_used ◌>>=◌
  touch-OtherSubs id = record { run = λ w h. h }

-- A request that no admin's guard stands before leaves the subscriptions of every other player
-- than the one it is about, with their filters, as they were, whatever key comes with it.
pub serve-Others :
    (app : App) (header : Option String) (request : Request) (w : World)
    → guard_of request ≢ admin_only
    → select (is_other (player_of request)) (serve app header request w).1.db.subscriptions
      ≡ select (is_other (player_of request)) w.db.subscriptions
serve-Others app header request w open_ =
    (serve-Kept (OtherSubs (player_of request) _) app
        (authenticate-Kept _ app.config (touch-OtherSubs (player_of request) _)) header request
        (λ _. Writes-OtherSubs (player_of request) _ app.env app.config)
        (λ e. absurd (open_ e))).run
      w refl
