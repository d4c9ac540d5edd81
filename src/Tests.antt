-- ===== src/Tests.antt =====
-- Concrete databases, services and packets, and each result applied to some of them.
mod Entry
mod Wire
mod Answers
use aomarket_bot.Prelude.{
  map, ℕ, String, ◌≡◌, ◌≢◌, ◌↔◌, ◌⊎◌, refl, Bool, true, false, not, none, some, List, [], ◌∷◌, ◌++◌,
  str_eq, leb, arith, ◌-◌, ◌*◌, ◌^◌, ◌≤◌, ◌%◌, length, if◌then◌else◌, is_some, Option, ◌==◌, ◌/◌,
}
use Prim.Native.Nat.{min}
use aomarket_bot.Prelude.Int.{pos, ◌+ℤ◌, ltb_ℤ}
use aomarket_bot.Prelude.Text.{codes, ◌<>◌}
use aomarket_bot.Prelude.Table.{delete, find, count, select}
use aomarket_bot.Db
use aomarket_bot.Db.{
  Db, MarketUser, MarketSubscription, MarketPendingAlert, MarketWatch, AodbLookupBackoff, Setting,
  ApiKey, is_backoff, is_setting, is_key, is_watch, has_watch,
}
use aomarket_bot.Db.Integrity.{IsSound}
use aomarket_bot.Exec.{World, ok, err, overflow_error, key_error}
use aomarket_bot.Market.Env.{Env, Orders}
use aomarket_bot.Market.Alerts.{
  NewOrder, sell, order_matches_filter, detect_new_orders, deliver_pending_alerts,
}
use aomarket_bot.Market.Alerts.Filter.{AtLeast, AtMost, order_matches_filter_iff}
use aomarket_bot.Market.Alerts.NewOrders.{
  IsSilent, no_orders, detect_new_orders-after_empty, detect_new_orders-repeat,
}
use aomarket_bot.Market.Alerts.Delivery.{
  of_player, tells, queued, deliver_pending_alerts-sends, deliver_pending_alerts-empties,
}
use aomarket_bot.Market.Parsing.{parse_range, parse_ql, strip, no_dash, side}
use aomarket_bot.Market.Parsing.Ranges.{IsRange, parse_range-some}
use aomarket_bot.MarketRepo
use aomarket_bot.MarketRepo.{unregister_cascade, upsert_watch, get_watch}
use aomarket_bot.MarketRepo.Cascade.{rows_where, unregister_cascade-rows}
use aomarket_bot.MarketRepo.{is_stale, expire_stale_watch}
use aomarket_bot.MarketRepo.Expiry.{aoid_of, IsKept, expire_stale_watch-watches}
use aomarket_bot.MarketRepo.Upsert.{IsUpserted, get_watch-upsert_watch}
use aomarket_bot.Market.Announce.{announce_tracked, log_action}
use aomarket_bot.SettingsRepo.{get_int, get_bool, get_str, set}
use aomarket_bot.SettingsRepo.Values.{SettingValue, truthy, text_of, parse_int}
use aomarket_bot.SettingsRepo.Typed.{as_integer, get_typed-set}
use aomarket_bot.BackoffRepo.{record_failure, record_success, due_for_retry}
use aomarket_bot.BackoffRepo.Delay.{next_retry_at, next_retry_at-schedule, base_delay, max_delay}
use aomarket_bot.BackoffRepo.Schedule.{record_failure_jams, due_for_retry-record_failure}
use aomarket_bot.Auth.{
  AuthConfig, ApiKeyPrincipal, granted, generate_key, generate_token, revoke_keys, authenticate,
  require_player_key, require_admin_key,
}
use aomarket_bot.Auth.Keys.{authenticate-generate_key, authenticate-revoke_keys}
use aomarket_bot.Auth.Gate.{Holds, IsAdmin, require_player_key-granted, require_admin_key-granted}
use aomarket_bot.ApiKeyRepo
use aomarket_bot.Market.Watching.{subscribe}
use aomarket_bot.Market.Watching.Limit.{IsAdded, subscribe-IsAdded}
use aomarket_bot.Runs.{Call, Reachable, run, empty_db, Reachable-IsSound}
use aomarket_bot.Chat.Packet.{
  word, text, int, bytes, encode_codes, decode_codes, encode_args, encode_packet, read_frame,
  read_packet, read_exactly, decode_header,
}
use aomarket_bot.Chat.Packet.RoundTrip.{decode-encode_codes, read_frame-encode_packet}
use aomarket_bot.Chat.Client.{Handlers, ClientState, died, read_loop}
use aomarket_bot.Chat.Client.Reader.{read_loop-unknown, read_loop-ends}
use aomarket_bot.Chat.Client.{client_lookup}
use aomarket_bot.Chat.Lookup.{Lookup, cached, waiting, begin_lookup, end_lookup}
use aomarket_bot.Chat.Login.{Account, CharacterInfo, login, login-selected}
use aomarket_bot.Chat.Crypto.{KeyWords, permute, tea_rounds, login_blob}
use aomarket_bot.Chat.Crypto.Inverse.{unrounds, unrounds-permute, login_blob-length}

-- A service that knows one item, and takes every tell.
abbrev env : Env
env = record {
  get_item = λ aoid.
      ok (some (record { aoid = aoid; name = "Ring"; ql = 10; icon = none; description = none }));
  get_orders = λ _. none;
  fetch_page = λ _ _. none;
  chat = record { send_privgroup = none; send_tell = some (λ _ _. none); is_online = none };
  search_items = λ query ql limit offset. ok ([], 0);
  floats = record { tenths = λ _ _. "1.0"; grouped = λ _. "1"; scaled = λ _ _. ok 1 };
  texts = record { repr = λ s. "'" <> s <> "'"; date = λ _. "2026-01-01"; to_float = λ _. none };
}

abbrev config : AuthConfig
config = record { owner_character = "Owner"; hash = λ token. "#" <> token }

abbrev ring : MarketWatch
ring = record {
  aoid = 7;
  name = "Ring";
  ql = 10;
  icon = none;
  first_seen = pos 0;
  last_polled = Db.minus_infinity;
  auto_tracked = true;
}

abbrev ann_key : ApiKey
ann_key = record {
  id = 3;
  player = "Ann";
  key_hash = "#k";
  prefix = "k";
  created_at = pos 1;
  revoked_at = none;
  last_used_at = none;
}

abbrev owner_key : ApiKey
owner_key = record {
  id = 4;
  player = "Owner";
  key_hash = "#o";
  prefix = "o";
  created_at = pos 1;
  revoked_at = none;
  last_used_at = none;
}

abbrev jammed : AodbLookupBackoff
jammed = record { aoid = 9; failure_count = 35; last_attempted_at = pos 0; next_retry_at = pos 1 }

abbrev enabled : Setting
enabled = record {
  key = "Enabled";
  value = "false";
  value_type = Db.ValueType.bool;
  updated_at = pos 0;
}

abbrev alert : String → ℕ → ℕ → MarketPendingAlert
alert player id t = record {
  id = id;
  player = player;
  aoid = 7;
  message = "new order";
  created_at = pos t;
}

abbrev db : Db
db = record empty_db {
  users =
      record { player = "Ann"; registered_at = pos 0; is_admin = false }
      ∷ record { player = "Owner"; registered_at = pos 0; is_admin = false }
      ∷ [];
  watches = ring ∷ [];
  subscriptions =
      record {
        id = 1;
        player = "Ann";
        aoid = 7;
        side = none;
        min_price = none;
        max_price = some 5;
        min_ql = none;
        max_ql = none;
        created_at = pos 0;
      }
      ∷ [];
  pending_alerts = alert "Ann" 5 20 ∷ alert "Bob" 6 10 ∷ alert "Ann" 8 10 ∷ [];
  api_keys = ann_key ∷ owner_key ∷ [];
  backoffs = jammed ∷ [];
  settings = enabled ∷ [];
  next_id = 10;
}

abbrev world : World
world = record { db = db; now = pos 100; outbox = [] }

abbrev book : Orders
book = record {
  sell_orders = record { price = 3; ql = 10; count = 1; seller = "Bob" } ∷ [];
  buy_orders = [];
}

abbrev start : World
start = record { db = empty_db; now = pos 0; outbox = [] }

Reachable-IsSound_example :
    IsSound
      (run env config
        (Call.subscribe "Ann" 7)
        (run env config (Call.register "Ann") (run env config Call.seed_defaults start).1).1).1.db
Reachable-IsSound_example = Reachable-IsSound {config = config} (
    Reachable.call env (Call.subscribe "Ann" 7) (
      Reachable.call env (Call.register "Ann")
        (Reachable.call env Call.seed_defaults (Reachable.start (pos 0)))))

unregister_cascade-rows_example : unregister_cascade "Ann" world ≡ (
  ok (count (λ s. str_eq (MarketSubscription.player s) "Ann") world.db.subscriptions),
  record world { db = rows_where (λ p. not (str_eq p "Ann")) world.db },
)
unregister_cascade-rows_example = unregister_cascade-rows "Ann" world refl

require_player_key-granted_example :
    Holds config (some "k") world (record { player = "Ann"; is_admin = false })
    × (◌≡◌ {A = Bool} false true ⊎ ◌≡◌ {A = String} "Ann" "Ann")
unfolding require_player_key authenticate ApiKeyRepo.get_by_hash ApiKeyRepo.touch_last_used
    MarketRepo.get_user
require_player_key-granted_example =
    require_player_key-granted config "Ann" (some "k") world
      {p = record { player = "Ann"; is_admin = false }} refl

abbrev owner : ApiKeyPrincipal
owner = record { player = "Owner"; is_admin = true }

require_admin_key-granted_example :
    ((require_admin_key config (some "o") world).0 ≡ ok (granted owner)) ↔ (
      (◌≢◌ {A = Option String} (some "o") (some ""))
      × Holds config (some "o") world owner
      × (owner.is_admin ≡ true)
      × IsAdmin config "Owner" world.db)
require_admin_key-granted_example = require_admin_key-granted config (some "o") world owner

-- Both sides hold of the owner's key.
owner-granted : (require_admin_key config (some "o") world).0 ≡ ok (granted owner)
unfolding require_admin_key authenticate ApiKeyRepo.get_by_hash ApiKeyRepo.touch_last_used
    MarketRepo.get_user
owner-granted = refl

authenticate-generate_key_example :
    ((generate_key config "abc" "Cy" world).0 ≡ ok (generate_token "abc"))
    × (admin : Bool) × ((authenticate config
          (generate_token "abc")
          (generate_key config "abc" "Cy" world).1).0
        ≡ ok (some (record { player = "Cy"; is_admin = admin })))
unfolding generate_token
authenticate-generate_key_example = authenticate-generate_key config "abc" "Cy" world refl

authenticate-revoke_keys_example : ◌≢◌ {A = String} "Owner" "Ann"
unfolding revoke_keys authenticate ApiKeyRepo.get_by_hash ApiKeyRepo.touch_last_used
    ApiKeyRepo.revoke_all_for_player MarketRepo.get_user
authenticate-revoke_keys_example =
    authenticate-revoke_keys config "Ann" world "o"
      {p = record { player = "Owner"; is_admin = true }} refl

detect_new_orders-repeat_example :
    IsSilent
      (detect_new_orders env 7 book "Ring" world).1
      (detect_new_orders env 7 book "Ring" (detect_new_orders env 7 book "Ring" world).1).1
unfolding detect_new_orders MarketRepo.get_seen_fingerprints MarketRepo.replace_seen_fingerprints
detect_new_orders-repeat_example = detect_new_orders-repeat env 7 book "Ring" world refl

detect_new_orders-after_empty_example :
    IsSilent
      (detect_new_orders env 7 no_orders "Ring" world).1
      (detect_new_orders env 7 book "Ring" (detect_new_orders env 7 no_orders "Ring" world).1).1
detect_new_orders-after_empty_example = detect_new_orders-after_empty env 7 book "Ring" world

deliver_pending_alerts-sends_example :
    ((deliver_pending_alerts env "Ann" world).0
      ≡ ok (count (of_player "Ann") world.db.pending_alerts))
    × ((deliver_pending_alerts env "Ann" world).1.outbox
        ≡ [] ++ tells "Ann" (queued "Ann" world.db))
    × (select (of_player "Ann") (deliver_pending_alerts env "Ann" world).1.db.pending_alerts ≡ [])
deliver_pending_alerts-sends_example =
    deliver_pending_alerts-sends env "Ann" world {f = λ _ _. none} refl (λ _. refl)

deliver_pending_alerts-empties_example :
    select (of_player "Ann") (deliver_pending_alerts env "Ann" world).1.db.pending_alerts ≡ []
deliver_pending_alerts-empties_example = deliver_pending_alerts-empties env "Ann" world

abbrev order : NewOrder
order = record { side = sell; price = 3; min_ql = 10; max_ql = 20 }

order_matches_filter_iff_example :
    (order_matches_filter order none (some 5) (some 10) (some 15) ≡ true)
    ↔ (AtLeast none 3 × AtMost (some 5) 3 × AtLeast (some 10) 10 × AtMost (some 15) 20)
order_matches_filter_iff_example = order_matches_filter_iff order none (some 5) (some 10) (some 15)

next_retry_at-schedule_example : next_retry_at 36 (pos 100) ≡ (
    if leb 36 35
    then ok (pos 100 +ℤ pos (min (base_delay * 2 ^ 36 / 2) max_delay))
    else err overflow_error)
next_retry_at-schedule_example = next_retry_at-schedule 36 (pos 100)

due_for_retry-record_failure_example :
    (d : ℕ) × (base_delay ≤ d)
    × (d ≤ max_delay)
    × ((due_for_retry (7 ∷ []) (record (record_failure 7 world).1 { now = pos 200 })).0
        ≡ ok (if ltb_ℤ (pos 200) (pos 100 +ℤ pos d) then [] else 7 ∷ []))
unfolding record_failure
due_for_retry-record_failure_example = due_for_retry-record_failure 7 world (pos 200) refl

record_failure_jams_example : record_failure 9 world ≡ (err overflow_error, world)
record_failure_jams_example = record_failure_jams 9 world {b = jammed} refl (omega arith)

get_watch-upsert_watch_example :
    (row : MarketWatch) × ((upsert_watch 7 "Big Ring" 20 (some 1) false world).0
      ≡ ok (not (has_watch world.db 7)))
    × ((get_watch 7 (upsert_watch 7 "Big Ring" 20 (some 1) false world).1).0 ≡ ok (some row))
    × IsUpserted 7 "Big Ring" 20 (some 1) false world.now (find (is_watch 7) world.db.watches) row
    × ((other : ℕ)
        → (other == 7) ≡ false
        → (get_watch other (upsert_watch 7 "Big Ring" 20 (some 1) false world).1).0
          ≡ (get_watch other world).0)
get_watch-upsert_watch_example = get_watch-upsert_watch 7 "Big Ring" 20 (some 1) false world

get_typed-set_example :
    ((set "Enabled" (SettingValue.bool true) world).0 ≡ ok tt)
    × ((row : Setting) × (find
            (is_setting "Enabled")
            (set "Enabled" (SettingValue.bool true) world).1.db.settings
          ≡ some row)
        × (row.value_type ≡ Db.ValueType.bool))
    × (Db.ValueType.bool ≡ Db.ValueType.bool
        → (get_bool "Enabled" (set "Enabled" (SettingValue.bool true) world).1).0
          ≡ ok (truthy (SettingValue.bool true)))
    × (Db.ValueType.bool ≡ Db.ValueType.str
        → (get_str "Enabled" (set "Enabled" (SettingValue.bool true) world).1).0
          ≡ ok (text_of (SettingValue.bool true)))
    × (Db.ValueType.bool ≡ Db.ValueType.int
        → (get_int "Enabled" (set "Enabled" (SettingValue.bool true) world).1).0
          ≡ as_integer (parse_int (text_of (SettingValue.bool true))))
get_typed-set_example = get_typed-set "Enabled" (SettingValue.bool true) world {s = enabled} refl

parse_range-some_example :
    (before after : List ℕ) × (strip (codes "10-20") ≡ before ++ (b'-' ∷ after))
    × (no_dash before ≡ true)
    × (no_dash after ≡ true)
    × (side parse_ql before ≡ ok (some (some 10)))
    × (side parse_ql after ≡ ok (some (some 20)))
    × IsRange (some 10, some 20)
unfolding parse_range parse_ql
parse_range-some_example = parse_range-some (codes "10-20") parse_ql (some 10, some 20) refl

-- The settings at their defaults, and one player
abbrev fresh : World
fresh = record start {
  db = record empty_db {
    users = record { player = "Ann"; registered_at = pos 0; is_admin = false } ∷ [];
    settings =
        record {
          key = "MaxSubscriptionsPerPlayer";
          value = "25";
          value_type = Db.ValueType.int;
          updated_at = pos 0;
        }
        ∷ record {
          key = "LogToPrivateChannel";
          value = "false";
          value_type = Db.ValueType.bool;
          updated_at = pos 0;
        }
        ∷ [];
  };
}

subscribe-IsAdded_example : IsAdded "Ann" 7 fresh (subscribe env "Ann" 7 fresh).1
unfolding subscribe MarketRepo.is_registered MarketRepo.get_subscription get_int
    MarketRepo.count_subscriptions upsert_watch announce_tracked get_bool
    MarketRepo.add_subscription log_action MarketRepo.log_action
subscribe-IsAdded_example = subscribe-IsAdded env "Ann" 7 fresh refl

abbrev two_watches : World
two_watches = record start {
  db = record empty_db { watches = ring ∷ record ring { aoid = 8; auto_tracked = false } ∷ [] };
}

expire_stale_watch-watches_example :
    (stale : MarketWatch → Bool) × ((v : MarketWatch) → (stale v ≡ false) ↔ IsKept (pos 50) v)
    × ((expire_stale_watch (pos 50) two_watches).0
        ≡ ok (map aoid_of (select stale two_watches.db.watches)))
    × ((expire_stale_watch (pos 50) two_watches).1.db.watches ≡ delete stale two_watches.db.watches)
expire_stale_watch-watches_example =
    expire_stale_watch-watches (pos 50) two_watches (refl, (refl, tt))
