-- ===== src/Db.antt =====
-- src/aomarket/db/models.py: the rows of each table, and the database. A column with a foreign
-- key that cascades is followed by `delete_users` and `delete_watches`.
pub mod Integrity
use aomarket_bot.Prelude.{ℕ, String, Bool, ◌&&◌, Option, List, ◌==◌, str_eq}
use aomarket_bot.Prelude.Int.{ℤ}
use aomarket_bot.Prelude.Table.{any, delete}

pub data SubscriptionSide : Type 0 where
  buy sell : SubscriptionSide

-- A time in microseconds since the epoch, or PostgreSQL's `-infinity`.
pub data Stamp : Type 0 where
  minus_infinity : Stamp
  at : ℤ → Stamp

pub record MarketUser : Type 0 where
  pub player : String
  pub registered_at : ℤ
  pub is_admin : Bool

pub record MarketWatch : Type 0 where
  pub aoid : ℕ
  pub name : String
  pub ql : ℕ
  pub icon : Option ℕ
  pub first_seen : ℤ
  pub last_polled : Stamp
  pub auto_tracked : Bool

-- The quotient of two numbers, unrounded; `den` is 1 where the source writes 0.
pub record Average : Type 0 where
  pub num : ℕ
  pub den : ℕ

pub record MarketHistory : Type 0 where
  pub id : ℕ
  pub aoid : ℕ
  pub ts : ℤ
  pub sell_count : ℕ
  pub buy_count : ℕ
  pub min_sell_price : ℕ
  pub max_buy_price : ℕ
  pub avg_sell_price : Average
  pub avg_buy_price : Average
  pub anchor_sell_count : ℕ
  pub anchor_buy_count : ℕ

pub record MarketSubscription : Type 0 where
  pub id : ℕ
  pub player : String
  pub aoid : ℕ
  pub side : Option SubscriptionSide
  pub min_price : Option ℕ
  pub max_price : Option ℕ
  pub min_ql : Option ℕ
  pub max_ql : Option ℕ
  pub created_at : ℤ

pub record MarketSeenOrder : Type 0 where
  pub aoid : ℕ
  pub fingerprint : String

pub record MarketPendingAlert : Type 0 where
  pub id : ℕ
  pub player : String
  pub aoid : ℕ
  pub message : String
  pub created_at : ℤ

pub record MarketUserAction : Type 0 where
  pub id : ℕ
  pub player : String
  pub action : String
  pub aoid : Option ℕ
  pub created_at : ℤ

pub record ApiKey : Type 0 where
  pub id : ℕ
  pub player : String
  pub key_hash : String
  pub prefix : String
  pub created_at : ℤ
  pub revoked_at : Option ℤ
  pub last_used_at : Option ℤ

pub record AodbLookupBackoff : Type 0 where
  pub aoid : ℕ
  pub failure_count : ℕ
  pub last_attempted_at : ℤ
  pub next_retry_at : ℤ

-- The `value_type` column, as its check constraint has it.
pub data ValueType : Type 0 where
  bool int float str : ValueType

pub record Setting : Type 0 where
  pub key : String
  pub value : String
  pub value_type : ValueType
  pub updated_at : ℤ

-- `next_id` stands for the sequences of all the `autoincrement` columns.
pub record Db : Type 0 where
  pub users : List MarketUser
  pub watches : List MarketWatch
  pub history : List MarketHistory
  pub subscriptions : List MarketSubscription
  pub seen_orders : List MarketSeenOrder
  pub pending_alerts : List MarketPendingAlert
  pub user_actions : List MarketUserAction
  pub api_keys : List ApiKey
  pub backoffs : List AodbLookupBackoff
  pub settings : List Setting
  pub next_id : ℕ

-- The key of each table: what a unique index takes for the same row.
abbrev pub is_user : String → MarketUser → Bool
is_user player u = str_eq u.player player

abbrev pub is_watch : ℕ → MarketWatch → Bool
is_watch aoid w = w.aoid == aoid

abbrev pub is_subscription : String → ℕ → MarketSubscription → Bool
is_subscription player aoid s = str_eq s.player player && s.aoid == aoid

abbrev pub is_key : String → ApiKey → Bool
is_key key_hash k = str_eq k.key_hash key_hash

abbrev pub is_seen : ℕ → String → MarketSeenOrder → Bool
is_seen aoid fingerprint o = o.aoid == aoid && str_eq o.fingerprint fingerprint

abbrev pub is_backoff : ℕ → AodbLookupBackoff → Bool
is_backoff aoid b = b.aoid == aoid

abbrev pub is_setting : String → Setting → Bool
is_setting key s = str_eq s.key key

abbrev pub has_user : Db → String → Bool
has_user db player = any (is_user player) db.users

abbrev pub has_watch : Db → ℕ → Bool
has_watch db aoid = any (is_watch aoid) db.watches

-- DELETE FROM market_users: subscriptions and API keys follow by ON DELETE CASCADE.
unfoldable pub delete_users : (MarketUser → Bool) → Db → Db
delete_users p db = record db {
  users = delete p db.users;
  subscriptions = delete (λ s. any (λ u. p u && is_user s.player u) db.users) db.subscriptions;
  api_keys = delete (λ k. any (λ u. p u && is_user k.player u) db.users) db.api_keys;
}

-- DELETE FROM market_watch: history and subscriptions follow by ON DELETE CASCADE.
unfoldable pub delete_watches : (MarketWatch → Bool) → Db → Db
delete_watches p db = record db {
  watches = delete p db.watches;
  history = delete (λ h. any (λ w. p w && is_watch h.aoid w) db.watches) db.history;
  subscriptions = delete (λ s. any (λ w. p w && is_watch s.aoid w) db.watches) db.subscriptions;
}
