-- ===== src/Db/Integrity.antt =====
-- What the constraints of models.py keep true of the database: no key twice, and no reference to
-- a row that is not there.
use aomarket_bot.Prelude.{ℕ, String, ◌≡◌, Bool, true, List, All, All-mono}
use aomarket_bot.Prelude.Table.{Unique, any, any-delete, Unique-select, All-delete}
use aomarket_bot.Db.{
  Db, MarketUser, MarketWatch, MarketSubscription, MarketHistory, MarketSeenOrder, ApiKey,
  AodbLookupBackoff, Setting, is_user, is_watch, is_subscription, is_key, is_seen, is_backoff,
  is_setting, delete_users, delete_watches,
}

abbrev pub IsLinkedSub : List MarketUser → List MarketWatch → MarketSubscription → Type 0
IsLinkedSub users watches s =
    (any (is_user s.player) users ≡ true) × (any (is_watch s.aoid) watches ≡ true)

abbrev pub IsLinkedHistory : List MarketWatch → MarketHistory → Type 0
IsLinkedHistory watches h = any (is_watch h.aoid) watches ≡ true

abbrev pub IsLinkedKey : List MarketUser → ApiKey → Type 0
IsLinkedKey users k = any (is_user k.player) users ≡ true

abbrev pub UsersOnce : List MarketUser → Type 0
UsersOnce = Unique (λ u v. is_user v.player u)

abbrev pub WatchesOnce : List MarketWatch → Type 0
WatchesOnce = Unique (λ w v. is_watch v.aoid w)

abbrev pub SubscriptionsOnce : List MarketSubscription → Type 0
SubscriptionsOnce = Unique (λ s t. is_subscription t.player t.aoid s)

abbrev pub KeysOnce : List ApiKey → Type 0
KeysOnce = Unique (λ k l. is_key l.key_hash k)

abbrev pub SeenOnce : List MarketSeenOrder → Type 0
SeenOnce = Unique (λ o q. is_seen q.aoid q.fingerprint o)

abbrev pub BackoffsOnce : List AodbLookupBackoff → Type 0
BackoffsOnce = Unique (λ b c. is_backoff c.aoid b)

abbrev pub SettingsOnce : List Setting → Type 0
SettingsOnce = Unique (λ s t. is_setting t.key s)

pub record Constraints (users : List MarketUser) (watches : List MarketWatch)
    (history : List MarketHistory) (subscriptions : List MarketSubscription)
    (seen_orders : List MarketSeenOrder) (api_keys : List ApiKey)
    (backoffs : List AodbLookupBackoff) (settings : List Setting) : Type 0 where
  pub users_once : UsersOnce users
  pub watches_once : WatchesOnce watches
  pub subscriptions_once : SubscriptionsOnce subscriptions
  pub keys_once : KeysOnce api_keys
  pub seen_once : SeenOnce seen_orders
  pub backoffs_once : BackoffsOnce backoffs
  pub settings_once : SettingsOnce settings
  pub subscriptions_linked : All (IsLinkedSub users watches) subscriptions
  pub history_linked : All (IsLinkedHistory watches) history
  pub keys_linked : All (IsLinkedKey users) api_keys

-- Over the tables that a constraint names; the others may change freely.
abbrev pub IsSound : Db → Type 0
IsSound db =
    Constraints db.users db.watches db.history db.subscriptions db.seen_orders db.api_keys
      db.backoffs db.settings

-- A new content for one table, with what its constraints ask of it.
module _ (db : Db) where
  pub users-IsSound :
      (us : List MarketUser)
      → UsersOnce us
      → ((p : String) → any (is_user p) db.users ≡ true → any (is_user p) us ≡ true)
      → IsSound db
      → IsSound (record db { users = us })
  users-IsSound us once grow h = record {
    users_once = once;
    watches_once = h.watches_once;
    subscriptions_once = h.subscriptions_once;
    keys_once = h.keys_once;
    seen_once = h.seen_once;
    backoffs_once = h.backoffs_once;
    settings_once = h.settings_once;
    subscriptions_linked =
        All-mono _ (IsLinkedSub us db.watches) _ (λ s l. (grow s.player l.0, l.1))
          h.subscriptions_linked;
    history_linked = h.history_linked;
    keys_linked = All-mono _ (IsLinkedKey us) _ (λ k l. grow k.player l) h.keys_linked;
  }

  pub watches-IsSound :
      (ws : List MarketWatch)
      → WatchesOnce ws
      → ((a : ℕ) → any (is_watch a) db.watches ≡ true → any (is_watch a) ws ≡ true)
      → IsSound db
      → IsSound (record db { watches = ws })
  watches-IsSound ws once grow h = record {
    users_once = h.users_once;
    watches_once = once;
    subscriptions_once = h.subscriptions_once;
    keys_once = h.keys_once;
    seen_once = h.seen_once;
    backoffs_once = h.backoffs_once;
    settings_once = h.settings_once;
    subscriptions_linked =
        All-mono _ (IsLinkedSub db.users ws) _ (λ s l. (l.0, grow s.aoid l.1))
          h.subscriptions_linked;
    history_linked = All-mono _ (IsLinkedHistory ws) _ (λ r l. grow r.aoid l) h.history_linked;
    keys_linked = h.keys_linked;
  }

  pub subscriptions-IsSound :
      (ss : List MarketSubscription)
      → SubscriptionsOnce ss
      → All (IsLinkedSub db.users db.watches) ss
      → IsSound db
      → IsSound (record db { subscriptions = ss })
  subscriptions-IsSound ss once linked h = record {
    users_once = h.users_once;
    watches_once = h.watches_once;
    subscriptions_once = once;
    keys_once = h.keys_once;
    seen_once = h.seen_once;
    backoffs_once = h.backoffs_once;
    settings_once = h.settings_once;
    subscriptions_linked = linked;
    history_linked = h.history_linked;
    keys_linked = h.keys_linked;
  }

  pub history-IsSound :
      (rows : List MarketHistory)
      → All (IsLinkedHistory db.watches) rows
      → IsSound db
      → IsSound (record db { history = rows })
  history-IsSound rows linked h = record {
    users_once = h.users_once;
    watches_once = h.watches_once;
    subscriptions_once = h.subscriptions_once;
    keys_once = h.keys_once;
    seen_once = h.seen_once;
    backoffs_once = h.backoffs_once;
    settings_once = h.settings_once;
    subscriptions_linked = h.subscriptions_linked;
    history_linked = linked;
    keys_linked = h.keys_linked;
  }

  pub keys-IsSound :
      (ks : List ApiKey)
      → KeysOnce ks
      → All (IsLinkedKey db.users) ks
      → IsSound db
      → IsSound (record db { api_keys = ks })
  keys-IsSound ks once linked h = record {
    users_once = h.users_once;
    watches_once = h.watches_once;
    subscriptions_once = h.subscriptions_once;
    keys_once = once;
    seen_once = h.seen_once;
    backoffs_once = h.backoffs_once;
    settings_once = h.settings_once;
    subscriptions_linked = h.subscriptions_linked;
    history_linked = h.history_linked;
    keys_linked = linked;
  }

  pub seen-IsSound :
      (os : List MarketSeenOrder)
      → SeenOnce os
      → IsSound db
      → IsSound (record db { seen_orders = os })
  seen-IsSound os once h = record {
    users_once = h.users_once;
    watches_once = h.watches_once;
    subscriptions_once = h.subscriptions_once;
    keys_once = h.keys_once;
    seen_once = once;
    backoffs_once = h.backoffs_once;
    settings_once = h.settings_once;
    subscriptions_linked = h.subscriptions_linked;
    history_linked = h.history_linked;
    keys_linked = h.keys_linked;
  }

  pub backoffs-IsSound :
      (bs : List AodbLookupBackoff)
      → BackoffsOnce bs
      → IsSound db
      → IsSound (record db { backoffs = bs })
  backoffs-IsSound bs once h = record {
    users_once = h.users_once;
    watches_once = h.watches_once;
    subscriptions_once = h.subscriptions_once;
    keys_once = h.keys_once;
    seen_once = h.seen_once;
    backoffs_once = once;
    settings_once = h.settings_once;
    subscriptions_linked = h.subscriptions_linked;
    history_linked = h.history_linked;
    keys_linked = h.keys_linked;
  }

  pub settings-IsSound :
      (ss : List Setting) → SettingsOnce ss → IsSound db → IsSound (record db { settings = ss })
  settings-IsSound ss once h = record {
    users_once = h.users_once;
    watches_once = h.watches_once;
    subscriptions_once = h.subscriptions_once;
    keys_once = h.keys_once;
    seen_once = h.seen_once;
    backoffs_once = h.backoffs_once;
    settings_once = once;
    subscriptions_linked = h.subscriptions_linked;
    history_linked = h.history_linked;
    keys_linked = h.keys_linked;
  }

pub delete_users-IsSound :
    (p : MarketUser → Bool) (db : Db) → IsSound db → IsSound (delete_users p db)
unfolding delete_users
delete_users-IsSound p db h = record {
  users_once = Unique-select _ _ _ h.users_once;
  watches_once = h.watches_once;
  subscriptions_once = Unique-select _ _ _ h.subscriptions_once;
  keys_once = Unique-select _ _ _ h.keys_once;
  seen_once = h.seen_once;
  backoffs_once = h.backoffs_once;
  settings_once = h.settings_once;
  subscriptions_linked =
      All-delete _ _ _ db.subscriptions
        (λ s gone linked. (any-delete (is_user s.player) p db.users linked.0 gone, linked.1))
        h.subscriptions_linked;
  history_linked = h.history_linked;
  keys_linked =
      All-delete _ _ _ db.api_keys
        (λ k gone linked. any-delete (is_user k.player) p db.users linked gone) h.keys_linked;
}

pub delete_watches-IsSound :
    (p : MarketWatch → Bool) (db : Db) → IsSound db → IsSound (delete_watches p db)
unfolding delete_watches
delete_watches-IsSound p db h = record {
  users_once = h.users_once;
  watches_once = Unique-select _ _ _ h.watches_once;
  subscriptions_once = Unique-select _ _ _ h.subscriptions_once;
  keys_once = h.keys_once;
  seen_once = h.seen_once;
  backoffs_once = h.backoffs_once;
  settings_once = h.settings_once;
  subscriptions_linked =
      All-delete _ _ _ db.subscriptions
        (λ s gone linked. (linked.0, any-delete (is_watch s.aoid) p db.watches linked.1 gone))
        h.subscriptions_linked;
  history_linked =
      All-delete _ _ _ db.history
        (λ r gone linked. any-delete (is_watch r.aoid) p db.watches linked gone) h.history_linked;
  keys_linked = h.keys_linked;
}
