-- ===== src/Market/Alerts/NewOrders.antt =====
-- `_detect_new_orders` of service.py: which polls alert nobody.
use aomarket_bot.Prelude.{
  ℕ, String, ◌≡◌, refl, sym, ap, ◌∙◌, inl, inr, true, ◌||◌, List, [], ◌∷◌, map, ◌==◌, str_eq,
  eq_iff, eq_refl, arith, Bool-cases,
}
use mathlib.Core.Path.{subst}
use aomarket_bot.Prelude.Table.{any, select, any-append, select-nil, any-delete_self}
use aomarket_bot.Db.{Db, MarketSeenOrder, is_seen}
use aomarket_bot.Exec.{
  World, Result, Result-cases, ok, err, modify, for_each, ◌>>=◌, bind-ok, continue, Error,
}
use aomarket_bot.MarketRepo.{get_seen_fingerprints, replace_seen_fingerprints, add_seen, new_seen}
use aomarket_bot.Market.Env.{Env, Orders}
use aomarket_bot.Market.Alerts.{
  NewOrder, fingerprint_map, new_entries, announce_new, compare_seen, detect_new_orders,
}

-- The fingerprints stored for an item, and the world once they are stored
abbrev pub seen_of : ℕ → Db → List String
seen_of aoid db =
    map (λ o. MarketSeenOrder.fingerprint o)
      (select (λ o. MarketSeenOrder.aoid o == aoid) db.seen_orders)

abbrev pub keys : Orders → List String
keys orders = map (λ (e : String × NewOrder). e.0) (fingerprint_map orders)

any-seen_of :
    (aoid : ℕ) (fp : String) (os : List MarketSeenOrder)
    → any
        (λ f. str_eq f fp)
        (map (λ o. MarketSeenOrder.fingerprint o) (select (λ o. MarketSeenOrder.aoid o == aoid) os))
      ≡ any (is_seen aoid fp) os
any-seen_of aoid fp [] = refl
any-seen_of aoid fp (o ∷ os) = ground (arith, any-seen_of aoid fp os)

-- Adding a fingerprint makes it seen, and what was seen stays so.
any-add_seen :
    (aoid : ℕ) (fp gp : String) (db : Db)
    → any (is_seen aoid gp) (add_seen aoid fp db).seen_orders
      ≡ str_eq fp gp || any (is_seen aoid gp) db.seen_orders
any-add_seen aoid fp gp db = elim (Bool-cases (any (is_seen aoid fp) db.seen_orders)) [
  | inl old ↦ rw old (
      ground (
        arith,
        old,
        λ (e : str_eq fp gp ≡ true).
            ap (λ f. any (is_seen aoid f) db.seen_orders) ((eq_iff fp gp).0 e),
      ))
  | inr new ↦
      rw new (ground (arith, any-append (is_seen aoid gp) db.seen_orders (new_seen aoid fp ∷ [])))
]

-- Storing fingerprints: what is seen afterwards, and what else changes
store-any :
    (aoid : ℕ) (gp : String) (fps : List String) (w : World)
    → any (is_seen aoid gp) (for_each fps (λ fp. modify (add_seen aoid fp)) w).1.db.seen_orders
      ≡ any (λ f. str_eq f gp) fps || any (is_seen aoid gp) w.db.seen_orders
unfolding for_each ◌>>=◌
store-any aoid gp [] w = refl
store-any aoid gp (fp ∷ fps) w =
    store-any aoid gp fps (record w { db = add_seen aoid fp w.db })
    ∙ ground (arith, any-add_seen aoid fp gp w.db)

abbrev pub IsSilent : World → World → Type 0
IsSilent w w' = (w'.outbox ≡ w.outbox) × (w'.db.pending_alerts ≡ w.db.pending_alerts)

add_seen-pending :
    (aoid : ℕ) (fp : String) (db : Db) → (add_seen aoid fp db).pending_alerts ≡ db.pending_alerts
add_seen-pending aoid fp db = elim (Bool-cases (any (is_seen aoid fp) db.seen_orders)) [
  | inl old ↦ rw old refl
  | inr new ↦ rw new refl
]

store-IsSilent :
    (aoid : ℕ) (fps : List String) (w : World)
    → IsSilent w (for_each fps (λ fp. modify (add_seen aoid fp)) w).1
unfolding for_each ◌>>=◌
store-IsSilent aoid [] w = (refl, refl)
store-IsSilent aoid (fp ∷ fps) w =
    let rest = store-IsSilent aoid fps (record w { db = add_seen aoid fp w.db }) in
    (rest.0, rest.1 ∙ add_seen-pending aoid fp w.db)

replace-IsSilent :
    (aoid : ℕ) (fps : List String) (w : World) → IsSilent w (replace_seen_fingerprints aoid fps w).1
unfolding replace_seen_fingerprints ◌>>=◌
replace-IsSilent aoid fps w = store-IsSilent aoid fps _

replace-any :
    (aoid : ℕ) (gp : String) (fps : List String) (w : World)
    → any (λ f. str_eq f gp) fps ≡ true
    → any (λ f. str_eq f gp) (seen_of aoid (replace_seen_fingerprints aoid fps w).1.db) ≡ true
unfolding replace_seen_fingerprints ◌>>=◌
replace-any aoid gp fps w h = any-seen_of aoid gp _ ∙ store-any aoid gp fps _ ∙ ground (arith, h)

new_entries-nil :
    (seen : List String) (m : List (String × NewOrder))
    → ((fp : String)
        → any (λ f. str_eq f fp) (map (λ (e : String × NewOrder). e.0) m) ≡ true
        → any (λ f. str_eq f fp) seen ≡ true)
    → new_entries seen m ≡ []
new_entries-nil seen [] h = refl
new_entries-nil seen ((k, o) ∷ m) h =
    rw (h k (rw (eq_refl k) refl)) (new_entries-nil seen m (λ fp e. h fp (ground (arith, e))))

-- An item with no stored fingerprint is taken for one that is polled for the first time.
pub first_poll :
    (env : Env) (aoid : ℕ) (orders : Orders) (name : String) (w : World)
    → seen_of aoid w.db ≡ []
    → detect_new_orders env aoid orders name w ≡ replace_seen_fingerprints aoid (keys orders) w
unfolding detect_new_orders get_seen_fingerprints ◌>>=◌
first_poll env aoid orders name w e = rw e refl

compare_nothing :
    (env : Env) (aoid : ℕ) (name : String) (m : List (String × NewOrder)) (w : World)
    (seen : List String)
    → new_entries seen m ≡ []
    → compare_seen env aoid name m seen w ≡ (ok tt, w)
unfolding compare_seen announce_new ◌>>=◌
compare_nothing env aoid name m w [] h = refl
compare_nothing env aoid name m w (fp ∷ fps) h = rw h refl

-- A poll that meets nothing new only stores the fingerprints.
nothing_new :
    (env : Env) (aoid : ℕ) (orders : Orders) (name : String) (w : World)
    → new_entries (seen_of aoid w.db) (fingerprint_map orders) ≡ []
    → detect_new_orders env aoid orders name w ≡ replace_seen_fingerprints aoid (keys orders) w
unfolding detect_new_orders get_seen_fingerprints ◌>>=◌
nothing_new env aoid orders name w h =
    bind-ok (compare_seen env aoid name (fingerprint_map orders) (seen_of aoid w.db))
      (λ _. replace_seen_fingerprints aoid (keys orders)) w
      (compare_nothing env aoid name (fingerprint_map orders) w (seen_of aoid w.db) h)

abbrev pub no_orders : Orders
no_orders = record { sell_orders = []; buy_orders = [] }

no_entries : (seen : List String) → new_entries seen (fingerprint_map no_orders) ≡ []
unfolding fingerprint_map
no_entries seen = refl

no_keys : keys no_orders ≡ []
unfolding fingerprint_map
no_keys = refl

replace_none : (aoid : ℕ) (w : World) → seen_of aoid (replace_seen_fingerprints aoid [] w).1.db ≡ []
unfolding replace_seen_fingerprints for_each ◌>>=◌
replace_none aoid w = ap (map (λ o. MarketSeenOrder.fingerprint o)) (
    select-nil (λ o. MarketSeenOrder.aoid o == aoid) _
      (any-delete_self (λ o. MarketSeenOrder.aoid o == aoid) w.db.seen_orders))

-- After a poll that found the order book of an item empty, the next poll of the item alerts
-- nobody, whatever orders it finds: no message goes out and no alert is queued.
pub detect_new_orders-after_empty :
    (env : Env) (aoid : ℕ) (orders : Orders) (name : String) (w : World)
    → IsSilent
        (detect_new_orders env aoid no_orders name w).1
        (detect_new_orders env aoid orders name (detect_new_orders env aoid no_orders name w).1).1
detect_new_orders-after_empty env aoid orders name w =
    let stored =
      nothing_new env aoid no_orders name w (no_entries _)
      ∙ ap (λ fps. replace_seen_fingerprints aoid fps w) no_keys in
    let w1 = (detect_new_orders env aoid no_orders name w).1 in
    let unseen = ap (λ r. seen_of aoid r.1.db) stored ∙ replace_none aoid w in
    subst (λ r. IsSilent w1 r.1) (sym (first_poll env aoid orders name w1 unseen))
      (replace-IsSilent aoid (keys orders) w1)

-- A poll that returns has stored the fingerprints of the orders it found.
stored_all :
    (env : Env) (aoid : ℕ) (orders : Orders) (name : String) (w : World)
    → (detect_new_orders env aoid orders name w).0 ≡ ok tt
    → (w' : World) × (detect_new_orders env aoid orders name w
        ≡ replace_seen_fingerprints aoid (keys orders) w')
unfolding detect_new_orders get_seen_fingerprints ◌>>=◌
stored_all env aoid orders name w done =
    let compared = compare_seen env aoid name (fingerprint_map orders) (seen_of aoid w.db) w in
    elim (Result-cases compared.0) [
      | inl (t, e) ↦ (
        compared.1,
        ap (λ r. continue r (λ _. replace_seen_fingerprints aoid (keys orders)) compared.1) e,
      )
      | inr (fault, e) ↦ absurd (
          apart fault (
            sym (
              ap
                (λ r. (continue r (λ _. replace_seen_fingerprints aoid (keys orders)) compared.1).0)
                e)
            ∙ done))
    ]
  where
    apart : (fault : Error) → ◌≡◌ {A = Result (Unit {0})} (err fault) (ok tt) → ⊥
    apart fault e = cc

-- Once a poll of an item has returned, polling the same order book again alerts nobody.
pub detect_new_orders-repeat :
    (env : Env) (aoid : ℕ) (orders : Orders) (name : String) (w : World)
    → (detect_new_orders env aoid orders name w).0 ≡ ok tt
    → IsSilent
        (detect_new_orders env aoid orders name w).1
        (detect_new_orders env aoid orders name (detect_new_orders env aoid orders name w).1).1
detect_new_orders-repeat env aoid orders name w done =
    let (w0, stored) = stored_all env aoid orders name w done in
    let w1 = (detect_new_orders env aoid orders name w).1 in
    let known = new_entries-nil (seen_of aoid w1.db) (fingerprint_map orders) (λ fp h.
      ap (λ r. any (λ f. str_eq f fp) (seen_of aoid r.1.db)) stored
      ∙ replace-any aoid fp (keys orders) w0 h) in
    subst (λ r. IsSilent w1 r.1) (sym (nothing_new env aoid orders name w1 known))
      (replace-IsSilent aoid (keys orders) w1)
