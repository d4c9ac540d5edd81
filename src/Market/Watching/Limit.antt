-- ===== src/Market/Watching/Limit.antt =====
-- `subscribe` of service.py: what a subscription asks for, and what it adds.
use aomarket_bot.Prelude.{
  ℕ, String, ◌≡◌, refl, sym, ap, ◌∙◌, inl, inr, Bool, true, false, Option, none, some, [], ◌∷◌,
  ◌++◌, Bool-cases, is_some, if◌then◌else◌, str_eq,
}
use mathlib.Core.Path.{subst}
use aomarket_bot.Prelude.Int.{ℤ, pos, leb_ℤ}
use aomarket_bot.Prelude.Table.{any, find, count, is_some-find}
use aomarket_bot.Db.{MarketSubscription, is_user, has_user, is_subscription}
use aomarket_bot.Exec.{
  World, Error, Result, ok, err, Action, raise, pure, lift, bind-inv, subscription_limit,
  not_registered, unknown_item, ◌>>=◌, ◌>>◌,
}
use aomarket_bot.Exec.Keeps.{Keeps-bind, Keeps-pure}
use aomarket_bot.MarketRepo
use aomarket_bot.SettingsRepo.{get_int}
use aomarket_bot.Market.Env.{Env, Item}
use aomarket_bot.Market.Announce.{log_action}
use aomarket_bot.Market.Watching.Untouched.{get_int-Same, log_action-Same, watch_item-Same}
use aomarket_bot.Market.Watching.{watch_item, denied, subscribe_item, subscribe}

module _ (env : Env) (player : String) (aoid : ℕ) (item : Item) where
  -- `subscribe` from the first write on, and from the reading of the limit on
  unfoldable adding : Action Item
  adding = do
    watch_item env aoid item.name item.ql item.icon false
    MarketRepo.add_subscription player aoid
    log_action env player "watch" (some aoid)
    pure item

  unfoldable limited : Action Item
  limited = do
    limit ← get_int "MaxSubscriptionsPerPlayer"
    n ← MarketRepo.count_subscriptions player
    if leb_ℤ limit (pos n) then raise (subscription_limit limit) else adding

  added :
      (w : World) {t : Unit {0}}
      → (MarketRepo.add_subscription player aoid w).0 ≡ ok t
      → (MarketRepo.add_subscription player aoid w).1.db.subscriptions
        ≡ w.db.subscriptions ++ MarketRepo.new_subscription w.db.next_id w.now player aoid ∷ []
  unfolding MarketRepo.add_subscription ◌>>=◌
  added w h = elim (Bool-cases (MarketRepo.accepts_subscription player aoid w.db)) [
    | inl yes_ ↦ rw yes_ refl
    | inr no_ ↦ absurd (refused (rw no_ at h))
  ]
    where
      refused : {t : Unit {0}} {e : Error} → ◌≡◌ {A = Result (Unit {0})} (err e) (ok t) → ⊥
      refused e = cc

  adding-subscriptions :
      (w : World) {i : Item}
      → (adding w).0 ≡ ok i
      → (id : ℕ) × ((adding w).1.db.subscriptions
          ≡ w.db.subscriptions ++ MarketRepo.new_subscription id w.now player aoid ∷ [])
  unfolding adding
  adding-subscriptions w {i} h =
      let watched = watch_item env aoid item.name item.ql item.icon false in
      let add = MarketRepo.add_subscription player aoid in
      let log = (log_action env player "watch" (some aoid) >> pure item) in
      let (a1, e1, q1) = bind-inv watched (λ _. add >> log) w h in
      let w1 = (watched w).1 in
      let same =
        (watch_item-Same w.db.subscriptions w.now env aoid item.name item.ql item.icon false).run w
          (refl, refl) in
      let (a2, e2, q2) = bind-inv add (λ _. log) w1 (sym (ap (λ r. r.0) q1) ∙ h) in
      let w2 = (add w1).1 in
      let logged =
        (Keeps-bind _ (λ _. pure item)
            (log_action-Same w2.db.subscriptions w2.now env player "watch" (some aoid))
            (λ _. Keeps-pure item)).run
          w2 (refl, refl) in
      (
        w1.db.next_id,
        ap (λ r. r.1.db.subscriptions) q1
            ∙ ap (λ r. r.1.db.subscriptions) q2
            ∙ logged.0
            ∙ added w1 e2
            ∙ ap (λ subs. subs ++ MarketRepo.new_subscription w1.db.next_id w1.now player aoid ∷ [])
                same.0
            ∙ ap
                (λ now.
                  w.db.subscriptions
                  ++ MarketRepo.new_subscription w1.db.next_id now player aoid ∷ [])
                same.1,
      )

  of_player : MarketSubscription → Bool
  of_player s = str_eq s.player player

  limited-below :
      (w : World) {i : Item}
      → (limited w).0 ≡ ok i
      → (limit : ℤ) × ((get_int "MaxSubscriptionsPerPlayer" w).0 ≡ ok limit)
        × (leb_ℤ limit (pos (count of_player w.db.subscriptions)) ≡ false)
        × (id : ℕ) × ((limited w).1.db.subscriptions
            ≡ w.db.subscriptions ++ MarketRepo.new_subscription id w.now player aoid ∷ [])
  unfolding limited MarketRepo.count_subscriptions of_player ◌>>=◌
  limited-below w {i} h =
      let key : String = "MaxSubscriptionsPerPlayer" in
      let counted = λ (limit : ℤ). MarketRepo.count_subscriptions player >>= λ n.
      if leb_ℤ limit (pos n) then raise (subscription_limit limit) else adding in
      let (limit, e, q) = bind-inv (get_int key) counted w h in
      let w1 = (get_int key w).1 in
      let same = (get_int-Same w.db.subscriptions w.now key).run w (refl, refl) in
      let h1 = sym (ap (λ r. r.0) q) ∙ h in
      elim (Bool-cases (leb_ℤ limit (pos (count of_player w1.db.subscriptions)))) [
        | inl over ↦ absurd (refused (rw over at h1))
        | inr below ↦
            let (id, added_) = adding-subscriptions w1 (rw below at h1) in
            (
              limit,
              e,
              ap (λ subs. leb_ℤ limit (pos (count of_player subs))) (sym same.0) ∙ below,
              id,
              ap (λ r. r.1.db.subscriptions) q
                  ∙ rw below (
                      added_
                      ∙ ap (λ subs. subs ++ MarketRepo.new_subscription id w1.now player aoid ∷ [])
                          same.0
                      ∙ ap
                          (λ now.
                            w.db.subscriptions
                            ++ MarketRepo.new_subscription id now player aoid ∷ [])
                          same.1),
            )
      ]
    where
      refused : {e : Error} → ◌≡◌ {A = Result Item} (err e) (ok i) → ⊥
      refused e = cc

  denied-raises : (w : World) {i : Item} → ¬ ((denied env player aoid w).0 ≡ ok i)
  unfolding denied
  denied-raises w {i} h =
      let (t, e, q) =
        bind-inv (log_action env player "watch_denied" (some aoid))
          (λ _. raise (not_registered player)) w h in
      refused (sym (ap (λ r. r.0) q) ∙ h)
    where
      refused : {e : Error} → ◌≡◌ {A = Result Item} (err e) (ok i) → ⊥
      refused e = cc

  -- The guards before the limit
  subscribe_item-limited :
      (w : World) {i : Item}
      → (subscribe_item env player aoid (some item) w).0 ≡ ok i
      → (has_user w.db player ≡ true)
        × (any (is_subscription player aoid) w.db.subscriptions ≡ false)
        × (subscribe_item env player aoid (some item) w ≡ limited w)
  unfolding subscribe_item limited adding MarketRepo.is_registered MarketRepo.get_subscription ◌>>=◌
  subscribe_item-limited w {i} h = elim (Bool-cases (is_some (find (is_user player) w.db.users))) [
    | inr unknown ↦ absurd (denied-raises w (rw unknown at h))
    | inl known ↦
        elim (Bool-cases (is_some (find (is_subscription player aoid) w.db.subscriptions))) [
          | inl watched ↦ absurd (refused (rw (known, watched) at h))
          | inr unwatched ↦ (
            sym (is_some-find (is_user player) w.db.users) ∙ known,
            sym (is_some-find (is_subscription player aoid) w.db.subscriptions) ∙ unwatched,
            rw known (rw unwatched refl),
          )
        ]
  ]
    where
      refused : {e : Error} → ◌≡◌ {A = Result Item} (err e) (ok i) → ⊥
      refused e = cc

-- From one world to another by one subscription: the player is registered, did not watch the item
-- and has fewer subscriptions than the setting says; one without bounds is added.
abbrev pub IsAdded : String → ℕ → World → World → Type 0
IsAdded player aoid w w' =
    (has_user w.db player ≡ true)
    × (any (is_subscription player aoid) w.db.subscriptions ≡ false)
    × (limit : ℤ) × ((get_int "MaxSubscriptionsPerPlayer" w).0 ≡ ok limit)
    × (leb_ℤ limit
          (pos (count (λ s. str_eq (MarketSubscription.player s) player) w.db.subscriptions))
        ≡ false)
    × (id : ℕ) × (w'.db.subscriptions
        ≡ w.db.subscriptions ++ MarketRepo.new_subscription id w.now player aoid ∷ [])

item-IsAdded :
    (env : Env) (player : String) (aoid : ℕ) (found : Option Item) (w : World) {i : Item}
    → (subscribe_item env player aoid found w).0 ≡ ok i
    → IsAdded player aoid w (subscribe_item env player aoid found w).1
unfolding subscribe_item of_player ◌>>=◌
item-IsAdded env player aoid none w {i} h = absurd (refused h)
  where
    refused : ◌≡◌ {A = Result Item} (err (unknown_item aoid)) (ok i) → ⊥
    refused e = cc
item-IsAdded env player aoid (some item) w h =
    let (known, unwatched, q) = subscribe_item-limited env player aoid item w h in
    let (limit, e, below, id, subs) =
      limited-below env player aoid item w (sym (ap (λ r. r.0) q) ∙ h) in
    (known, unwatched, limit, e, below, id, ap (λ r. r.1.db.subscriptions) q ∙ subs)

-- A subscription that succeeds was asked for by a registered player who did not watch the item and
-- had fewer subscriptions than the setting allows, and it adds exactly one subscription, without
-- bounds, to those that were there.
pub subscribe-IsAdded :
    (env : Env) (player : String) (aoid : ℕ) (w : World) {i : Item}
    → (subscribe env player aoid w).0 ≡ ok i
    → IsAdded player aoid w (subscribe env player aoid w).1
unfolding subscribe ◌>>=◌
subscribe-IsAdded env player aoid w h =
    let (found, e, q) = bind-inv (lift (env.get_item aoid)) (subscribe_item env player aoid) w h in
    subst (λ r. IsAdded player aoid w r.1) (sym q)
      (item-IsAdded env player aoid found w (sym (ap (λ r. r.0) q) ∙ h))
