-- ===== src/Market/Alerts/Delivery.antt =====
-- `deliver_pending_alerts` of service.py, over `pop_pending_alerts` of market_repo.py.
use aomarket_bot.Prelude.{
  ℕ, String, ◌≡◌, refl, Bool, true, ◌∙◌, ap, Option, none, some, List, [], ◌∷◌, ◌++◌, map, str_eq,
  ◌==◌, length, arith, All, All-mono,
}
use mathlib.Core.List.{append-nil as append_nil, append_assoc}
use aomarket_bot.Prelude.Int.{leb_ℤ}
use aomarket_bot.Prelude.Table.{any, select, count, delete, order_by, any-order_by, length-order_by}
use aomarket_bot.Db.{Db, MarketPendingAlert}
use aomarket_bot.Exec.{World, Error, Message, tell, ok, for_each, pure, ◌>>=◌}
use aomarket_bot.Exec.Keeps.{Keeps, Keeps-raise, Keeps-pure, Keeps-for_each, Keeps-bind}
use aomarket_bot.MarketRepo.{drop_alerts, pop_pending_alerts}
use aomarket_bot.Market.Env.{Env}
use aomarket_bot.Market.Announce.{send_tell, call_tell, deliver}
use aomarket_bot.Market.Alerts.{deliver_pending_alerts}

abbrev pub of_player : String → MarketPendingAlert → Bool
of_player player a = str_eq a.player player

abbrev pub by_age : MarketPendingAlert → MarketPendingAlert → Bool
by_age a b = leb_ℤ a.created_at b.created_at

abbrev pub queued : String → Db → List MarketPendingAlert
queued player db = order_by by_age (select (of_player player) db.pending_alerts)

matched :
    (p : MarketPendingAlert → Bool) (xs : List MarketPendingAlert)
    → All (λ a. p a ≡ true → any (λ b. b.id == a.id) (select p xs) ≡ true) xs
matched p [] = tt
matched p (x ∷ xs) =
    (λ h. ground (arith, h), All-mono _ _ xs (λ a old h. ground (arith, old h)) (matched p xs))

any_id :
    (id : ℕ) (xs : List MarketPendingAlert)
    → any (λ i. i == id) (map (λ a. MarketPendingAlert.id a) xs) ≡ any (λ b. b.id == id) xs
any_id id [] = refl
any_id id (x ∷ xs) = rw (any_id id xs)

select-drop :
    (p : MarketPendingAlert → Bool) (ids : List ℕ) (xs : List MarketPendingAlert)
    → All (λ a. p a ≡ true → any (λ i. i == a.id) ids ≡ true) xs
    → select p (delete (λ a. any (λ i. i == a.id) ids) xs) ≡ []
select-drop p ids [] h = refl
select-drop p ids (x ∷ xs) h = ground (arith, select-drop p ids xs h.1, h.0)

-- Nothing of the player stays queued once its alerts are deleted by their ids.
select-drop_queued :
    (player : String) (db : Db)
    → select
        (of_player player)
        (drop_alerts (map (λ a. MarketPendingAlert.id a) (queued player db)) db).pending_alerts
      ≡ []
select-drop_queued player db = select-drop (of_player player) _ db.pending_alerts (
    All-mono _ _ db.pending_alerts
      (λ a h mine.
        any_id a.id _
        ∙ any-order_by (λ b. b.id == a.id) by_age (select (of_player player) db.pending_alerts)
        ∙ h mine)
      (matched (of_player player) db.pending_alerts))

abbrev pub tells : String → List MarketPendingAlert → List Message
tells player = map (λ a. tell player (MarketPendingAlert.message a))

-- A callback that accepts every message to a player
module _ (env : Env) (player : String) {f : String → String → Option Error}
    (set : env.chat.send_tell ≡ some f) (fine : (message : String) → f player message ≡ none) where
  tell_one :
      (message : String) (w : World)
      → send_tell env player message w
        ≡ (ok tt, record w { outbox = w.outbox ++ tell player message ∷ [] })
  unfolding send_tell call_tell deliver ◌>>=◌
  tell_one message w = rw set (rw (fine message) refl)

  -- The loop sends each alert, in its order.
  tell_all :
      (as_ : List MarketPendingAlert) (w : World)
      → for_each as_ (λ a. send_tell env player (MarketPendingAlert.message a)) w
        ≡ (ok tt, record w { outbox = w.outbox ++ tells player as_ })
  unfolding for_each ◌>>=◌
  tell_all [] w = rw (append_nil w.outbox) refl
  tell_all (a ∷ as_) w = rw (tell_one a.message w) (
      rw (← append_assoc w.outbox (tell player a.message ∷ []) (tells player as_)) (tell_all as_ _))

module _ (alerts : List MarketPendingAlert) where
  abbrev Queue : World → Type 0
  Queue w = w.db.pending_alerts ≡ alerts

  deliver-Keeps : (m : Message) (e : Option Error) → Keeps Queue (deliver m e)
  unfolding deliver ◌>>=◌
  deliver-Keeps m none = record { run = λ w h. h }
  deliver-Keeps m (some e) = Keeps-raise e

  call_tell-Keeps :
      (callback : Option (String → String → Option Error)) (player message : String)
      → Keeps Queue (call_tell callback player message)
  unfolding call_tell
  call_tell-Keeps none player message = Keeps-pure tt
  call_tell-Keeps (some f) player message = deliver-Keeps _ (f player message)

  send_all-Keeps :
      (env : Env) (player : String) (as_ : List MarketPendingAlert)
      → Keeps Queue (for_each as_ (λ a. send_tell env player (MarketPendingAlert.message a)))
  unfolding send_tell
  send_all-Keeps env player as_ =
      Keeps-for_each as_ _ (λ a. call_tell-Keeps env.chat.send_tell player a.message)

-- Whatever becomes of the messages, no alert of the player is queued after the call: also one
-- whose message raised, or stood behind one that did.
pub deliver_pending_alerts-empties :
    (env : Env) (player : String) (w : World)
    → select (of_player player) (deliver_pending_alerts env player w).1.db.pending_alerts ≡ []
unfolding deliver_pending_alerts pop_pending_alerts ◌>>=◌
deliver_pending_alerts-empties env player w =
    let alerts = queued player w.db in
    let db = drop_alerts (map (λ a. MarketPendingAlert.id a) alerts) w.db in
    ap (select (of_player player)) (
      (Keeps-bind _ (λ _. pure (length alerts)) (send_all-Keeps db.pending_alerts env player alerts)
          (λ _. Keeps-pure (length alerts))).run
        (record w { db = db }) refl)
    ∙ select-drop_queued player w.db

-- With a callback that accepts every message to the player, the call sends the player's queued
-- alerts, the oldest first, returns how many they were, and leaves none of them queued.
pub deliver_pending_alerts-sends :
    (env : Env) (player : String) (w : World) {f : String → String → Option Error}
    → env.chat.send_tell ≡ some f
    → ((message : String) → f player message ≡ none)
    → ((deliver_pending_alerts env player w).0 ≡ ok (count (of_player player) w.db.pending_alerts))
      × ((deliver_pending_alerts env player w).1.outbox
          ≡ w.outbox ++ tells player (queued player w.db))
      × (select (of_player player) (deliver_pending_alerts env player w).1.db.pending_alerts ≡ [])
unfolding deliver_pending_alerts pop_pending_alerts ◌>>=◌
deliver_pending_alerts-sends env player w set fine =
    let alerts = queued player w.db in
    let w1 = record w { db = drop_alerts (map (λ a. MarketPendingAlert.id a) alerts) w.db } in
    let sent = tell_all env player set fine alerts w1 in
    (
      rw sent
          (ap (λ n. ok n) (length-order_by by_age (select (of_player player) w.db.pending_alerts))),
      rw sent refl,
      deliver_pending_alerts-empties env player w,
    )
