-- ===== src/Market/Watching/Bulk.antt =====
-- What `unsubscribe_bulk` of service.py removes, and what it says that it removed.
use aomarket_bot.Prelude.{
  ℕ, String, ◌≡◌, refl, sym, ap, ◌∙◌, Bool, true, false, not, ◌&&◌, ◌||◌, some, List, [], ◌∷◌, All,
  ltb, ◌==◌, arith, str_eq, if◌then◌else◌, Bool-cases, inl, inr,
}
use mathlib.Core.Path.{subst}
use aomarket_bot.Prelude.Table.{any, select, delete}
use aomarket_bot.Db.{MarketSubscription, is_subscription}
use aomarket_bot.Exec.{World, Result, ok, pure, bind-inv, ◌>>=◌}
use aomarket_bot.MarketRepo
use aomarket_bot.Market.Env.{Env}
use aomarket_bot.Market.Announce.{log_action}
use aomarket_bot.Market.Watching.{put_sorted, sorted_set, unsubscribe_each, unsubscribe_bulk}
use aomarket_bot.Market.Watching.Untouched.{log_action-Same}

-- The player watches the item.
abbrev pub watches : String → List MarketSubscription → ℕ → Bool
watches player subs aoid = any (is_subscription player aoid) subs

-- The subscriptions that go
abbrev pub listed : String → List ℕ → MarketSubscription → Bool
listed player aoids s = str_eq s.player player && any (λ a. a == s.aoid) aoids

watches-delete :
    (player : String) (a b : ℕ) (subs : List MarketSubscription)
    → (a == b) ≡ false
    → watches player (delete (is_subscription player a) subs) b ≡ watches player subs b
watches-delete player a b [] h = refl
watches-delete player a b (s ∷ subs) h = ground (arith, watches-delete player a b subs h)

select-agree :
    (f g : ℕ → Bool) (a : ℕ) (bs : List ℕ)
    → any (λ b. a == b) bs ≡ false
    → ((b : ℕ) → (a == b) ≡ false → f b ≡ g b)
    → select f bs ≡ select g bs
select-agree f g a [] h agree = refl
select-agree f g a (b ∷ bs) h agree = ground (arith, select-agree f g a bs, agree b, h)

delete-twice :
    (player : String) (a : ℕ) (as_ : List ℕ) (subs : List MarketSubscription)
    → delete (listed player as_) (delete (is_subscription player a) subs)
      ≡ delete (listed player (a ∷ as_)) subs
delete-twice player a as_ [] = refl
delete-twice player a as_ (s ∷ subs) = ground (arith, delete-twice player a as_ subs)

any-put_sorted :
    (a b : ℕ) (bs : List ℕ) → any (λ c. c == b) (put_sorted a bs) ≡ (a == b) || any (λ c. c == b) bs
any-put_sorted a b [] = refl
any-put_sorted a b (c ∷ bs) = ground (arith, any-put_sorted a b bs)

any-sorted_set : (b : ℕ) (bs : List ℕ) → any (λ c. c == b) (sorted_set bs) ≡ any (λ c. c == b) bs
any-sorted_set b [] = refl
any-sorted_set b (c ∷ bs) = ground (arith, any-put_sorted c b (sorted_set bs), any-sorted_set b bs)

-- Every element is greater than `a`.
abbrev pub Above : ℕ → List ℕ → Type 0
Above a = All (λ b. ltb a b ≡ true)

abbrev pub Ascending : List ℕ → Type 0
Ascending [] = Unit
Ascending (a ∷ as_) = Above a as_ × Ascending as_

Above-below : (a b : ℕ) (bs : List ℕ) → ltb a b ≡ true → Above b bs → Above a bs
Above-below a b [] lt h = tt
Above-below a b (c ∷ bs) lt (h, hs) = (ground (arith, lt, h), Above-below a b bs lt hs)

Above-put_sorted : (x a : ℕ) (bs : List ℕ) → ltb x a ≡ true → Above x bs → Above x (put_sorted a bs)
Above-put_sorted x a [] lt h = (lt, tt)
Above-put_sorted x a (b ∷ bs) lt (h, hs) = elim (Bool-cases (ltb a b)) [
  | inl first ↦ rw first (lt, (h, hs))
  | inr later ↦ elim (Bool-cases (a == b)) [
    | inl same ↦ rw (later, same) (h, hs)
    | inr apart ↦ rw (later, apart) (h, Above-put_sorted x a bs lt hs)
  ]
]

Ascending-put_sorted : (a : ℕ) (bs : List ℕ) → Ascending bs → Ascending (put_sorted a bs)
Ascending-put_sorted a [] h = (tt, tt)
Ascending-put_sorted a (b ∷ bs) (above, rises) = elim (Bool-cases (ltb a b)) [
  | inl first ↦ rw first ((first, Above-below a b bs first above), (above, rises))
  | inr later ↦ elim (Bool-cases (a == b)) [
    | inl same ↦ rw (later, same) (above, rises)
    | inr apart ↦
        rw (later, apart)
          (
            Above-put_sorted b a bs (ground (arith, later, apart)) above,
            Ascending-put_sorted a bs rises,
          )
  ]
]

Ascending-sorted_set : (as_ : List ℕ) → Ascending (sorted_set as_)
Ascending-sorted_set [] = tt
Ascending-sorted_set (a ∷ as_) = Ascending-put_sorted a (sorted_set as_) (Ascending-sorted_set as_)

any-Above : (a : ℕ) (bs : List ℕ) → Above a bs → any (λ b. a == b) bs ≡ false
any-Above a [] h = refl
any-Above a (b ∷ bs) (h, hs) = ground (arith, h, any-Above a bs hs)

-- What the loop gives from the items `as_` on the subscriptions `subs`
abbrev Split : String → List ℕ → List MarketSubscription → List ℕ × List ℕ → Type 0
Split player as_ subs (removed, not_watched) =
    (removed ≡ select (watches player subs) as_)
    × (not_watched ≡ select (λ a. not (watches player subs a)) as_)

delete-nobody :
    (player : String) (subs : List MarketSubscription) → subs ≡ delete (listed player []) subs
delete-nobody player [] = refl
delete-nobody player (s ∷ subs) = ground (arith, delete-nobody player subs)

listed-same :
    (player : String) (aoids : List ℕ) (subs : List MarketSubscription)
    → delete (listed player (sorted_set aoids)) subs ≡ delete (listed player aoids) subs
listed-same player aoids [] = refl
listed-same player aoids (s ∷ subs) =
    ground (arith, listed-same player aoids subs, any-sorted_set s.aoid aoids)

module _ (env : Env) (player : String) where
  deleted-lem :
      (a : ℕ) (w : World) {deleted : Bool}
      → (MarketRepo.delete_subscription player a w).0 ≡ ok deleted
      → (deleted ≡ watches player w.db.subscriptions a)
        × ((MarketRepo.delete_subscription player a w).1.db.subscriptions
            ≡ delete (is_subscription player a) w.db.subscriptions)
  unfolding MarketRepo.delete_subscription ◌>>=◌
  deleted-lem a w h = (sym (ok_same h), refl)
    where
      ok_same : {x y : Bool} → ◌≡◌ {A = Result Bool} (ok x) (ok y) → x ≡ y
      ok_same e = cc

  ok_pair : {x y : List ℕ × List ℕ} → ◌≡◌ {A = Result (List ℕ × List ℕ)} (ok x) (ok y) → x ≡ y
  ok_pair e = cc

  pure-ok : {x y : List ℕ × List ℕ} (w : World) → (pure x w).0 ≡ ok y → x ≡ y
  unfolding ◌>>=◌
  pure-ok w e = ok_pair e

  pure-db : (x : List ℕ × List ℕ) (w : World) → (pure x w).1.db.subscriptions ≡ w.db.subscriptions
  unfolding ◌>>=◌
  pure-db x w = refl

  -- The rest of the list is watched as before: the items differ.
  rest-same :
      (a : ℕ) (as_ : List ℕ) (subs : List MarketSubscription)
      → Above a as_
      → (select (watches player (delete (is_subscription player a) subs)) as_
          ≡ select (watches player subs) as_)
        × (select (λ b. not (watches player (delete (is_subscription player a) subs) b)) as_
            ≡ select (λ b. not (watches player subs b)) as_)
  rest-same a as_ subs above = (
    select-agree _ _ a as_ (any-Above a as_ above) (λ b. watches-delete player a b subs),
    select-agree _ _ a as_ (any-Above a as_ above)
        (λ b h. ap not (watches-delete player a b subs h)),
  )

  Split-cons :
      (a : ℕ) (as_ : List ℕ) (subs : List MarketSubscription) (d : Bool) (r' r : List ℕ × List ℕ)
      → Above a as_
      → d ≡ watches player subs a
      → Split player as_ (delete (is_subscription player a) subs) r'
      → (if d then (a ∷ r'.0, r'.1) else (r'.0, a ∷ r'.1)) ≡ r
      → Split player (a ∷ as_) subs r
  Split-cons a as_ subs true r' r above hd (s, t) e =
      let (s', t') = rest-same a as_ subs above in
      rw (sym hd) (sym (ap (λ x. x.0) e) ∙ ap (λ x. a ∷ x) (s ∙ s'), sym (ap (λ x. x.1) e) ∙ t ∙ t')
  Split-cons a as_ subs false r' r above hd (s, t) e =
      let (s', t') = rest-same a as_ subs above in
      rw (sym hd) (sym (ap (λ x. x.0) e) ∙ s ∙ s', sym (ap (λ x. x.1) e) ∙ ap (λ x. a ∷ x) (t ∙ t'))

  each-Split :
      (as_ : List ℕ) (w : World) {r : List ℕ × List ℕ}
      → Ascending as_
      → (unsubscribe_each env player as_ w).0 ≡ ok r
      → Split player as_ w.db.subscriptions r
        × ((unsubscribe_each env player as_ w).1.db.subscriptions
            ≡ delete (listed player as_) w.db.subscriptions)
  unfolding unsubscribe_each
  each-Split [] w {r} rises h = (
    (sym (ap (λ x. x.0) (pure-ok w h)), sym (ap (λ x. x.1) (pure-ok w h))),
    pure-db ([], []) w ∙ delete-nobody player w.db.subscriptions,
  )
  each-Split (a ∷ as_) w {r} (above, rises) h =
      let del = MarketRepo.delete_subscription player a in
      let log = log_action env player "unwatch" (some a) in
      let each = unsubscribe_each env player as_ in
      let w1 = (del w).1 in
      let w2 = (log w1).1 in
      let (d, e1, q1) = bind-inv del _ w h in
      let (t, e2, q2) = bind-inv log _ w1 (sym (ap (λ x. x.0) q1) ∙ h) in
      let (r', e3, q3) = bind-inv each _ w2 (sym (ap (λ x. x.0) (q1 ∙ q2)) ∙ h) in
      let same : w2.db.subscriptions ≡ w1.db.subscriptions =
        ((log_action-Same w1.db.subscriptions w1.now env player "unwatch" (some a)).run w1
          (refl, refl)).0 in
      let (hd, gone) = deleted-lem a w e1 in
      let (split, after) = each-Split as_ w2 rises e3 in
      (
        Split-cons a as_ w.db.subscriptions d r' r above hd
            (subst (λ subs. Split player as_ subs r') (same ∙ gone) split)
            (pure-ok (each w2).1 (sym (ap (λ x. x.0) (q1 ∙ q2 ∙ q3)) ∙ h)),
        ap (λ x. x.1.db.subscriptions) (q1 ∙ q2 ∙ q3)
            ∙ pure-db (if d then (a ∷ r'.0, r'.1) else (r'.0, a ∷ r'.1)) (each w2).1
            ∙ after
            ∙ ap (delete (listed player as_)) (same ∙ gone)
            ∙ delete-twice player a as_ w.db.subscriptions,
      )

-- `unsubscribe_bulk`, where it returns, splits the items asked for, each once and in rising order,
-- into those that the player was subscribed to and those that the player was not, and removes the
-- player's subscriptions to those items and no other subscription.
pub unsubscribe_bulk-Split :
    (env : Env) (player : String) (aoids : List ℕ) (w : World) {removed not_watched : List ℕ}
    → (unsubscribe_bulk env player aoids w).0 ≡ ok (removed, not_watched)
    → ((removed ≡ select (watches player w.db.subscriptions) (sorted_set aoids))
        × (not_watched
            ≡ select (λ a. not (watches player w.db.subscriptions a)) (sorted_set aoids)))
      × ((unsubscribe_bulk env player aoids w).1.db.subscriptions
          ≡ delete (listed player aoids) w.db.subscriptions)
      × Ascending (sorted_set aoids)
      × ((a : ℕ) → any (λ b. b == a) (sorted_set aoids) ≡ any (λ b. b == a) aoids)
unfolding unsubscribe_bulk
unsubscribe_bulk-Split env player aoids w h =
    let rises = Ascending-sorted_set aoids in
    let (split, after) = each-Split env player (sorted_set aoids) w rises h in
    (split, after ∙ listed-same player aoids w.db.subscriptions, rises, λ a. any-sorted_set a aoids)
