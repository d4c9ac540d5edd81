-- ===== src/Auth/Keys.antt =====
-- auth/service.py: a key authenticates its player until it is revoked.
use aomarket_bot.Prelude.{
  String, ◌≡◌, ◌≢◌, refl, sym, ap, ◌∙◌, inl, inr, Bool, true, false, not, ◌&&◌, ◌++◌, Option, none,
  some, List, [], ◌∷◌, str_eq, eq_iff, eq_refl, arith, Bool-cases, Option-cases, ◌==◌,
}
use aomarket_bot.Prelude.Int.{ℤ}
use aomarket_bot.Prelude.Table.{any, find, update, any-update, any-append, is_some-find}
use aomarket_bot.Db.{ApiKey, is_user, is_key, has_user}
use aomarket_bot.Exec.{World, Result, ok, pure, bind-ok, ◌>>=◌}
use aomarket_bot.ApiKeyRepo
use aomarket_bot.ApiKeyRepo.{is_active, is_active_of, revoke, new_key, put_key, accepts_key, touch}
use aomarket_bot.MarketRepo
use aomarket_bot.Auth.{
  ensure_registered, admin_flag, AuthConfig, ApiKeyPrincipal, authenticate, principal_of,
  is_admin_player, generate_key, revoke_keys, prefix, generate_token,
}

abbrev pub opens : String → ApiKey → Bool
opens key_hash k = is_key key_hash k && is_active k

-- A row that is found among the revoked ones is not the player's.
find-revoked :
    (player key_hash : String) (now : ℤ) (ks : List ApiKey) {k : ApiKey}
    → find (opens key_hash) (update (is_active_of player) (revoke now) ks) ≡ some k
    → str_eq k.player player ≡ false
find-revoked player key_hash now [] h = absurd (ground (arith, h))
find-revoked player key_hash now (k ∷ ks) {k = found} h =
    ground (arith, find-revoked player key_hash now ks {k = found})

find-fresh :
    (key_hash : String) (ks : List ApiKey) (k : ApiKey)
    → any (is_key key_hash) ks ≡ false
    → opens key_hash k ≡ true
    → find (opens key_hash) (ks ++ k ∷ []) ≡ some k
find-fresh key_hash [] k n o = rw o refl
find-fresh key_hash (l ∷ ks) k n o = ground (arith, find-fresh key_hash ks k)

register-new :
    (player : String) (w : World)
    → has_user w.db player ≡ false
    → MarketRepo.register player w
      ≡ (ok tt, record w { db = MarketRepo.add_user player w.now w.db })
unfolding MarketRepo.register ◌>>=◌
register-new player w new = rw new refl

create-accepted :
    (player key_hash shown : String) (w : World)
    → accepts_key player key_hash w.db ≡ true
    → ApiKeyRepo.create player key_hash shown w
      ≡ (ok tt, record w { db = put_key w.now player key_hash shown w.db })
unfolding ApiKeyRepo.create ◌>>=◌
create-accepted player key_hash shown w e = rw e refl

module _ (config : AuthConfig) where
  pub is_admin_player-ok :
      (player : String) (w : World)
      → (admin : Bool) × (is_admin_player config player w ≡ (ok admin, w))
  unfolding is_admin_player MarketRepo.get_user ◌>>=◌
  is_admin_player-ok player w =
      elim (Bool-cases
        (not (str_eq config.owner_character "") && str_eq player config.owner_character)) [
          | inl owner ↦ (true, rw owner refl)
          | inr other ↦ (admin_flag config (find (is_user player) w.db.users), rw other refl)
        ]

  principal_of-ok :
      (key : ApiKey) (w : World)
      → (admin : Bool) × ((principal_of config key w).0
          ≡ ok (some (record { player = key.player; is_admin = admin })))
  unfolding principal_of ApiKeyRepo.touch_last_used ◌>>=◌
  principal_of-ok key w =
      let touched = record w {
        db = record w.db { api_keys = update (λ k. k.id == key.id) (touch w.now) w.db.api_keys };
      } in
      let (admin, e) = is_admin_player-ok key.player touched in (admin, rw e refl)

  -- The principal of a key is the key's player.
  principal_of-player :
      (key : ApiKey) (w : World) {p : ApiKeyPrincipal}
      → (principal_of config key w).0 ≡ ok (some p)
      → p.player ≡ key.player
  principal_of-player key w {p} h = let (admin, e) = principal_of-ok key w in same admin (sym e ∙ h)
    where
      same :
          (admin : Bool)
          → ◌≡◌ {A = Result (Option ApiKeyPrincipal)}
              (ok (some (record { player = key.player; is_admin = admin })))
              (ok (some p))
          → p.player ≡ key.player
      same admin e = cc

  -- What `authenticate` answers, by the row that the lookup finds
  pub authenticate-none :
      (raw : String) (w : World)
      → find (opens (config.hash raw)) w.db.api_keys ≡ none
      → (authenticate config raw w).0 ≡ ok none
  unfolding authenticate ApiKeyRepo.get_by_hash ◌>>=◌
  authenticate-none raw w e = rw e refl

  pub authenticate-some :
      (raw : String) (w : World) {k : ApiKey}
      → find (opens (config.hash raw)) w.db.api_keys ≡ some k
      → (authenticate config raw w).0 ≡ (principal_of config k w).0
  unfolding authenticate ApiKeyRepo.get_by_hash ◌>>=◌
  authenticate-some raw w e = rw e refl

  -- Once a player's keys are revoked, no token authenticates as the player, whatever the hash is.
  pub authenticate-revoke_keys :
      (player : String) (w : World) (raw : String) {p : ApiKeyPrincipal}
      → (authenticate config raw (revoke_keys config player w).1).0 ≡ ok (some p)
      → p.player ≢ player
  unfolding revoke_keys ApiKeyRepo.revoke_all_for_player ◌>>=◌
  authenticate-revoke_keys player w raw {p} h =
      let after = (revoke_keys config player w).1 in
      elim (Option-cases (find (opens (config.hash raw)) after.db.api_keys)) [
        | inl e ↦ absurd (nobody (sym (authenticate-none raw after e) ∙ h))
        | inr (k, e) ↦
            let mine = principal_of-player k after (sym (authenticate-some raw after e) ∙ h) in
            let apart = find-revoked player (config.hash raw) w.now w.db.api_keys e in
            λ same. ground (arith, apart, mine, same, eq_iff k.player player)
      ]
    where
      nobody : ◌≡◌ {A = Result (Option ApiKeyPrincipal)} (ok none) (ok (some p)) → ⊥
      nobody e = cc

  -- A player that was unknown has a row afterwards; the keys are as they were.
  ensure_registered-ok :
      (player : String) (w : World)
      → (w' : World) × (ensure_registered config player w ≡ (ok tt, w'))
        × (has_user w'.db player ≡ true)
        × (w'.db.api_keys ≡ w.db.api_keys)
  unfolding ensure_registered MarketRepo.is_registered ◌>>=◌
  ensure_registered-ok player w = elim (Bool-cases (has_user w.db player)) [
    | inl known ↦ (w, rw (is_some-find (is_user player) w.db.users) (rw known refl), known, refl)
    | inr new ↦ (
      record w { db = MarketRepo.add_user player w.now w.db },
      rw (is_some-find (is_user player) w.db.users) (rw new (register-new player w new)),
      ground (
        arith,
        any-append (is_user player) w.db.users (MarketRepo.new_user player w.now ∷ []),
        eq_refl player,
      ),
      refl,
    )
  ]

  -- The database after a key is made: the player's old keys revoked, and the new one last
  abbrev with_key : String → String → World → World
  with_key raw player w =
      let old = record w.db {
        api_keys = update (is_active_of player) (revoke w.now) w.db.api_keys;
      } in
      record w { db = put_key w.now player (config.hash raw) (prefix raw) old }

  generate_key-ok :
      (random player : String) (w : World)
      → any (is_key (config.hash (generate_token random))) w.db.api_keys ≡ false
      → (w' : World) × (generate_key config random player w
          ≡ (ok (generate_token random), with_key (generate_token random) player w'))
        × (any (is_key (config.hash (generate_token random))) w'.db.api_keys ≡ false)
  unfolding generate_key ApiKeyRepo.revoke_all_for_player ◌>>=◌
  generate_key-ok random player w fresh =
      let (w1, e, known, same) = ensure_registered-ok player w in
      let raw = generate_token random in
      let old = record w1 {
        db = record w1.db {
          api_keys = update (is_active_of player) (revoke w1.now) w1.db.api_keys;
        };
      } in
      let unused =
        any-update (is_key (config.hash raw)) (is_active_of player) (revoke w1.now) w1.db.api_keys
          (λ k. refl)
        ∙ ap (any (is_key (config.hash raw))) same
        ∙ fresh in
      (
        w1,
        bind-ok (ensure_registered config player) _ w e
            ∙ bind-ok (ApiKeyRepo.create player (config.hash raw) (prefix raw)) (λ _. pure raw) old
                (create-accepted player (config.hash raw) (prefix raw) old
                  (rw known (rw unused refl))),
        ap (any (is_key (config.hash raw))) same ∙ fresh,
      )

  -- A new token whose hash no row has yet is handed out, the player registered if need be, and
  -- from then on the token authenticates, as that player.
  pub authenticate-generate_key :
      (random player : String) (w : World)
      → any (is_key (config.hash (generate_token random))) w.db.api_keys ≡ false
      → ((generate_key config random player w).0 ≡ ok (generate_token random))
        × (admin : Bool) × ((authenticate config
              (generate_token random)
              (generate_key config random player w).1).0
            ≡ ok (some (record { player = player; is_admin = admin })))
  authenticate-generate_key random player w fresh =
      let raw = generate_token random in
      let (w1, e, unused) = generate_key-ok random player w fresh in
      let old = update (is_active_of player) (revoke w1.now) w1.db.api_keys in
      let key = new_key w1.db.next_id w1.now player (config.hash raw) (prefix raw) in
      let still_unused =
        any-update (is_key (config.hash raw)) (is_active_of player) (revoke w1.now) w1.db.api_keys
          (λ k. refl)
        ∙ unused in
      let found =
        find-fresh (config.hash raw) old key still_unused (rw (eq_refl (config.hash raw)) refl) in
      let (admin, p) = principal_of-ok key (with_key raw player w1) in
      (
        ap (λ r. r.0) e,
        admin,
        ap (λ r. (authenticate config raw (r.1)).0) e
            ∙ authenticate-some raw (with_key raw player w1) found
            ∙ p,
      )
