-- ===== src/Auth/Gate.antt =====
-- auth_deps.py: whom the dependencies of the HTTP routes let through.
use aomarket_bot.Prelude.{
  String, ◌≡◌, ◌≢◌, ◌↔◌, ◌==◌, not, ◌&&◌, refl, sym, ap, ◌∙◌, ◌⊎◌, inl, inr, Bool, true, false,
  ◌||◌, Option, none, some, str_eq, eq_iff, arith, Bool-cases, Option-cases,
}
use mathlib.Core.Path.{subst}
use aomarket_bot.Prelude.Table.{find, update}
use aomarket_bot.Db.{Db, ApiKey, MarketUser, is_user}
use aomarket_bot.ApiKeyRepo
use aomarket_bot.ApiKeyRepo.{touch}
use aomarket_bot.Auth.Admins.{is_admin_in, is_admin_player-in}
use aomarket_bot.Exec.{World, Result, ok, pure, bind-pure, ◌>>=◌}
use aomarket_bot.Auth.{
  AuthConfig, ApiKeyPrincipal, Access, granted, refused, principal_of, authenticate, check_header,
  admit, require_admin_key, require_player_key,
}
use aomarket_bot.Auth.Keys.{opens, authenticate-none, authenticate-some}

abbrev pub holder : ApiKey → Bool → ApiKeyPrincipal
holder key admin = record { player = key.player; is_admin = admin }

module _ (config : AuthConfig) where
  -- A header holds an active key, whose player the principal is.
  abbrev pub Holds : Option String → World → ApiKeyPrincipal → Type 0
  Holds header w p =
      (raw : String) × (key : ApiKey) × (header ≡ some raw)
      × (find (opens (config.hash raw)) w.db.api_keys ≡ some key)
      × (p.player ≡ key.player)

  -- An admin, by the configuration and the tables: the owner, where one is named, or a player
  -- whose row has the flag
  abbrev pub IsAdmin : String → Db → Type 0
  IsAdmin player db =
      ((config.owner_character ≢ "") × (player ≡ config.owner_character))
      ⊎ ((u : MarketUser) × (find (is_user player) db.users ≡ some u) × (u.is_admin ≡ true))

  IsOwner-true :
      (player owner : String)
      → not (str_eq owner "") && str_eq player owner ≡ true
      → (owner ≢ "") × (player ≡ owner)
  IsOwner-true player owner h =
      ((λ e. ground (arith, h, e, eq_iff owner "")), ground (arith, h, eq_iff player owner))

  IsOwner-false :
      (player owner : String)
      → not (str_eq owner "") && str_eq player owner ≡ false
      → owner ≢ ""
      → player ≢ owner
  IsOwner-false player owner h filled e =
      ground (arith, h, filled, e, eq_iff owner "", eq_iff player owner)

  IsAdmin-is_admin_in :
      (player : String) (db : Db) → is_admin_in config player db ≡ true → IsAdmin player db
  IsAdmin-is_admin_in player db h =
      elim (Bool-cases
        (not (str_eq config.owner_character "") && str_eq player config.owner_character)) [
          | inl owner ↦ inl (IsOwner-true player config.owner_character owner)
          | inr other ↦ elim (Option-cases (find (is_user player) db.users)) [
            | inl unknown ↦ absurd (ground (arith, rw (other, unknown) at h))
            | inr (u, e) ↦ inr (u, e, rw (other, e) at h)
          ]
        ]

  is_admin_in-IsAdmin :
      (player : String) (db : Db) → IsAdmin player db → is_admin_in config player db ≡ true
  is_admin_in-IsAdmin player db (inl (filled, same)) =
      elim (Bool-cases
        (not (str_eq config.owner_character "") && str_eq player config.owner_character)) [
          | inl owner ↦ rw owner refl
          | inr other ↦ absurd (IsOwner-false player config.owner_character other filled same)
        ]
  is_admin_in-IsAdmin player db (inr (u, e, flag)) = rw (e, flag) (ground arith)

  principal_of-admin :
      (key : ApiKey) (w : World)
      → (principal_of config key w).0 ≡ ok (some (holder key (is_admin_in config key.player w.db)))
  unfolding principal_of ApiKeyRepo.touch_last_used ◌>>=◌
  principal_of-admin key w =
      let touched = record w {
        db = record w.db { api_keys = update (λ k. k.id == key.id) (touch w.now) w.db.api_keys };
      } in
      rw (is_admin_player-in config key.player touched) refl

  -- The answer to a header that is there and not empty
  check_text :
      (text : String) (w : World)
      → str_eq text "" ≡ false
      → ((check_header config (some text) w).0 ≡ ok (refused 401))
        ⊎ ((p : ApiKeyPrincipal) × ((check_header config (some text) w).0 ≡ ok (granted p))
            × Holds (some text) w p
            × (some text ≢ some "")
            × (p.is_admin ≡ is_admin_in config p.player w.db))
  unfolding check_header
  check_text text w filled = elim (Option-cases (find (opens (config.hash text)) w.db.api_keys)) [
    | inl missing ↦ inl (
        rw filled
          (bind-pure (authenticate config text) _ w (authenticate-none config text w missing)))
    | inr (key, e) ↦ inr (
      holder key (is_admin_in config key.player w.db),
      rw filled (
          bind-pure (authenticate config text) _ w
            (authenticate-some config text w e ∙ principal_of-admin key w)),
      (text, key, refl, e, refl),
      (λ same. ground (arith, filled, same, eq_iff text "")),
      refl,
    )
  ]

  check_header-cases :
      (header : Option String) (w : World)
      → ((check_header config header w).0 ≡ ok (refused 401))
        ⊎ ((p : ApiKeyPrincipal) × ((check_header config header w).0 ≡ ok (granted p))
            × Holds header w p
            × (header ≢ some "")
            × (p.is_admin ≡ is_admin_in config p.player w.db))
  unfolding check_header ◌>>=◌
  check_header-cases none w = inl refl
  check_header-cases (some text) w = elim (Bool-cases (str_eq text "")) [
    | inl empty ↦ inl (rw empty refl)
    | inr filled ↦ check_text text w filled
  ]

  -- Who passes a condition on principals: a holder of an active key that meets it.
  admitted :
      (allowed : ApiKeyPrincipal → Bool) (header : Option String) (w : World) {p : ApiKeyPrincipal}
      → ((check_header config header >>= λ access. pure (admit config allowed access)) w).0
        ≡ ok (granted p)
      → Holds header w p
        × (header ≢ some "")
        × (p.is_admin ≡ is_admin_in config p.player w.db)
        × (allowed p ≡ true)
  admitted allowed header w {p} h = elim (check_header-cases header w) [
    | inl e ↦
        absurd (apart (sym (bind-pure (check_header config header) (admit config allowed) w e) ∙ h))
    | inr (q, e, holds, shown, admin) ↦ elim (Bool-cases (allowed q)) [
      | inl meets ↦
          let same = principal_same q (
            sym (bind-pure (check_header config header) (admit config allowed) w e ∙ rw meets refl)
            ∙ h) in
          subst
            (λ r.
              Holds header w r
              × (header ≢ some "")
              × (r.is_admin ≡ is_admin_in config r.player w.db)
              × (allowed r ≡ true))
            same (holds, shown, admin, meets)
      | inr fails ↦ absurd (
          apart' (
            sym (bind-pure (check_header config header) (admit config allowed) w e ∙ rw fails refl)
            ∙ h))
    ]
  ]
    where
      apart : ◌≡◌ {A = Result Access} (ok (refused 401)) (ok (granted p)) → ⊥
      apart e = cc

      apart' : ◌≡◌ {A = Result Access} (ok (refused 403)) (ok (granted p)) → ⊥
      apart' e = cc

      principal_same :
          (q : ApiKeyPrincipal) → ◌≡◌ {A = Result Access} (ok (granted q)) (ok (granted p)) → q ≡ p
      principal_same q e = cc

  -- A route that asks for a player's key lets a request through only with the text of an active
  -- key in its header, as that key's player, who is the player of the route or an admin.
  pub require_player_key-granted :
      (player : String) (header : Option String) (w : World) {p : ApiKeyPrincipal}
      → (require_player_key config player header w).0 ≡ ok (granted p)
      → Holds header w p × ((p.is_admin ≡ true) ⊎ (p.player ≡ player))
  unfolding require_player_key
  require_player_key-granted player header w {p} h =
      let (holds, _, _, allowed) =
        admitted (λ q. q.is_admin || str_eq q.player player) header w h in
      (holds, ground (arith, allowed, eq_iff p.player player))

  Holds-check_header :
      (header : Option String) (w : World) (p : ApiKeyPrincipal)
      → Holds header w p
      → header ≢ some ""
      → (check_header config header w).0
        ≡ ok (granted (record { player = p.player; is_admin = is_admin_in config p.player w.db }))
  unfolding check_header
  Holds-check_header none w p (raw, key, shown, opened, same) filled = cc
  Holds-check_header (some text) w p (raw, key, shown, opened, same) filled =
      let found : find (opens (config.hash text)) w.db.api_keys ≡ some key = cc in
      elim (Bool-cases (str_eq text "")) [
        | inl empty ↦ absurd (ground (arith, empty, filled, eq_iff text ""))
        | inr shown ↦
            rw (shown, same)
              (bind-pure (authenticate config text) _ w
                (authenticate-some config text w found ∙ principal_of-admin key w))
      ]

  -- A route that asks for an admin's key lets a request through as a principal exactly when its
  -- header is the text of an active key and not empty, the principal is that key's player, marked
  -- as an admin, and this player is the owner, where one is named, or has a row with the flag of an
  -- admin.
  pub require_admin_key-granted :
      (header : Option String) (w : World) (p : ApiKeyPrincipal)
      → ((require_admin_key config header w).0 ≡ ok (granted p))
        ↔ ((header ≢ some "") × Holds header w p × (p.is_admin ≡ true) × IsAdmin p.player w.db)
  unfolding require_admin_key
  require_admin_key-granted header w p = (
    (λ h.
        let (holds, filled, admin, allowed) = admitted (λ q. q.is_admin) header w h in
        (filled, holds, allowed, IsAdmin-is_admin_in p.player w.db (sym admin ∙ allowed))),
    (λ (filled, holds, flag, admin).
        let known = is_admin_in-IsAdmin p.player w.db admin in
        bind-pure (check_header config header) (admit config (λ q. q.is_admin)) w
          (Holds-check_header header w p holds filled)
        ∙ rw known
            (ap (λ b. ok (granted (record { player = p.player; is_admin = b }))) (sym flag))),
  )
