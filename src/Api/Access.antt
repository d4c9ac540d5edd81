-- ===== src/Api/Access.antt =====
-- What the routes change, and for whom.
use aomarket_bot.Prelude.{
  String, ◌≡◌, ◌≢◌, refl, ap, arith, Bool, true, false, ◌||◌, ◌==◌, Option, none, some, str_eq,
  if◌then◌else◌, Bool-cases, inl, inr,
}
use aomarket_bot.Prelude.Table.{find, update}
use aomarket_bot.Db.{Db, ApiKey}
use aomarket_bot.Exec.{Error, World, Action, ok, catch, ◌>>=◌}
use aomarket_bot.ApiKeyRepo
use aomarket_bot.Auth.{
  AuthConfig, granted, refused, principal_of, authenticate, check_header, require_admin_key,
  require_player_key,
}
use aomarket_bot.Auth.Keys.{opens}
use aomarket_bot.Auth.Admins.{is_admin_in, is_admin_player-in}
use aomarket_bot.Api.Requests.{Request, Body, respond, error_response}
use aomarket_bot.Api.Answers.{App}
use aomarket_bot.Api.Serve.{
  Guard, anyone, admin_only, player_only, guard_of, admitted, behind, serve,
}
use aomarket_bot.Api.Kept.{may_write, is_guarded, is_guarded-anyone, handle-Kept}
use aomarket_bot.Api.Guarded.{serve_open-Kept}

or-false : (a b : Bool) → a || b ≡ false → (a ≡ false) × (b ≡ false)
or-false a b h = (ground arith, ground arith)

clash : {b : Bool} → b ≡ true → b ≡ false → ⊥
clash h n = ground arith

-- A request that neither registers a player nor stands behind a guard changes nothing: no table,
-- no message, whatever the services answer and whether the handler returns or raises.
pub serve-read :
    (app : App) (header : Option String) (request : Request) (w : World)
    → may_write request ≡ false
    → (serve app header request w).1 ≡ w
serve-read app header request w reads_only =
    let (unguarded, other) = or-false (is_guarded (guard_of request)) _ reads_only in
    (serve_open-Kept (λ v. v ≡ w) app header request (is_guarded-anyone _ unguarded)
        (handle-Kept _ app request (λ e. absurd (clash e reads_only))
          (λ e. absurd (clash (ap is_guarded e) unguarded)))).run
      w refl

-- The active key whose token a header holds
abbrev pub key_of : AuthConfig → Option String → World → Option ApiKey
key_of config none w = none
key_of config (some token) w =
    if str_eq token "" then none else find (opens (config.hash token)) w.db.api_keys

module _ (config : AuthConfig) where
  -- A header without an active key is answered, and nothing is written.
  check_header-none :
      (header : Option String) (w : World)
      → key_of config header w ≡ none
      → check_header config header w ≡ (ok (refused 401), w)
  unfolding check_header authenticate ApiKeyRepo.get_by_hash ◌>>=◌
  check_header-none none w e = refl
  check_header-none (some token) w e = elim (Bool-cases (str_eq token "")) [
    | inl empty ↦ rw empty refl
    | inr filled ↦ let missing = rw filled at e in rw (filled, missing) refl
  ]

catch_ok :
    {A : Type 0} (handler : Error → Option A) (m : Action A) (w : World) {a : A} {v : World}
    → m w ≡ (ok a, v)
    → catch handler m w ≡ (ok a, v)
unfolding catch
catch_ok handler m w e = rw e refl

behind-none :
    (app : App) (guard : Guard) (header : Option String) (request : Request) (w : World)
    → guard ≢ anyone
    → key_of app.config header w ≡ none
    → behind app guard header request w ≡ (ok (respond 401 Body.no_content), w)
unfolding behind admitted require_admin_key require_player_key ◌>>=◌
behind-none app anyone header request w guarded e = absurd (guarded refl)
behind-none app admin_only header request w guarded e =
    rw (check_header-none app.config header w e) refl
behind-none app (player_only player) header request w guarded e =
    rw (check_header-none app.config header w e) refl

-- A route behind a guard answers 401 to a request whose header is missing or empty, or holds no
-- active key, and changes nothing.
pub serve-unauthorized :
    (app : App) (header : Option String) (request : Request) (w : World)
    → guard_of request ≢ anyone
    → key_of app.config header w ≡ none
    → serve app header request w ≡ (ok (respond 401 Body.no_content), w)
unfolding serve
serve-unauthorized app header request w guarded missing =
    catch_ok error_response (behind app (guard_of request) header request) w
      (behind-none app (guard_of request) header request w guarded missing)

-- Whom a guard lets through
abbrev pub permits : AuthConfig → Guard → ApiKey → Db → Bool
permits config anyone key db = true
permits config admin_only key db = is_admin_in config key.player db
permits config (player_only player) key db =
    is_admin_in config key.player db || str_eq key.player player

-- The time of the last use of a key, which is all that a refusal writes
abbrev pub touched : ApiKey → World → World
touched key w = record w {
  db = record w.db {
    api_keys = update (λ k. k.id == key.id) (ApiKeyRepo.touch w.now) w.db.api_keys;
  };
}

module _ (config : AuthConfig) where
  principal_of-touched :
      (key : ApiKey) (w : World)
      → principal_of config key w ≡ (
        ok (some (record { player = key.player; is_admin = is_admin_in config key.player w.db })),
        touched key w,
      )
  unfolding principal_of ApiKeyRepo.touch_last_used ◌>>=◌
  principal_of-touched key w = rw (is_admin_player-in config key.player (touched key w)) refl

  check_header-some :
      (header : Option String) (w : World) {key : ApiKey}
      → key_of config header w ≡ some key
      → check_header config header w ≡ (
        ok (
            granted
              (record { player = key.player; is_admin = is_admin_in config key.player w.db })),
        touched key w,
      )
  unfolding check_header authenticate ApiKeyRepo.get_by_hash ◌>>=◌
  check_header-some none w e = absurd (ground (arith, e))
  check_header-some (some token) w {key} e = elim (Bool-cases (str_eq token "")) [
    | inl empty ↦ absurd (ground (arith, e, empty))
    | inr filled ↦
        let found = rw filled at e in rw (filled, found) (rw (principal_of-touched key w) refl)
  ]

behind-denied :
    (app : App) (guard : Guard) (header : Option String) (request : Request) (w : World)
    {key : ApiKey}
    → key_of app.config header w ≡ some key
    → permits app.config guard key w.db ≡ false
    → behind app guard header request w ≡ (ok (respond 403 Body.no_content), touched key w)
unfolding behind admitted require_admin_key require_player_key ◌>>=◌
behind-denied app anyone header request w e denied = absurd (ground (arith, denied))
behind-denied app admin_only header request w e denied =
    rw (check_header-some app.config header w e) (rw denied refl)
behind-denied app (player_only player) header request w e denied =
    rw (check_header-some app.config header w e) (rw denied refl)

-- A route behind a guard answers 403 to an active key whose player is neither an admin nor, where
-- the route is about a player, that player, and nothing but the time of the key's last use is
-- written.
pub serve-forbidden :
    (app : App) (header : Option String) (request : Request) (w : World) {key : ApiKey}
    → key_of app.config header w ≡ some key
    → permits app.config (guard_of request) key w.db ≡ false
    → serve app header request w ≡ (ok (respond 403 Body.no_content), touched key w)
unfolding serve
serve-forbidden app header request w e denied =
    catch_ok error_response (behind app (guard_of request) header request) w
      (behind-denied app (guard_of request) header request w e denied)
