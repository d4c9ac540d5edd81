-- ===== src/Api/Guarded.antt =====
-- What a request keeps behind its guard.
use aomarket_bot.Prelude.{String, ◌≡◌, true, Option, none, some}
use aomarket_bot.Exec.{World}
use aomarket_bot.Exec.Keeps.{Keeps, Keeps-bind, Keeps-catch, keeps_rules}
use aomarket_bot.Market.Dispatch.Kept.{Writes}
use aomarket_bot.Auth.{AuthConfig, Access, granted, refused}
use aomarket_bot.Auth
use aomarket_bot.Api.Requests.{Request, error_response}
use aomarket_bot.Api.Answers.{App}
use aomarket_bot.Api.Serve.{
  Guard, anyone, admin_only, player_only, guard_of, handle, admitted, behind, serve,
}
use aomarket_bot.Api.Kept.{AdminWrites, player_of, may_write, handle-Kept}

module _ (P : World → Type 0) (app : App) where
  -- A route without a guard is its handler.
  pub serve_open-Kept :
      (header : Option String) (request : Request)
      → guard_of request ≡ anyone
      → Keeps P (handle app request)
      → Keeps P (serve app header request)
  unfolding serve behind
  serve_open-Kept header request e k =
      Keeps-catch error_response (behind app (guard_of request) header request) (rw e k)

  module _ (keeps_touch : (header : String) → Keeps P (Auth.authenticate app.config header)) where
    header-Kept : (header : Option String) → Keeps P (Auth.check_header app.config header)
    unfolding Auth.check_header
    header-Kept none = search keeps_rules
    header-Kept (some header) = search (keeps_rules, keeps_touch)

    admin_key-Kept : (header : Option String) → Keeps P (Auth.require_admin_key app.config header)
    unfolding Auth.require_admin_key
    admin_key-Kept header = search (keeps_rules, header-Kept)

    player_key-Kept :
        (player : String) (header : Option String)
        → Keeps P (Auth.require_player_key app.config player header)
    unfolding Auth.require_player_key
    player_key-Kept player header = search (keeps_rules, header-Kept)

    admitted-Kept :
        (access : Access) (request : Request)
        → Keeps P (handle app request)
        → Keeps P (admitted app access request)
    unfolding admitted
    admitted-Kept (refused status) request k = search keeps_rules
    admitted-Kept (granted principal) request k = k

    behind-Kept :
        (guard : Guard) (header : Option String) (request : Request)
        → Keeps P (handle app request)
        → Keeps P (behind app guard header request)
    unfolding behind
    behind-Kept anyone header request k = k
    behind-Kept admin_only header request k =
        Keeps-bind _ _ (admin_key-Kept header) λ access. admitted-Kept access request k
    behind-Kept (player_only player) header request k =
        Keeps-bind _ _ (player_key-Kept player header) λ access. admitted-Kept access request k

    pub serve-Kept :
        (header : Option String) (request : Request)
        → (may_write request ≡ true → Writes P app.env app.config (player_of request))
        → (guard_of request ≡ admin_only → AdminWrites P app)
        → Keeps P (serve app header request)
    unfolding serve
    serve-Kept header request ws aws =
        Keeps-catch _ _
          (behind-Kept (guard_of request) header request (handle-Kept P app request ws aws))
