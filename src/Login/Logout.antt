-- ===== src/Login/Logout.antt =====
-- What logging out does, and what the middleware makes of it.
use skyline_apiserver_extens.Common.{String, ◌≡◌, refl, true, Option, none, some, arith}
use text.Mathlib.Text.{starts_with}
use skyline_apiserver_extens.World.{World, M}
use skyline_apiserver_extens.World.Reads.{
  Reads, use-Reads, Reads-ask, Reads-pure, Reads-then, Reads-option, Reads-try,
}
use skyline_apiserver_extens.Keystone.{Keystone}
use skyline_apiserver_extens.Activity.{Sessions}
use skyline_apiserver_extens.Session.{
  Jwt, SessionConf, Request, State, Response, is_ignored, get_jwt_payload, validate_token,
}
use skyline_apiserver_extens.Login.{LogoutBody, given, drop_token, drop_body, close, logout}

module _ (keystone : Keystone) (conf : SessionConf) (jwt : Jwt) (sessions : Sessions) where
  drop_token-Reads :
      (token : String) (body : LogoutBody)
      → Reads (drop_token keystone conf jwt sessions token body)
  unfolding drop_token
  drop_token-Reads token body = Reads-then (Reads-ask _) (Reads-then (Reads-ask _) (Reads-ask _))

  drop_body-Reads : (body : Option LogoutBody) → Reads (drop_body keystone conf jwt sessions body)
  unfolding drop_body
  drop_body-Reads none = Reads-pure tt
  drop_body-Reads (some body) =
      Reads-option (given body.keystone_token) (Reads-pure tt)
        (λ token. Reads-try (drop_token-Reads token body) (λ _. Reads-pure tt))

  logout-none-Reads :
      (body : Option LogoutBody) → Reads (logout keystone conf jwt sessions body none)
  unfolding logout close
  logout-none-Reads body = Reads-then (drop_body-Reads body) (Reads-pure _)

  -- the handler, as the middleware calls it: `payload` is `getJWTPayload(request)`
  abbrev pub handler : Option LogoutBody → State → M Response
  handler body state =
      logout keystone conf jwt sessions body (get_jwt_payload keystone conf jwt state)

  ignored : (path : String) → starts_with path "/api/v1/logout" ≡ true → is_ignored path ≡ true
  unfolding is_ignored
  ignored path h = ground (arith, h)

  -- A request to log out revokes nothing, with or without the cookie of a session: its path is one
  -- that the middleware ignores, so the handler is given no session. The database is as before, no
  -- request was sent that would revoke a token, and
  -- the answer is that of a log out without a session.
  pub logout_revokes_nothing :
      (request : Request) (body : Option LogoutBody) (w : World)
      → starts_with request.path "/api/v1/logout" ≡ true
      → ((validate_token keystone conf jwt request (handler body) w).1 ≡ w)
        × (validate_token keystone conf jwt request (handler body) w
            ≡ logout keystone conf jwt sessions body none w)
  unfolding validate_token get_jwt_payload
  logout_revokes_nothing request body w h =
      rw (ignored request.path h) (use-Reads (logout-none-Reads body) w, refl)
