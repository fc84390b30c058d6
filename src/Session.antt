-- ===== src/Session.antt =====
-- core/security.py, api/deps.py and the middleware `validate_token` of main.py: who a request comes
-- from. `Jwt` is the library jose with the configured key; a handler is a parameter, which is given
-- the state that the middleware leaves in the request.
mod Token
pub mod Reading
pub mod Accepts
pub mod Gate
pub use Token.*
use skyline_apiserver_extens.Common.{
  ℕ, String, Bool, true, false, ◌||◌, Option, none, some, List, [], ◌∷◌, ◌++◌, ◌==◌, any,
  if◌then◌else◌, ◌⊎◌, inl, inr, map_option,
}
use text.Mathlib.Text.{starts_with}
use skyline_apiserver_extens.Common.Int.{ℤ, ◌+ℤ◌, ◌-ℤ◌, leb_ℤ}
use skyline_apiserver_extens.Runtime.{Exn, http, other, Result, ok}
use skyline_apiserver_extens.Db.{check_token}
use skyline_apiserver_extens.World.{
  World, M, ◌>>=◌, ◌>>◌, pure, raise, lift, query, ask, time, try_except,
}
use skyline_apiserver_extens.Profile.{Profile, Project, User}
use skyline_apiserver_extens.Keystone.{Keystone, TokenData, get_token_data, get_user}

pub record Jwt : Type 0 where
  -- by the time of the call
  pub decode : ℤ → String → Result Claims
  pub encode : Payload → String

pub record SessionConf : Type 0 where
  pub access_token_expire : ℤ
  pub access_token_renew : ℤ
  pub default_region : String
  -- `CONF.default.session_name`
  pub session_name : String
  -- `str(e)`, `str(n)`, `uuid.uuid4().hex`
  pub str_of : Exn → String
  pub str_of_int : ℤ → String
  pub uuid4_hex : World → String

-- A request, as far as the middleware reads it: its path and the session cookie.
pub record Request : Type 0 where
  pub path : String
  pub cookie : Option String

-- `request.state`: `profile`, and `new_token` and `new_exp` where the token needs renewal
pub record State : Type 0 where
  pub profile : Option Profile
  pub renewal : Option (String × String)

pub record Response : Type 0 where
  pub status_code : ℕ
  pub detail : String
  pub cookies : List (String × String)

abbrev pub fresh_state : State
fresh_state = record { profile = none; renewal = none }

abbrev pub unauthorized : String → Response
unauthorized detail = record { status_code = 401; detail = detail; cookies = [] }

abbrev pub ignore_urls : List String
ignore_urls =
    "/api/v1/login" ∷ "/api/v1/logout" ∷ "/api/v1/signup" ∷ "/api/v1/websso" ∷ "/static" ∷ "/docs"
    ∷ "/api/v1/openapi.json" ∷ "/favicon.ico" ∷ "/api/v1/sso" ∷ "/api/v1/contrib/keystone_endpoints"
    ∷ "/api/v1/contrib/regions" ∷ "/api/v1/limits" ∷ []

unfoldable pub is_ignored : String → Bool
is_ignored path = any (starts_with path) ignore_urls

-- the details of the middleware's `except` clauses; jose's errors on claims are JWTErrors
abbrev pub token_error : Exn → String
token_error (http _ _) = "Session expired or invalid. Please log in again."
token_error (other name) =
    if name == "ExpiredSignatureError"
    then "The token has expired."
    else if name == "JWTError" || name == "JWTClaimsError"
    then "Invalid token"
    else "Session expired or invalid. Please log in again."

-- the middleware's `except` clauses
unfoldable pub refuse : Exn → M (Response ⊎ State)
refuse e = pure (inl (unauthorized (token_error e)))

module _ (keystone : Keystone) (conf : SessionConf) (jwt : Jwt) where
  unfoldable pub parse_access_token : String → M Payload
  parse_access_token token = do
    now ← time
    claims ← lift (jwt.decode now token)
    lift (payload_of claims)

  -- the `try` of `generate_profile`
  unfoldable pub token_owner : String → M (TokenData × User)
  token_owner keystone_token =
      try_except
        (do
          ask keystone.get_system_session
          info ← get_token_data keystone keystone_token
          user ← get_user keystone info.user_id
          owner ← lift (profile_user info user)
          pure (info, owner))
        (λ _. raise (http 401 "Authentication failed"))

  -- `schemas.Profile(…)`, with the time and a fresh identifier
  abbrev pub profile_from :
      String → String → Option ℤ → Option String → TokenData × User → ℤ → String → Project → Profile
  profile_from keystone_token region exp uuid_value found now uuid project = record {
    keystone_token = keystone_token;
    region = region;
    exp = exp_or exp (now +ℤ conf.access_token_expire);
    uuid = text_or uuid_value uuid;
    project = project;
    user = found.1;
    roles = found.0.roles;
  }

  unfoldable pub generate_profile : String → String → Option ℤ → Option String → M Profile
  generate_profile keystone_token region exp uuid_value = do
    found ← token_owner keystone_token
    now ← time
    uuid ← ask (λ w. ok (conf.uuid4_hex w))
    project ← lift (required found.0.project)
    pure (profile_from keystone_token region exp uuid_value found now uuid project)

  unfoldable pub generate_profile_by_token : Payload → M Profile
  generate_profile_by_token token =
      generate_profile token.keystone_token token.region (some token.exp) (some token.uuid)

  -- deps.py
  unfoldable pub get_jwt_payload : State → Option String
  get_jwt_payload state = elim state.profile [
    | none ↦ none
    | some profile ↦ some (jwt.encode (to_payload profile))
  ]

  unfoldable pub get_profile_from_header : Option String → M Profile
  get_profile_from_header none = raise (http 401 "Authorization header missing")
  get_profile_from_header (some token) =
      if token == ""
      then raise (http 401 "Authorization header missing")
      else (try_except (generate_profile token conf.default_region none none)
          (λ e. raise (http 401 (conf.str_of e))))

  unfoldable pub get_profile : State → Option String → M Profile
  unfolding get_profile_from_header
  get_profile state authorization = elim state.profile [
    | some profile ↦ pure profile
    | none ↦ elim authorization [
      | none ↦ raise (http 401 "Profile not found in request state")
      | some token ↦
          (if token == ""
            then raise (http 401 "Profile not found in request state")
            else get_profile_from_header (some token))
    ]
  ]

  -- `renewed_payload`
  abbrev pub renewed : Profile → ℤ → Payload
  renewed profile now = record {
    keystone_token = profile.keystone_token;
    region = profile.region;
    exp = now +ℤ conf.access_token_expire;
    uuid = profile.uuid;
  }

  -- the payload that a session is renewed with, where it is to be
  abbrev pub renewed_payload : Profile → ℤ → Option Payload
  renewed_payload profile now =
      if leb_ℤ (profile.exp -ℤ now) conf.access_token_renew
      then some (renewed profile now)
      else none

  -- `new_token` and `new_exp`
  abbrev pub renewal_cookies : Payload → String × String
  renewal_cookies payload = (jwt.encode payload, conf.str_of_int payload.exp)

  abbrev pub state_of : Profile → ℤ → State
  state_of profile now = record {
    profile = some profile;
    renewal = map_option renewal_cookies (renewed_payload profile now);
  }

  -- the middleware once a token was parsed: a refusal, or the state that the handler is given
  unfoldable pub check_payload : Payload → M (Response ⊎ State)
  check_payload token = do
    revoked ← query (check_token token.uuid)
    if revoked then pure (inl (unauthorized "The token has revoked.")) else (do
      profile ← generate_profile_by_token token
      now ← time
      pure (inr (state_of profile now)))

  -- its `try`
  unfoldable pub check_cookie : String → M (Response ⊎ State)
  check_cookie payload_str = try_except (parse_access_token payload_str >>= check_payload) refuse

  abbrev pub with_renewal : Option (String × String) → Response → Response
  with_renewal none response = response
  with_renewal (some (token, exp)) response = record response {
    cookies = response.cookies ++ (conf.session_name, token) ∷ ("time_expired", exp) ∷ [];
  }

  -- what follows `call_next`
  unfoldable pub proceed : (State → M Response) → State → M Response
  proceed call_next state = do
    response ← call_next state
    pure (with_renewal state.renewal response)

  unfoldable pub validate_token : Request → (State → M Response) → M Response
  unfolding is_ignored proceed
  validate_token request call_next =
      if is_ignored request.path then call_next fresh_state else elim request.cookie [
        | none ↦ proceed call_next fresh_state
        | some payload_str ↦
            (if payload_str == ""
              then proceed call_next fresh_state
              else (check_cookie payload_str >>= λ checked. elim checked [
                | inl refusal ↦ pure refusal
                | inr state ↦ proceed call_next state
              ]))
      ]
