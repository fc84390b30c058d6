-- ===== src/Session/Reading.antt =====
-- Finding out who a request comes from changes nothing.
use skyline_apiserver_extens.Common.{String, Option, eqb}
use skyline_apiserver_extens.Common.Int.{ℤ}
use skyline_apiserver_extens.Runtime.{Result}
use skyline_apiserver_extens.World.{World, M, ◌>>=◌, ask}
use skyline_apiserver_extens.World.Reads.{
  Reads, Reads-lift, Reads-ask, Reads-pure, Reads-raise, Reads-time, Reads-if, Reads-try,
  Reads-bind, Reads-then,
}
use skyline_apiserver_extens.Keystone.{Keystone, Reply, get_token_data, get_user}
use skyline_apiserver_extens.Session.{
  Jwt, SessionConf, Payload, parse_access_token, token_owner, generate_profile,
  generate_profile_by_token,
}

-- A question to Keystone by the token of the system.
pub asks-Reads {ℓ} :
    {A : Type 0} {B : Type ℓ} (keystone : Keystone) (answer : World → String → Result (Reply A))
    {f : Reply A → M B}
    → ((r : Reply A) → Reads (f r))
    → Reads (ask keystone.system_token >>= λ t. ask (λ w. answer w t) >>= f)
asks-Reads keystone answer h = Reads-bind (Reads-ask _) (λ t. Reads-bind (Reads-ask _) h)

module _ (keystone : Keystone) where
  pub get_token_data-Reads : (token : String) → Reads (get_token_data keystone token)
  unfolding get_token_data
  get_token_data-Reads token =
      asks-Reads keystone _ (λ r. Reads-if (eqb r.status_code 200) (Reads-lift _) (Reads-raise _))

  pub get_user-Reads : (id : String) → Reads (get_user keystone id)
  unfolding get_user
  get_user-Reads id =
      asks-Reads keystone _ (λ r. Reads-if (eqb r.status_code 200) (Reads-lift _) (Reads-raise _))

  module _ (conf : SessionConf) (jwt : Jwt) where
    pub parse_access_token-Reads :
        (token : String) → Reads (parse_access_token keystone conf jwt token)
    unfolding parse_access_token
    parse_access_token-Reads token =
        Reads-bind Reads-time (λ now. Reads-bind (Reads-lift _) (λ c. Reads-lift _))

    pub token_owner-Reads : (token : String) → Reads (token_owner keystone conf jwt token)
    unfolding token_owner
    token_owner-Reads token =
        Reads-try
          (Reads-then (Reads-ask _) (
            Reads-bind (get_token_data-Reads token) (λ info.
              Reads-bind (get_user-Reads info.user_id)
                (λ user. Reads-bind (Reads-lift _) (λ owner. Reads-pure _)))))
          (λ e. Reads-raise _)

    pub generate_profile-Reads :
        (token region : String) (exp : Option ℤ) (uuid : Option String)
        → Reads (generate_profile keystone conf jwt token region exp uuid)
    unfolding generate_profile
    generate_profile-Reads token region exp uuid = Reads-bind (token_owner-Reads token) (λ found.
        Reads-bind Reads-time (λ now.
          Reads-bind (Reads-ask _) (λ uuid. Reads-bind (Reads-lift _) (λ project. Reads-pure _))))

    pub generate_profile_by_token-Reads :
        (token : Payload) → Reads (generate_profile_by_token keystone conf jwt token)
    unfolding generate_profile_by_token
    generate_profile_by_token-Reads token = generate_profile-Reads _ _ _ _
