-- ===== src/Login/Outcomes.antt =====
-- What logging in and switching the project come to.
use Prim.Native.String
use skyline_apiserver_extens.Common.{
  String, ◌≡◌, refl, sym, ap, ◌∙◌, subst, none, some, ◌⊎◌, inl, inr,
}
use skyline_apiserver_extens.Common.Int.{ℤ}
use skyline_apiserver_extens.Runtime.{http, ok, err}
use skyline_apiserver_extens.Db.{Db, create_activity_record}
use skyline_apiserver_extens.World.{World, M, steps, ◌>>=◌, ◌>>◌, pure, ask, time, execute}
use skyline_apiserver_extens.World.Keeps.{keeps-ask}
use skyline_apiserver_extens.World.Reads.{Reads, Reads-bind, bind-ok, try-Outcome}
use skyline_apiserver_extens.World.Transacts.{
  AllOrNothing, Transacts, transacts, use-Transacts, Transacts-bind, Transacts-then,
  Transacts-handle, Transacts-raise, Transacts-pure,
}
use skyline_apiserver_extens.Profile.{Profile}
use skyline_apiserver_extens.Keystone.{Keystone, get_project_scope_token}
use skyline_apiserver_extens.Activity.{Sessions, create_activity}
use skyline_apiserver_extens.Session.{Jwt, SessionConf, generate_profile, text_or}
use skyline_apiserver_extens.Session.Reading.{generate_profile-Reads}
use skyline_apiserver_extens.Session.Accepts.{generate_profile-from}
use skyline_apiserver_extens.Login.Reading.{
  get_project_scope_token-Reads, patch_profile-Reads, enter-Reads,
}
use skyline_apiserver_extens.Login.Entering.{Scoped, patch_profile-profile, enter-Scoped}
use skyline_apiserver_extens.Login.{
  Credential, Patched, Cookies, patch_profile, session_cookies, login, websso, switch_project,
}

module _ (keystone : Keystone) (conf : SessionConf) (jwt : Jwt) (sessions : Sessions) where
  -- What `enter` makes for a credential.
  abbrev pub Entered : Credential → World → Patched → Type 0
  Entered credential w patched =
      Scoped keystone conf jwt sessions (some credential.domain) (some credential.username)
        (some credential.password) none w patched

  -- One activity of a log in, by the session's own user and project.
  abbrev pub LoggedIn : Patched → Patched × Cookies → Db → Db → Type 0
  LoggedIn patched a d d' =
      (a ≡ (patched, session_cookies keystone conf jwt sessions patched.profile))
      × ((user_id : String) × (project_id : String) × (message : String) × (token : String)
          × (now : ℤ) × (d'
              ≡ create_activity_record user_id project_id "login" message "success" token now d))

  -- One activity, by the user and the project of a session.
  abbrev Recorded : String → String → String → Unit {0} → Db → Db → Type 0
  Recorded category message status _ d d' =
      (user_id : String) × (project_id : String) × (token : String) × (now : ℤ) × (d'
        ≡ create_activity_record user_id project_id category message status token now d)

  insert-Transacts :
      (category message status user_id project_id token : String)
      → Transacts (Recorded category message status) (
          time >>= λ now.
          execute (create_activity_record user_id project_id category message status token now))
  unfolding steps
  insert-Transacts category message status user_id project_id token =
      transacts λ w. inr (tt, refl, (user_id, project_id, token, w.clock, refl))

  create_activity-Transacts :
      (profile : Profile) (category message status : String)
      → Transacts
          (Recorded category message status)
          (create_activity sessions profile category message status)
  unfolding create_activity
  create_activity-Transacts profile category message status =
      let P = Recorded category message status in
      Transacts-handle P
        (Transacts-bind P (keeps-ask _) (λ token. Transacts-bind P (keeps-ask _) (λ user_id.
          Transacts-bind P (keeps-ask _)
            (λ project_id. insert-Transacts category message status user_id project_id token))))
        (λ e. Transacts-raise P _)

  -- what `login` does once it has a profile
  abbrev after_enter : Patched → M (Patched × Cookies)
  after_enter patched =
      ask (λ w. sessions.generate_session w patched.profile)
      >> (create_activity sessions patched.profile "login"
            (String.◌++◌ "User " (String.◌++◌ patched.profile.user.name " logged in successfully."))
            "success"
          >> pure (patched, session_cookies keystone conf jwt sessions patched.profile))

  after_enter-Transacts : (patched : Patched) → Transacts (LoggedIn patched) (after_enter patched)
  unfolding ◌>>◌
  after_enter-Transacts patched = Transacts-then (LoggedIn patched) (keeps-ask _) (
      Transacts-pure _ (LoggedIn patched) _ (λ a d e r. (refl, (r.0, r.1, _, r.2, r.3, r.4)))
        (create_activity-Transacts patched.profile _ _ _))

  -- Logging in ends in one of two ways. It is refused by 401 and nothing changes, or a profile was
  -- made with the token of Keystone for a project that was found enabled. Then the rest is all or
  -- nothing: the session or the activity fails and the database is as before, or the profile is
  -- answered with its two cookies and one activity of a log in is what was added.
  pub login_lem :
      (credential : Credential) (w : World)
      → (login keystone conf jwt sessions credential w
          ≡ (err (http 401 "Invalid credentials or unauthorized"), w))
        ⊎ ((patched : Patched) × Entered credential w patched
            × AllOrNothing (LoggedIn patched) w.db (login keystone conf jwt sessions credential w))
  unfolding login ◌>>=◌
  login_lem credential w =
      elim (try-Outcome
        (enter-Reads keystone conf jwt sessions (text_or credential.region conf.default_region)
          (some credential.domain) (some credential.username) (some credential.password) none)
        (http 401 "Invalid credentials or unauthorized") after_enter w) [
          | inl refused ↦ inl refused
          | inr (patched, entered, q) ↦ inr (
            patched,
            enter-Scoped keystone conf jwt sessions _ _ _ _ _ w patched entered,
            subst (AllOrNothing (LoggedIn patched) w.db) (sym q)
                (use-Transacts (LoggedIn patched) (after_enter-Transacts patched) w),
          )
        ]

  -- the profile of a project, as `switch_project` makes it
  abbrev switching : String → Profile → M Patched
  switching project_id profile = do
    token ← get_project_scope_token keystone profile.keystone_token project_id
    new_profile ← generate_profile keystone conf jwt token profile.region none none
    patch_profile keystone conf jwt sessions new_profile

  switching-Reads : (project_id : String) (profile : Profile) → Reads (switching project_id profile)
  switching-Reads project_id profile =
      Reads-bind (get_project_scope_token-Reads keystone _ _) (λ token.
        Reads-bind (generate_profile-Reads keystone conf jwt token _ none none)
          (λ new_profile. patch_profile-Reads keystone conf jwt sessions new_profile))

  switching-token :
      (project_id : String) (profile : Profile) (w : World) (patched : Patched)
      → (switching project_id profile w).0 ≡ ok patched
      → keystone.scoped_token w profile.keystone_token project_id
        ≡ ok patched.profile.keystone_token
  unfolding get_project_scope_token ask
  switching-token project_id profile w patched h =
      let a = bind-ok (get_project_scope_token-Reads keystone _ _) _ w patched h in
      let b = bind-ok (generate_profile-Reads keystone conf jwt a.0 _ none none) _ w patched a.2 in
      let made = generate_profile-from keystone conf jwt a.0 profile.region none none w b.0 b.1 in
      a.1
      ∙ ap ok (
          sym (
            ap (λ p. p.keystone_token)
              (patch_profile-profile keystone conf jwt sessions b.0 w patched b.2)
            ∙ ap (λ p. p.keystone_token) made.2))

  -- Logging in by the token of another service and switching the project change nothing. Each is
  -- refused by 401, or answers with cookies for a profile whose token is Keystone's for the project:
  -- one that was found enabled, or the one that was asked for.
  pub websso-switch_project :
      (sso_region token project_id : String) (profile : Profile) (w : World)
      → ((websso keystone conf jwt sessions sso_region token w
            ≡ (err (http 401 "SSO authentication failed"), w))
          ⊎ ((patched : Patched) × Scoped keystone conf jwt sessions none none none
                (some token)
                w
                patched
              × (websso keystone conf jwt sessions sso_region token w
                  ≡ (ok (session_cookies keystone conf jwt sessions patched.profile), w))))
        × ((switch_project keystone conf jwt sessions project_id profile w
              ≡ (err (http 401 "Project switch failed"), w))
            ⊎ ((patched : Patched) × (keystone.scoped_token w profile.keystone_token project_id
                  ≡ ok patched.profile.keystone_token)
                × (switch_project keystone conf jwt sessions project_id profile w ≡ (
                  ok (patched, session_cookies keystone conf jwt sessions patched.profile),
                  w,
                ))))
  unfolding websso switch_project pure
  websso-switch_project sso_region token project_id profile w = (
    elim (try-Outcome
        (enter-Reads keystone conf jwt sessions sso_region none none none (some token))
        (http 401 "SSO authentication failed")
        (λ patched. pure (session_cookies keystone conf jwt sessions patched.profile)) w) [
          | inl refused ↦ inl refused
          | inr (patched, entered, q) ↦
              inr (patched, enter-Scoped keystone conf jwt sessions _ _ _ _ _ w patched entered, q)
        ],
    elim (try-Outcome {B = Patched × Cookies} (switching-Reads project_id profile)
        (http 401 "Project switch failed")
        (λ patched. pure (patched, session_cookies keystone conf jwt sessions patched.profile)) w) [
          | inl refused ↦ inl refused
          | inr (patched, entered, q) ↦
              inr (patched, switching-token project_id profile w patched entered, q)
        ],
  )
