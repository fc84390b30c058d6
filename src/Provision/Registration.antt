-- ===== src/Provision/Registration.antt =====
-- When the lifetime of a new instance is registered.
use skyline_apiserver_extens.Common.{
  String, ◌≡◌, refl, sym, subst, Bool, true, false, not, ◌&&◌, ◌⊎◌, inl, inr, if◌then◌else◌,
}
use skyline_apiserver_extens.Common.Int.{ℤ, pos, ◌+ℤ◌, ◌*ℤ◌}
use skyline_apiserver_extens.Runtime.{Json, truthy, Result, ok, err}
use skyline_apiserver_extens.Config.{get_attr}
use skyline_apiserver_extens.Db.{Db, create_instance_lifecycle}
use skyline_apiserver_extens.World.{World, M, steps, next, handle, pure}
use skyline_apiserver_extens.World.Reads.{Reads, use-Reads, Reads-query, Reads-lift, Reads-bind}
use skyline_apiserver_extens.Profile.{Profile}
use skyline_apiserver_extens.Env.{Env, int_of, setting_value}
use skyline_apiserver_extens.Provision.{is_text, email_of, insert_lifecycle, register_lifecycle}

-- A step that only reads, before others, all of which may be given up.
given_up :
    {A : Type 0} (Q : Result (Unit {0}) × World → Type 0) (w : World) (r : Result A × World)
    (f : A → M (Unit {0}))
    → r.1 ≡ w
    → Q (ok tt, w)
    → ((a : A) → r.0 ≡ ok a → Q (handle (f a w) (λ _. pure tt)))
    → Q (handle (next r f) (λ _. pure tt))
unfolding steps
given_up Q w (ok a, v) f e q k = subst (λ x. Q (handle (f a x) (λ _. pure tt))) (sym e) (k a refl)
given_up Q w (err x, v) f e q k = subst (λ x. Q (ok tt, x)) (sym e) q

module _ (env : Env) (id name : String) (profile : Profile) where
  -- What the settings and the configuration say where a row is to be inserted.
  abbrev pub Wanted : World → ℤ → Type 0
  Wanted w days =
      (enabled : Json) × (system_project : Json) × (value : Json) × ((setting_value env
          "instance_lifecycle_enabled" w).0
        ≡ ok enabled)
      × (truthy enabled ≡ true)
      × (get_attr env.openstack "system_project" ≡ ok system_project)
      × (is_text env profile.project.name system_project ≡ false)
      × ((setting_value env "instance_lifetime_days" w).0 ≡ ok value)
      × (int_of env value ≡ ok days)

  -- Nothing changes, or the row is inserted that the settings ask for.
  abbrev pub Registered : World → Result (Unit {0}) × World → Type 0
  Registered w (r, w') =
      (r ≡ ok tt)
      × ((w'.db ≡ w.db)
          ⊎ ((days : ℤ) × Wanted w days
              × (create_instance_lifecycle id name profile.user.id profile.project.id
                    (email_of env profile) w.clock (w.clock +ℤ days *ℤ pos 86400) w.db
                  ≡ ok w'.db)))

  setting_value-Reads : (key : String) → Reads (setting_value env key)
  unfolding setting_value
  setting_value-Reads key = Reads-bind (Reads-query _) (λ row. Reads-lift _)

  -- the statement that inserts the row, with what it gives
  ended :
      (w : World) (days : ℤ) (x : Result Db)
      → Wanted w days
      → create_instance_lifecycle id name profile.user.id profile.project.id
          (email_of env profile)
          w.clock
          (w.clock +ℤ days *ℤ pos 86400)
          w.db
        ≡ x
      → Registered w (
          handle {A = Unit {0}}
            (elim x [ ok d ↦ (ok tt, record w { db = d }) | err e ↦ (err e, w) ])
            (λ _. pure tt))
  unfolding steps
  ended w days (ok d) wanted made = (refl, inr (days, wanted, made))
  ended w days (err e) wanted made = (refl, inl refl)

  inserted :
      (w : World) (enabled system_project : Json)
      → (setting_value env "instance_lifecycle_enabled" w).0 ≡ ok enabled
      → truthy enabled ≡ true
      → get_attr env.openstack "system_project" ≡ ok system_project
      → is_text env profile.project.name system_project ≡ false
      → Registered w (handle (insert_lifecycle env id name profile w) (λ _. pure tt))
  unfolding insert_lifecycle steps
  inserted w enabled system_project asked on got plain =
      given_up (Registered w) w (setting_value env "instance_lifetime_days" w) _
        (use-Reads (setting_value-Reads _) w) (refl, inl refl)
        (λ value read.
          given_up (Registered w) w (int_of env value, w) _ refl (refl, inl refl)
            (λ days is.
              ended w days _ (enabled, system_project, value, asked, on, got, plain, read, is)
                refl))

  chosen :
      (w : World) (enabled system_project : Json) (on here : Bool)
      → (setting_value env "instance_lifecycle_enabled" w).0 ≡ ok enabled
      → truthy enabled ≡ on
      → get_attr env.openstack "system_project" ≡ ok system_project
      → is_text env profile.project.name system_project ≡ here
      → Registered w (
          handle
            ((if on && not here then insert_lifecycle env id name profile else pure tt) w)
            (λ _. pure tt))
  unfolding steps
  chosen w enabled system_project true false asked e got plain =
      inserted w enabled system_project asked e got plain
  chosen w enabled system_project true true asked e got plain = (refl, inl refl)
  chosen w enabled system_project false here asked e got plain = (refl, inl refl)

  -- Registering the lifetime of a new instance never raises. It leaves the database as it was, or it
  -- inserts a new row for the instance, which begins at the time of the registration and ends the
  -- set number of days later. It inserts one only where the settings switch lifetimes on and the
  -- project is not that of the administrators.
  pub register_lifecycle_lem : (w : World) → Registered w (register_lifecycle env id name profile w)
  unfolding register_lifecycle steps
  register_lifecycle_lem w =
      given_up (Registered w) w (setting_value env "instance_lifecycle_enabled" w) _
        (use-Reads (setting_value-Reads _) w) (refl, inl refl)
        (λ enabled asked.
          given_up (Registered w) w (get_attr env.openstack "system_project", w) _ refl
            (refl, inl refl)
            (λ system_project got.
              chosen w enabled system_project (truthy enabled)
                (is_text env profile.project.name system_project) asked refl got refl))
