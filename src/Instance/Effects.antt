-- ===== src/Instance/Effects.antt =====
-- What the handlers of api/v1/instance.py do to the database.
use skyline_apiserver_extens.Common.{
  ℕ, zero, suc, String, ◌≡◌, refl, ap, ◌∙◌, none, List, [], ◌∷◌, ◌==◌, eq_refl, ◌⊎◌, inl, inr,
  if◌then◌else◌,
}
use skyline_apiserver_extens.Common.Int.{ℤ}
use skyline_apiserver_extens.Runtime.{Exn, Result, ok, err}
use skyline_apiserver_extens.Db.{
  Db, create_activity_record, get_instance_lifecycle, delete_instance_lifecycle,
}
use skyline_apiserver_extens.Db.Lifecycles.{get-delete}
use skyline_apiserver_extens.World.{
  World, M, ◌>>◌, ask, execute, try_except, steps, next, handle, raise,
}
use skyline_apiserver_extens.World.Keeps.{
  KeepsDb, keeps-ask, keeps-pure, keeps-if, keeps-try, keeps-request, keeps-sleep, keeps-bind,
  keeps-then, keeps-for_each, keeps-Option, keeps-first, keeps,
}
use skyline_apiserver_extens.World.Transacts.{
  AllOrNothing, Transacts, transacts, use-Transacts, Transacts-try, Transacts-bind, Transacts-then,
}
use skyline_apiserver_extens.Profile.{Profile}
use skyline_apiserver_extens.Cloud.{Cloud, ExternalRule}
use skyline_apiserver_extens.Cloud
use skyline_apiserver_extens.Instance.{
  ignore, rule_key, record_activity, delete_external, clean_external, delete_rule, delete_rules,
  clean_neutron, after_delete, later, delete_server, delete_instance,
}

keeps-raise {ℓ} : {A : Type ℓ} (e : Exn) → KeepsDb (raise {A = A} e)
unfolding steps
keeps-raise e = keeps λ w. refl

module _ (cloud : Cloud) where
  pub or_500-KeepsDb {ℓ} :
      {A : Type ℓ} (prefix : String) {m : M A} → KeepsDb m → KeepsDb (Cloud.or_500 cloud prefix m)
  unfolding Cloud.or_500
  or_500-KeepsDb prefix h = keeps-try h (λ e. keeps-raise _)

  delete_external-KeepsDb : (r : ExternalRule) → KeepsDb (delete_external cloud r)
  unfolding delete_external
  delete_external-KeepsDb r =
      keeps-try
        (keeps-Option (rule_key r) (keeps-pure tt)
          (λ k. keeps-if (k == "") (keeps-pure tt) (keeps-request cloud.answer _)))
        (λ _. keeps-pure tt)

  clean_external-KeepsDb : (id : String) → KeepsDb (clean_external cloud id)
  unfolding clean_external
  clean_external-KeepsDb id =
      keeps-try (keeps-bind (keeps-ask _) (λ rules. keeps-for_each rules delete_external-KeepsDb))
        (λ _. keeps-pure tt)

  internal_ip_loop-KeepsDb : (n : ℕ) (id : String) → KeepsDb (Cloud.internal_ip_loop cloud n id)
  unfolding Cloud.internal_ip_loop
  internal_ip_loop-KeepsDb zero id = keeps-raise _
  internal_ip_loop-KeepsDb (suc n) id = keeps-bind (keeps-ask _) (λ addresses.
      keeps-first addresses (keeps-then (keeps-sleep _) (internal_ip_loop-KeepsDb n id)) keeps-pure)

  rules_loop-KeepsDb : (ip : String) (fips : List String) → KeepsDb (Cloud.rules_loop cloud ip fips)
  unfolding Cloud.rules_loop
  rules_loop-KeepsDb ip [] = keeps-pure []
  rules_loop-KeepsDb ip (fip ∷ fips) =
      keeps-bind (keeps-try (keeps-bind (keeps-ask _) (λ _. keeps-pure _)) (λ _. keeps-pure []))
        (λ _. keeps-bind (rules_loop-KeepsDb ip fips) (λ _. keeps-pure _))

  delete_rule-KeepsDb : (p : String × String) → KeepsDb (delete_rule cloud p)
  unfolding delete_rule Cloud.delete_port_forwarding_rule
  delete_rule-KeepsDb (fip, pf) =
      keeps-try (keeps-then (keeps-ask _) (keeps-request cloud.answer _)) (λ _. keeps-pure tt)

  delete_rules-KeepsDb : (pfs : List (String × String)) → KeepsDb (delete_rules cloud pfs)
  unfolding delete_rules
  delete_rules-KeepsDb [] = keeps-pure tt
  delete_rules-KeepsDb (pf ∷ pfs) =
      keeps-then (keeps-ask _) (keeps-for_each (pf ∷ pfs) delete_rule-KeepsDb)

  clean_neutron-KeepsDb : (id : String) → KeepsDb (clean_neutron cloud id)
  unfolding clean_neutron Cloud.get_server_internal_ip Cloud.get_port_forwardings_by_internal_ip
  clean_neutron-KeepsDb id =
      keeps-try
        (keeps-bind (internal_ip_loop-KeepsDb 10 id) (λ ip. keeps-if (ip == "") (keeps-pure tt) (
          keeps-bind (keeps-then (keeps-ask _) (keeps-bind (keeps-ask _) (rules_loop-KeepsDb ip)))
            delete_rules-KeepsDb)))
        (λ _. keeps-pure tt)

  -- What the last statement does to the database: the row is gone, or nothing, where it raised.
  abbrev pub Dropped : String → Db → Db → Type 0
  Dropped id d d' =
      ((d' ≡ delete_instance_lifecycle id d) × (get_instance_lifecycle id d' ≡ none))
      ⊎ ((d' ≡ d) × (v : World) × (e : Exn) × (cloud.database v ≡ err e))

  -- The database after a deletion: the activity is recorded, and then the lifecycle row dropped.
  abbrev pub Deleted : String → Profile → Unit {0} → Db → Db → Type 0
  Deleted id profile _ d d' =
      (message : String) × (now : ℤ) × (recorded : Db) × (recorded
        ≡ create_activity_record profile.user.id profile.project.id "인스턴스 삭제" message "success" ""
            now d)
      × Dropped id recorded d'

  row_gone :
      (id : String) (d : Db) → get_instance_lifecycle id (delete_instance_lifecycle id d) ≡ none
  row_gone id d =
      get-delete id id d ∙ ap (λ b. if b then none else get_instance_lifecycle id d) (eq_refl id)

  drop_row :
      (id : String) (r : Result (Unit {0})) (w : World)
      → cloud.database w ≡ r
      → let out = handle (next (r, w) (λ _. execute (delete_instance_lifecycle id))) ignore in
        (out.0 ≡ ok tt) × Dropped id w.db out.1.db
  unfolding steps
  drop_row id (ok _) w h = (refl, inl (refl, row_gone id w.db))
  drop_row id (err e) w h = (refl, inr (refl, w, e, h))

  -- what follows the record of the activity
  abbrev rest : String → List String → M (Unit {0})
  rest id volume_ids =
      later cloud id volume_ids
      >> try_except (ask cloud.database >> execute (delete_instance_lifecycle id)) ignore

  rest-Dropped :
      (id : String) (volume_ids : List String) (w : World)
      → ((rest id volume_ids w).0 ≡ ok tt) × Dropped id w.db (rest id volume_ids w).1.db
  unfolding later steps
  rest-Dropped id [] w = drop_row id (cloud.database w) w refl
  rest-Dropped id (v ∷ vs) w = drop_row id (cloud.database _) _ refl

  after_delete-Transacts :
      (profile : Profile) (id : String) (volume_ids : List String)
      → Transacts (Deleted id profile) (after_delete cloud profile id volume_ids)
  unfolding after_delete record_activity steps
  after_delete-Transacts profile id volume_ids =
      Transacts-then (Deleted id profile) (keeps-ask cloud.database) (
        transacts λ w.
          let dropped = rest-Dropped id volume_ids _ in
          inr (tt, dropped.0, (_, w.clock, _, refl, dropped.1)))

  delete_server-Transacts :
      (profile : Profile) (id : String)
      → Transacts (Deleted id profile) (delete_server cloud profile id)
  unfolding delete_server Cloud.get_server_volumes Cloud.delete_server
  delete_server-Transacts profile id =
      Transacts-bind (Deleted id profile) (or_500-KeepsDb _ (keeps-ask _)) (λ volume_ids.
        Transacts-then (Deleted id profile) (or_500-KeepsDb _ (keeps-request cloud.answer _))
          (after_delete-Transacts profile id volume_ids))

  delete_instance-Transacts :
      (id : String) (profile : Profile)
      → Transacts (Deleted id profile) (delete_instance cloud id profile)
  unfolding delete_instance
  delete_instance-Transacts id profile = Transacts-then (Deleted id profile) (keeps-ask _) (
      Transacts-try (Deleted id profile) _ (
        Transacts-then (Deleted id profile)
          (keeps-then (clean_external-KeepsDb id) (clean_neutron-KeepsDb id))
          (delete_server-Transacts profile id)))

  -- Deleting an instance, whatever the cloud, the port forwarding service and the database answer:
  -- either the handler raises and the database is as before, or it ends and the deletion is recorded
  -- as an activity of the user. Then nothing else changed but the lifecycle row of the instance,
  -- which is gone; or nothing at all, where the database raised, which the handler ignores there.
  pub delete_instance_lem :
      (id : String) (profile : Profile) (w : World)
      → AllOrNothing (Deleted id profile) w.db (delete_instance cloud id profile w)
  delete_instance_lem id profile w =
      use-Transacts (Deleted id profile) (delete_instance-Transacts id profile) w
