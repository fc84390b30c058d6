-- ===== src/Scheduler/Rounds.antt =====
-- The endless loop of `start_lifecycle_scheduler`, as any number of rounds.
use skyline_apiserver_extens.Common.{
  ℕ, zero, suc, String, ◌≡◌, refl, sym, subst, ap, ◌∙◌, false, Option, none, some, arith, List, [],
  ◌∷◌, map, ◌++◌, contains, eq_iff,
}
use skyline_apiserver_extens.Common.Int.{pos}
use skyline_apiserver_extens.Common.Dict.{Dict, lookup, insert, lookup-insert}
use skyline_apiserver_extens.Runtime.{Result, ok, err, other}
use skyline_apiserver_extens.Config.{Opt, group, get_attr, opt_map}
use skyline_apiserver_extens.Config.Openstack.{all_opts}
use skyline_apiserver_extens.Db.{EmailStatus, InstanceLifecycle, get_instance_lifecycle}
use skyline_apiserver_extens.Db.Lifecycles.{IsTracked}
use skyline_apiserver_extens.World.{
  World, M, steps, next, handle, pure, for_each, ◌>>◌, ◌>>=◌, sleep, try_except,
}
use skyline_apiserver_extens.Env.{Env, openstack_args}
use skyline_apiserver_extens.Scheduler.{delete_instance, reap, reap_row, run_lifecycle_check, round}
use skyline_apiserver_extens.Scheduler.Rows.{Related}
use skyline_apiserver_extens.Scheduler.Check.{Outcome, run_lifecycle_check-rows}
use skyline_apiserver_extens.Scheduler.Tracked.{run_lifecycle_check-IsTracked}

module _ (env : Env) (subject : String → String)
    (body : String → String → String → String → String) where
  -- `while True`, as far as its `n`-th round
  unfoldable pub rounds : ℕ → M (Unit {0})
  rounds zero = pure tt
  rounds (suc n) = round env subject body >> rounds n

  -- What follows a run in its round: a raise is logged and dropped, then the loop sleeps.
  round_rest :
      (r : Result (Unit {0}) × World)
      → ((next (handle r (λ _. pure tt)) (λ _. sleep (pos 3600))).0 ≡ ok tt)
        × ((next (handle r (λ _. pure tt)) (λ _. sleep (pos 3600))).1.db ≡ r.1.db)
  unfolding steps
  round_rest (ok _, w) = (refl, refl)
  round_rest (err e, w) = (refl, refl)

  round_lem :
      (w : World)
      → ((round env subject body w).0 ≡ ok tt)
        × ((round env subject body w).1.db ≡ (run_lifecycle_check env subject body w).1.db)
  unfolding round try_except ◌>>◌ ◌>>=◌
  round_lem w = round_rest (run_lifecycle_check env subject body w)

  next_ok :
      (r : Result (Unit {0}) × World) (f : Unit {0} → M (Unit {0}))
      → r.0 ≡ ok tt
      → next r f ≡ f tt r.1
  unfolding next
  next_ok (ok _, w) f h = refl
  next_ok (err e, w) f h = cc

  pub rounds-suc : (n : ℕ) (w : World) → rounds (suc n) w ≡ rounds n (round env subject body w).1
  unfolding rounds ◌>>◌ ◌>>=◌
  rounds-suc n w = next_ok (round env subject body w) (λ _. rounds n) (round_lem w).0

  -- Each round keeps one row to an instance.
  pub rounds-IsTracked : (n : ℕ) (w : World) → IsTracked w.db → IsTracked (rounds n w).1.db
  unfolding rounds pure
  rounds-IsTracked zero w u = u
  rounds-IsTracked (suc n) w u =
      subst (λ r. IsTracked r.1.db) (sym (rounds-suc n w))
        (rounds-IsTracked n (round env subject body w).1
          (rw (round_lem w).1 (run_lifecycle_check-IsTracked env subject body w u)))

  -- A row that says "extended" is what a run leaves of it.
  extended_kept :
      (w : World) (r : InstanceLifecycle) (o : Option InstanceLifecycle)
      → r.email_status ≡ EmailStatus.extended
      → Related (Outcome env subject body w) (some r) o
      → o ≡ some r
  extended_kept w r none e h = absurd h
  extended_kept w r (some r') e h = ground arith

  -- Once an instance was extended, no number of later rounds changes its row, however long its new
  -- time is over and whatever the answers of the mail server and the cloud are.
  pub extended_forever :
      (n : ℕ) (w : World) (j : String) (r : InstanceLifecycle)
      → IsTracked w.db
      → get_instance_lifecycle j w.db ≡ some r
      → r.email_status ≡ EmailStatus.extended
      → get_instance_lifecycle j (rounds n w).1.db ≡ some r
  unfolding rounds pure
  extended_forever zero w j r u e h = e
  extended_forever (suc n) w j r u e h =
      ap (λ p. get_instance_lifecycle j p.1.db) (rounds-suc n w)
      ∙ extended_forever n (round env subject body w).1 j r
          (rw (round_lem w).1 (run_lifecycle_check-IsTracked env subject body w u))
          (rw (round_lem w).1 (
            extended_kept w r
              (get_instance_lifecycle j (run_lifecycle_check env subject body w).1.db) h
              (rw e at (run_lifecycle_check-rows env subject body w u j))))
          h

  -- Reading a list of attributes raises if one of them is no option of the group.
  openstack_args_missing :
      (key : String) (ks rest : List String) (w : World)
      → lookup key env.openstack.opts ≡ none
      → openstack_args env (ks ++ key ∷ rest) w ≡ (err (other "AttributeError"), w)
  unfolding openstack_args steps get_attr
  openstack_args_missing key [] rest w h = ground arith
  openstack_args_missing key (k ∷ ks) rest w h =
      ground (arith, openstack_args_missing key ks rest w h)

  delete_instance_missing :
      (id : String) (w : World)
      → lookup "system_user" env.openstack.opts ≡ none
      → delete_instance env subject body id w ≡ (ok false, w)
  unfolding delete_instance steps
  delete_instance_missing id w h = ground (
    arith,
    openstack_args_missing "system_user" ("keystone_url" ∷ "system_project" ∷ [])
        ("system_user_password" ∷ "system_user_domain" ∷ "system_project_domain" ∷ []) w h,
  )

  reap_row_missing :
      (admin : Option String) (row : InstanceLifecycle) (w : World)
      → lookup "system_user" env.openstack.opts ≡ none
      → reap_row env subject body admin row w ≡ (ok tt, w)
  unfolding reap_row reap steps
  reap_row_missing admin row w h = ground (arith, delete_instance_missing row.instance_id w h)

  reap_rows_missing :
      (admin : Option String) (rows : List InstanceLifecycle) (w : World)
      → lookup "system_user" env.openstack.opts ≡ none
      → for_each rows (reap_row env subject body admin) w ≡ (ok tt, w)
  unfolding for_each steps
  reap_rows_missing admin [] w h = refl
  reap_rows_missing admin (row ∷ rows) w h =
      ground (arith, reap_row_missing admin row w h, reap_rows_missing admin rows w h)

-- A group has no option but those that it was made from.
lookup-opt_map :
    (key : String) (opts : List Opt) (d : Dict Opt)
    → contains key (map (λ o. o.name) opts) ≡ false
    → lookup key d ≡ none
    → lookup key (opt_map opts d) ≡ none
lookup-opt_map key [] d h e = e
lookup-opt_map key (o ∷ opts) d h e =
    lookup-opt_map key opts (insert o.name o d) (ground arith)
      (ground (arith, eq_iff key o.name, eq_iff o.name key, lookup-insert o.name key o d))

-- With the options that the program registers for the group "openstack", whatever their values, the
-- second loop of a run does nothing at all: it reads `CONF.openstack.system_user`, which is no
-- option, so every deletion raises before a request is sent. The rows are any rows.
pub reap_never_deletes :
    (env : Env) (subject : String → String) (body : String → String → String → String → String)
    (name : String) (opts : List Opt) (admin : Option String) (rows : List InstanceLifecycle)
    (w : World)
    → env.openstack ≡ group name opts
    → map (λ o. o.name) opts ≡ all_opts
    → for_each rows (reap_row env subject body admin) w ≡ (ok tt, w)
unfolding group
reap_never_deletes env subject body name opts admin rows w made named =
    reap_rows_missing env subject body admin rows w
      (rw made (lookup-opt_map "system_user" opts [] (ap (contains "system_user") named) refl))
