-- ===== src/Scheduler/Check.antt =====
-- One run of `run_lifecycle_check`: what becomes of each instance's row.
use skyline_apiserver_extens.Common.{
  String, ◌≡◌, refl, ap, true, Bool-cases, Option, none, some, ◌⊎◌, inl, inr, if◌then◌else◌,
}
use skyline_apiserver_extens.Common.Int.{ℤ, pos, ◌-ℤ◌, ◌*ℤ◌}
use skyline_apiserver_extens.Runtime.{truthy, Result, ok, err}
use skyline_apiserver_extens.Db.{
  Db, InstanceLifecycle, is_expiring, is_awaiting_reply, mark_sent, mark_deleted,
  get_instance_lifecycle, update_instance_lifecycle_email_sent, update_instance_lifecycle_deleted,
  list_instance_lifecycles_expiring_before, list_instance_lifecycles_awaiting_reply,
}
use skyline_apiserver_extens.Db.Lifecycles.{
  IsTracked, get-email_sent, get-deleted, email_sent-IsTracked,
}
use skyline_apiserver_extens.World.{World, M, steps, next, for_each, ◌>>=◌, ◌>>◌, query, pure}
use skyline_apiserver_extens.World.Reads.{use-Reads}
use skyline_apiserver_extens.Env.{Env}
use skyline_apiserver_extens.Scheduler.{
  LifecycleSettings, get_lifecycle_settings, get_admin_project_id, warn_row, reap_row, check_rows,
  run_lifecycle_check,
}
use skyline_apiserver_extens.Scheduler.Rows.{Related, loop_rows, loop-IsTracked}
use skyline_apiserver_extens.Scheduler.Effects.{
  Due, Overdue, get_admin_project_id-Reads, get_lifecycle_settings-Reads, warn_row-Steps,
  reap_row-Steps,
}

-- A row that was due may be marked as sent.
abbrev pub Warned : ℤ → Option String → InstanceLifecycle → InstanceLifecycle → Type 0
Warned now admin r r' = (r' ≡ r) ⊎ (Due now admin r × (r' ≡ mark_sent now r))

-- A row that was overdue may be marked as deleted.
abbrev pub Reaped : ℤ → Option String → InstanceLifecycle → InstanceLifecycle → Type 0
Reaped deadline admin r r' = (r' ≡ r) ⊎ (Overdue deadline admin r × (r' ≡ mark_deleted r))

-- One after the other.
abbrev pub Checked : ℤ → ℤ → Option String → InstanceLifecycle → InstanceLifecycle → Type 0
Checked now deadline admin r r'' =
    (r' : InstanceLifecycle) × Warned now admin r r' × Reaped deadline admin r' r''

module _ (now deadline : ℤ) (admin : Option String) where
  Related-first :
      (o o' : Option InstanceLifecycle)
      → Related (Warned now admin) o o'
      → Related (Checked now deadline admin) o o'
  Related-first none none h = tt
  Related-first none (some r) h = h
  Related-first (some r) none h = h
  Related-first (some r) (some r') h = (r', h, inl refl)

  Related-both :
      (o o' o'' : Option InstanceLifecycle)
      → Related (Warned now admin) o o'
      → Related (Reaped deadline admin) o' o''
      → Related (Checked now deadline admin) o o''
  Related-both none none none h k = tt
  Related-both none none (some r) h k = k
  Related-both none (some r) o'' h k = absurd h
  Related-both (some r) none o'' h k = absurd h
  Related-both (some r) (some r') none h k = k
  Related-both (some r) (some r') (some r'') h k = (r', h, k)

Related-same :
    (R : InstanceLifecycle → InstanceLifecycle → Type 0)
    → ((r : InstanceLifecycle) → R r r)
    → (o : Option InstanceLifecycle) → Related R o o
Related-same R h none = tt
Related-same R h (some r) = h r

Related-map :
    (R S : InstanceLifecycle → InstanceLifecycle → Type 0)
    → ((r r' : InstanceLifecycle) → R r r' → S r r')
    → (o o' : Option InstanceLifecycle) → Related R o o'
    → Related S o o'
Related-map R S f none none h = tt
Related-map R S f none (some r) h = h
Related-map R S f (some r) none h = h
Related-map R S f (some r) (some r') h = f r r' h

module _ (env : Env) (subject : String → String)
    (body : String → String → String → String → String) where
  pub warn_loop :
      (now : ℤ) (admin : Option String) (w : World)
      → IsTracked w.db
      → let w' =
          (for_each
            (list_instance_lifecycles_expiring_before now w.db)
            (warn_row env subject body now admin)
            w).1 in
        ((j : String)
          → Related
              (Warned now admin)
              (get_instance_lifecycle j w.db)
              (get_instance_lifecycle j w'.db))
        × IsTracked w'.db
  unfolding list_instance_lifecycles_expiring_before
  warn_loop now admin w u = (
    loop_rows (Due now admin) (mark_sent now) (λ r. refl)
        (λ k d. update_instance_lifecycle_email_sent k now d) (λ j k d. get-email_sent j k d now)
        (warn_row env subject body now admin) (is_expiring now)
        (warn_row-Steps env subject body now admin) w u,
    loop-IsTracked (Due now admin) (mark_sent now) (λ r. refl)
        (λ k d. update_instance_lifecycle_email_sent k now d) (λ j k d. get-email_sent j k d now)
        (warn_row env subject body now admin) (is_expiring now)
        (warn_row-Steps env subject body now admin) (λ k d v. email_sent-IsTracked k d v now) w u,
  )

  reap_loop :
      (deadline : ℤ) (admin : Option String) (w : World)
      → IsTracked w.db
      → (j : String)
      → Related (Reaped deadline admin) (get_instance_lifecycle j w.db) (
          get_instance_lifecycle j
            (for_each
              (list_instance_lifecycles_awaiting_reply deadline w.db)
              (reap_row env subject body admin)
              w).1.db)
  unfolding list_instance_lifecycles_awaiting_reply
  reap_loop deadline admin w u =
      loop_rows (Overdue deadline admin) mark_deleted (λ r. refl) update_instance_lifecycle_deleted
        get-deleted (reap_row env subject body admin) (is_awaiting_reply deadline)
        (reap_row-Steps env subject body deadline admin) w u

  -- What `check_rows` does once the time and the project are known.
  abbrev pub two_loops : ℤ → ℤ → Option String → M (Unit {0})
  two_loops now deadline admin =
      query (list_instance_lifecycles_expiring_before now) >>= λ expiring.
      for_each expiring (warn_row env subject body now admin)
      >> (query (list_instance_lifecycles_awaiting_reply deadline) >>= λ overdue.
          for_each overdue (reap_row env subject body admin))

  second_loop :
      (now deadline : ℤ) (admin : Option String) (d : Db) (j : String)
      (r : Result (Unit {0}) × World)
      → Related (Warned now admin) (get_instance_lifecycle j d) (get_instance_lifecycle j r.1.db)
      → IsTracked r.1.db
      → Related (Checked now deadline admin) (get_instance_lifecycle j d) (
          get_instance_lifecycle j
            (next r (λ _. query (list_instance_lifecycles_awaiting_reply deadline) >>= λ overdue.
              for_each overdue (reap_row env subject body admin))).1.db)
  unfolding steps
  second_loop now deadline admin d j (ok _, w) h u =
      Related-both now deadline admin _ (get_instance_lifecycle j w.db) _ h
        (reap_loop deadline admin w u j)
  second_loop now deadline admin d j (err e, w) h u = Related-first now deadline admin _ _ h

  two_loops_rows :
      (now deadline : ℤ) (admin : Option String) (w : World)
      → IsTracked w.db
      → (j : String)
      → Related
          (Checked now deadline admin)
          (get_instance_lifecycle j w.db)
          (get_instance_lifecycle j (two_loops now deadline admin w).1.db)
  unfolding query ◌>>=◌ ◌>>◌ next
  two_loops_rows now deadline admin w u j =
      let first = warn_loop now admin w u in
      second_loop now deadline admin w.db j
        (for_each (list_instance_lifecycles_expiring_before now w.db)
          (warn_row env subject body now admin) w)
        (first.0 j) first.1

  -- What a check that is switched on makes of a row, by the settings that it read.
  abbrev pub Enforced : LifecycleSettings → World → InstanceLifecycle → InstanceLifecycle → Type 0
  Enforced settings w r r' =
      (r' ≡ r)
      ⊎ ((admin : Option String) × ((get_admin_project_id env subject body settings.admin_project
              w).0
            ≡ ok admin)
          × Checked w.clock (w.clock -ℤ settings.reply_deadline_days *ℤ pos 86400) admin r r')

  after_admin :
      (settings : LifecycleSettings) (w : World)
      → IsTracked w.db
      → (j : String) (r : Result (Option String) × World)
      → (get_admin_project_id env subject body settings.admin_project w) ≡ r
      → r.1 ≡ w
      → Related (Enforced settings w) (get_instance_lifecycle j w.db) (
          get_instance_lifecycle j
            (next r
              (two_loops w.clock (w.clock -ℤ settings.reply_deadline_days *ℤ pos 86400))).1.db)
  unfolding next
  after_admin settings w u j (ok admin, w') e h = rw h (
      Related-map (Checked w.clock (w.clock -ℤ settings.reply_deadline_days *ℤ pos 86400) admin)
        (Enforced settings w) (λ a b c. inr (admin, ap (λ p. p.0) e, c))
        (get_instance_lifecycle j w.db)
        (get_instance_lifecycle j
          (two_loops w.clock (w.clock -ℤ settings.reply_deadline_days *ℤ pos 86400) admin w).1.db)
        (two_loops_rows w.clock (w.clock -ℤ settings.reply_deadline_days *ℤ pos 86400) admin w u j))
  after_admin settings w u j (err x, w') e h =
      rw h (Related-same _ (λ r. inl refl) (get_instance_lifecycle j w.db))

  check_rows_rows :
      (settings : LifecycleSettings) (w : World)
      → IsTracked w.db
      → (j : String)
      → Related
          (Enforced settings w)
          (get_instance_lifecycle j w.db)
          (get_instance_lifecycle j (check_rows env subject body settings w).1.db)
  unfolding check_rows steps
  check_rows_rows settings w u j =
      after_admin settings w u j (get_admin_project_id env subject body settings.admin_project w)
        refl (use-Reads (get_admin_project_id-Reads env subject body settings.admin_project) w)

  -- What a run makes of a row: nothing, or what its settings ask for, where it is switched on.
  abbrev pub Outcome : World → InstanceLifecycle → InstanceLifecycle → Type 0
  Outcome w r r' =
      (r' ≡ r)
      ⊎ ((settings : LifecycleSettings) × ((get_lifecycle_settings env subject body w).0
            ≡ ok settings)
          × (truthy settings.enabled ≡ true)
          × Enforced settings w r r')

  after_settings :
      (w : World)
      → IsTracked w.db
      → (j : String) (r : Result LifecycleSettings × World)
      → get_lifecycle_settings env subject body w ≡ r
      → r.1 ≡ w
      → Related (Outcome w) (get_instance_lifecycle j w.db) (
          get_instance_lifecycle j
            (next r (λ settings.
              if truthy settings.enabled
              then check_rows env subject body settings
              else pure tt)).1.db)
  unfolding next pure
  after_settings w u j (ok settings, w') e h = elim (Bool-cases (truthy settings.enabled)) [
    | inl on ↦
        rw (h, on)
          (Related-map (Enforced settings w) (Outcome w)
            (λ a b c. inr (settings, ap (λ p. p.0) e, on, c)) (get_instance_lifecycle j w.db)
            (get_instance_lifecycle j (check_rows env subject body settings w).1.db)
            (check_rows_rows settings w u j))
    | inr off ↦ rw (h, off) (Related-same _ (λ r. inl refl) (get_instance_lifecycle j w.db))
  ]
  after_settings w u j (err x, w') e h =
      rw h (Related-same _ (λ r. inl refl) (get_instance_lifecycle j w.db))

  -- Whatever the mail server and the cloud answer, one run of the check leaves each instance's row
  -- as it was, unless the settings could be read and are switched on. Then a row may be marked as
  -- sent, with the time of the run, if it is not of the project that the lookup of the
  -- administrators' project gave, no warning was sent and its time is over; and, as it then stands,
  -- be marked as deleted, if it is not of that project, a warning was sent by the deadline and the
  -- instance was not extended. Where that lookup failed or found none, no row is exempt for its
  -- project. No row appears or disappears.
  pub run_lifecycle_check-rows :
      (w : World)
      → IsTracked w.db
      → (j : String)
      → Related
          (Outcome w)
          (get_instance_lifecycle j w.db)
          (get_instance_lifecycle j (run_lifecycle_check env subject body w).1.db)
  unfolding run_lifecycle_check ◌>>=◌
  run_lifecycle_check-rows w u j =
      after_settings w u j (get_lifecycle_settings env subject body w) refl
        (use-Reads (get_lifecycle_settings-Reads env subject body) w)
