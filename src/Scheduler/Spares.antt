-- ===== src/Scheduler/Spares.antt =====
-- The scheduler never asks for the deletion of an instance that was extended.
use skyline_apiserver_extens.Common.{
  ℕ, zero, suc, String, ◌≡◌, sym, subst, Bool, true, false, Option, some, List, [], ◌∷◌, inl, inr,
  All, if◌then◌else◌,
}
use skyline_apiserver_extens.Common.Int.{ℤ, pos, ◌-ℤ◌, ◌*ℤ◌}
use skyline_apiserver_extens.Runtime.{truthy, Result, ok, err}
use skyline_apiserver_extens.Db.{
  EmailStatus, InstanceLifecycle, get_instance_lifecycle, list_instance_lifecycles_expiring_before,
  list_instance_lifecycles_awaiting_reply,
}
use skyline_apiserver_extens.Db.Lifecycles.{IsTracked}
use skyline_apiserver_extens.World.{
  World, Call, force_delete_server, M, steps, next, handle, ◌>>=◌, ◌>>◌, query, pure, sleep,
  for_each,
}
use skyline_apiserver_extens.World.Loops.{next_inv, handle_inv}
use skyline_apiserver_extens.World.Reads.{Reads, Reads-bind, Reads-lift, Reads-pure, bind-Outcome}
use skyline_apiserver_extens.World.Makes.{
  Since, Makes, use-Makes, Makes-Reads, Makes-execute, Makes-request, Makes-if, Makes-try,
  Makes-bind, Makes-then, Makes-for_each,
}
use skyline_apiserver_extens.Env.{Env}
use skyline_apiserver_extens.Mail.{
  SmtpConfig, get_smtp_config, log_in, deliver, send_lifecycle_warning_email,
}
use skyline_apiserver_extens.Scheduler.{
  LifecycleSettings, delete_instance, send_warning, warn, warn_row, reap, reap_row, check_rows,
  run_lifecycle_check, round,
}
use skyline_apiserver_extens.Scheduler.Effects.{
  openstack_args-Reads, setting_value-Reads, get_admin_project_id-Reads,
  get_lifecycle_settings-Reads,
}
use skyline_apiserver_extens.Scheduler.Check.{two_loops}
use skyline_apiserver_extens.Scheduler.Passes.{All-map, extended-PassedOver}
use skyline_apiserver_extens.Scheduler.Rounds.{
  rounds, rounds-suc, rounds-IsTracked, extended_forever,
}

-- A request that is not for the deletion of the instance.
abbrev pub Spares : String → Call → Type 0
Spares id c = c ≡ force_delete_server id → ⊥

module _ (env : Env) (id : String) where
  get_smtp_config-Reads : Reads (get_smtp_config env)
  unfolding get_smtp_config
  get_smtp_config-Reads = Reads-bind (setting_value-Reads env _) λ host.
      Reads-bind (setting_value-Reads env _) λ port. Reads-bind (setting_value-Reads env _) λ user.
        Reads-bind (setting_value-Reads env _) λ password.
          Reads-bind (setting_value-Reads env _)
            λ use_tls. Reads-bind (setting_value-Reads env _) λ from_address. Reads-pure _

  deliver-Makes :
      (cfg : SmtpConfig) (to subject body : String)
      → Makes (Spares id) (deliver env cfg to subject body)
  unfolding deliver log_in
  deliver-Makes cfg to subject body = Makes-bind _ (Makes-Reads _ (Reads-lift _)) λ port.
      Makes-then _ (Makes-request _ env.answer _ (λ e. cc)) (
        Makes-then _
          (Makes-if _ _ (Makes-request _ env.answer _ (λ e. cc)) (Makes-Reads _ (Reads-pure _)))
          (Makes-then _ (Makes-request _ env.answer _ (λ e. cc))
            (Makes-then _ (Makes-request _ env.answer _ (λ e. cc)) (Makes-Reads _ (Reads-pure _)))))

  send-Makes :
      (to subject body : String)
      → Makes (Spares id) (send_lifecycle_warning_email env to subject body)
  unfolding send_lifecycle_warning_email
  send-Makes to subject body = Makes-bind _ (Makes-Reads _ get_smtp_config-Reads) λ cfg.
      Makes-if _ _ (Makes-Reads _ (Reads-pure _))
        (Makes-try _ (deliver-Makes cfg to subject body) (λ e. Makes-Reads _ (Reads-pure _)))

  module _ (subject : String → String) (body : String → String → String → String → String) where
    warn_row-Makes :
        (now : ℤ) (admin : Option String) (row : InstanceLifecycle)
        → Makes (Spares id) (warn_row env subject body now admin row)
    unfolding warn_row warn send_warning
    warn_row-Makes now admin row = Makes-if _ _ (Makes-Reads _ (Reads-pure _)) (
        Makes-if _ _
          (Makes-bind _ (Makes-Reads _ (Reads-lift _)) λ expires_str.
            Makes-bind _ (send-Makes _ _ _)
              λ sent. Makes-if _ sent (Makes-execute _ _) (Makes-Reads _ (Reads-pure _)))
          (Makes-Reads _ (Reads-pure _)))

    reap_row-Makes :
        (admin : Option String) (row : InstanceLifecycle)
        → (row.instance_id ≡ id → ⊥)
        → Makes (Spares id) (reap_row env subject body admin row)
    unfolding reap_row reap delete_instance
    reap_row-Makes admin row other = Makes-if _ _ (Makes-Reads _ (Reads-pure _)) (
        Makes-bind _
          (Makes-try _
            (Makes-bind _ (Makes-Reads _ (openstack_args-Reads env _)) λ args.
              Makes-then _ (Makes-request _ env.answer _ (λ e. other cc))
                (Makes-Reads _ (Reads-pure _)))
            (λ e. Makes-Reads _ (Reads-pure _)))
          (λ deleted. Makes-if _ deleted (Makes-execute _ _) (Makes-Reads _ (Reads-pure _))))

    All-warn_row :
        (now : ℤ) (admin : Option String) (rows : List InstanceLifecycle)
        → All (λ r. Makes (Spares id) (warn_row env subject body now admin r)) rows
    All-warn_row now admin [] = tt
    All-warn_row now admin (r ∷ rows) = (warn_row-Makes now admin r, All-warn_row now admin rows)

    -- the second loop, after the first
    second_loop :
        (deadline : ℤ) (admin : Option String) (base : List Call) (r : Result (Unit {0}) × World)
        → Since (Spares id) base r.1
        → All
            (λ row. row.instance_id ≡ id → ⊥)
            (list_instance_lifecycles_awaiting_reply deadline r.1.db)
        → Since
            (Spares id)
            base
            (next r (λ _. query (list_instance_lifecycles_awaiting_reply deadline) >>= λ overdue.
              for_each overdue (reap_row env subject body admin))).1
    unfolding steps
    second_loop deadline admin base (err e, w) s h = s
    second_loop deadline admin base (ok _, w) s h =
        use-Makes _
          (Makes-for_each _ (reap_row env subject body admin)
            (list_instance_lifecycles_awaiting_reply deadline w.db)
            (All-map _ _ (reap_row-Makes admin) _ h))
          base w s

    -- A world in which the instance was extended.
    abbrev pub Extended : InstanceLifecycle → World → Type 0
    Extended row w =
        IsTracked w.db
        × (get_instance_lifecycle id w.db ≡ some row)
        × (row.email_status ≡ EmailStatus.extended)

    two_loops-Since :
        (now deadline : ℤ) (admin : Option String) (row : InstanceLifecycle) (base : List Call)
        (w : World)
        → Extended row w
        → Since (Spares id) base w
        → Since (Spares id) base (two_loops env subject body now deadline admin w).1
    unfolding query ◌>>=◌ ◌>>◌ next
    two_loops-Since now deadline admin row base w (u, found, h) s =
        second_loop deadline admin base
          (for_each (list_instance_lifecycles_expiring_before now w.db)
            (warn_row env subject body now admin) w)
          (use-Makes _ (Makes-for_each _ _ _ (All-warn_row now admin _)) base w s)
          ((extended-PassedOver env subject body id w row u found h now admin).1 deadline)

    check_rows-Since :
        (settings : LifecycleSettings) (row : InstanceLifecycle) (base : List Call) (w : World)
        → Extended row w
        → Since (Spares id) base w
        → Since (Spares id) base (check_rows env subject body settings w).1
    unfolding check_rows steps
    check_rows-Since settings row base w x s =
        let deadline : ℤ = w.clock -ℤ settings.reply_deadline_days *ℤ pos 86400 in
        elim (bind-Outcome (get_admin_project_id-Reads env subject body settings.admin_project)
          (two_loops env subject body w.clock deadline) w) [
            | inl (e, _, q) ↦ subst (λ r. Since (Spares id) base r.1) (sym q) s
            | inr (admin, _, q) ↦
                subst (λ r. Since (Spares id) base r.1) (sym q)
                  (two_loops-Since w.clock deadline admin row base w x s)
          ]

    checked :
        (b : Bool) (settings : LifecycleSettings) (row : InstanceLifecycle) (base : List Call)
        (w : World)
        → Extended row w
        → Since (Spares id) base w
        → Since (Spares id) base ((if b then check_rows env subject body settings else pure tt) w).1
    unfolding pure
    checked true settings row base w x s = check_rows-Since settings row base w x s
    checked false settings row base w x s = s

    run-Since :
        (row : InstanceLifecycle) (base : List Call) (w : World)
        → Extended row w
        → Since (Spares id) base w
        → Since (Spares id) base (run_lifecycle_check env subject body w).1
    unfolding run_lifecycle_check ◌>>=◌
    run-Since row base w x s =
        let rest : LifecycleSettings → M (Unit {0}) = λ settings.
          if truthy settings.enabled then check_rows env subject body settings else pure tt in
        elim (bind-Outcome (get_lifecycle_settings-Reads env subject body) rest w) [
          | inl (e, _, q) ↦ subst (λ r. Since (Spares id) base r.1) (sym q) s
          | inr (settings, _, q) ↦
              subst (λ r. Since (Spares id) base r.1) (sym q)
                (checked (truthy settings.enabled) settings row base w x s)
        ]

    round-Since :
        (row : InstanceLifecycle) (base : List Call) (w : World)
        → Extended row w
        → Since (Spares id) base w
        → Since (Spares id) base (round env subject body w).1
    unfolding round steps
    round-Since row base w x s =
        next_inv (Since (Spares id) base)
          (handle (run_lifecycle_check env subject body w) (λ _. pure tt)) (λ _. sleep (pos 3600))
          (handle_inv (Since (Spares id) base) (run_lifecycle_check env subject body w)
            (λ _. pure tt) (run-Since row base w x s) (λ e v t. t))
          (λ _ v t. t)

    round-Extended :
        (row : InstanceLifecycle) (w : World)
        → Extended row w
        → Extended row (round env subject body w).1
    unfolding rounds pure
    round-Extended row w (u, found, h) =
        let one = rounds-suc env subject body zero w in
        (
          subst (λ r. IsTracked r.1.db) one (rounds-IsTracked env subject body 1 w u),
          subst (λ r. get_instance_lifecycle id r.1.db ≡ some row) one
              (extended_forever env subject body 1 w id row u found h),
          h,
        )

    -- From a world in which the instance was extended, no round of the scheduler asks for its deletion.
    pub rounds-Since :
        (n : ℕ) (row : InstanceLifecycle) (base : List Call) (w : World)
        → Extended row w
        → Since (Spares id) base w
        → Since (Spares id) base (rounds env subject body n w).1
    unfolding rounds pure
    rounds-Since zero row base w x s = s
    rounds-Since (suc n) row base w x s =
        subst (λ r. Since (Spares id) base r.1) (sym (rounds-suc env subject body n w))
          (rounds-Since n row base (round env subject body w).1 (round-Extended row w x)
            (round-Since row base w x s))
