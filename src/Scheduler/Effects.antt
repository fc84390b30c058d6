-- ===== src/Scheduler/Effects.antt =====
-- One round of each loop of `run_lifecycle_check`: the row that it may change, and how.
use skyline_apiserver_extens.Common.{
  String, ◌≡◌, refl, true, false, Option, none, some, ◌⊎◌, inl, arith, List, [], ◌∷◌,
}
use skyline_apiserver_extens.Common.Int.{ℤ, ◌≤ℤ◌, leb_ℤ→≤}
use skyline_apiserver_extens.Runtime.{Json}
use skyline_apiserver_extens.Db.{
  EmailStatus, InstanceLifecycle, is_none, is_sent, is_expiring, is_awaiting_reply, sent_by,
  update_instance_lifecycle_email_sent, update_instance_lifecycle_deleted,
}
use skyline_apiserver_extens.World.{World, pure, ◌>>=◌}
use skyline_apiserver_extens.World.Loops.{commit_db, lift_inv}
use skyline_apiserver_extens.World.Keeps.{
  KeepsDb, use_keeps, keeps-bind, keeps-then, keeps-lift, keeps-pure, keeps-try, keeps-request,
}
use skyline_apiserver_extens.World.Reads.{
  Reads, Reads-bind, Reads-lift, Reads-pure, Reads-query, Reads-ask, Reads-try,
}
use skyline_apiserver_extens.Env.{Env, openstack_args, setting_value}
use skyline_apiserver_extens.Mail.{send_lifecycle_warning_email}
use skyline_apiserver_extens.Mail.Keeps.{send-KeepsDb}
use skyline_apiserver_extens.Scheduler.{
  is_admin_project, get_lifecycle_settings, get_admin_project_id, delete_instance, send_warning,
  warn, warn_row, reap, reap_row,
}

-- The row's project is not the one that was found for the administrators, if any was; no warning was sent, and its time is over.
abbrev pub Due : ℤ → Option String → InstanceLifecycle → Type 0
Due now admin row =
    (is_admin_project admin row.project_id ≡ false)
    × (row.email_status ≡ EmailStatus.none)
    × (row.expires_at ≤ℤ now)

-- The row's project is not the one that was found for the administrators, if any was; a warning was sent by the deadline, and the
-- instance was not extended.
abbrev pub Overdue : ℤ → Option String → InstanceLifecycle → Type 0
Overdue deadline admin row =
    (is_admin_project admin row.project_id ≡ false)
    × (row.email_status ≡ EmailStatus.sent)
    × (row.extended ≡ false)
    × ((at : ℤ) × (row.email_sent_at ≡ some at) × (at ≤ℤ deadline))

is_none_iff : (s : EmailStatus) → is_none s ≡ true → s ≡ EmailStatus.none
is_none_iff EmailStatus.none h = refl
is_none_iff EmailStatus.sent h = cc
is_none_iff EmailStatus.extended h = cc
is_none_iff EmailStatus.deleted h = cc

is_sent_iff : (s : EmailStatus) → is_sent s ≡ true → s ≡ EmailStatus.sent
is_sent_iff EmailStatus.none h = cc
is_sent_iff EmailStatus.sent h = refl
is_sent_iff EmailStatus.extended h = cc
is_sent_iff EmailStatus.deleted h = cc

sent_by_iff :
    (o : Option ℤ) (deadline : ℤ)
    → sent_by o deadline ≡ true
    → (at : ℤ) × (o ≡ some at) × (at ≤ℤ deadline)
sent_by_iff none deadline h = cc
sent_by_iff (some at) deadline h = (at, refl, leb_ℤ→≤ at deadline h)

module _ (env : Env) where
  openstack_args-KeepsDb : (ks : List String) → KeepsDb (openstack_args env ks)
  unfolding openstack_args
  openstack_args-KeepsDb [] = keeps-pure _
  openstack_args-KeepsDb (k ∷ ks) =
      keeps-bind (keeps-lift _) λ v. keeps-bind (openstack_args-KeepsDb ks) λ vs. keeps-pure _

  pub openstack_args-Reads : (ks : List String) → Reads (openstack_args env ks)
  unfolding openstack_args
  openstack_args-Reads [] = Reads-pure _
  openstack_args-Reads (k ∷ ks) =
      Reads-bind (Reads-lift _) λ v. Reads-bind (openstack_args-Reads ks) λ vs. Reads-pure _

  pub setting_value-Reads : (key : String) → Reads (setting_value env key)
  unfolding setting_value
  setting_value-Reads key = Reads-bind (Reads-query _) λ row. Reads-lift _

module _ (env : Env) (subject : String → String)
    (body : String → String → String → String → String) where
  pub get_lifecycle_settings-Reads : Reads (get_lifecycle_settings env subject body)
  unfolding get_lifecycle_settings
  get_lifecycle_settings-Reads = Reads-bind (setting_value-Reads env _) λ enabled.
      Reads-bind (setting_value-Reads env _) λ days. Reads-bind (Reads-lift _) λ lifetime.
        Reads-bind (setting_value-Reads env _) λ deadline_days.
          Reads-bind (Reads-lift _) λ deadline. Reads-bind (Reads-lift _) λ admin. Reads-pure _

  pub get_admin_project_id-Reads :
      (name : Json) → Reads (get_admin_project_id env subject body name)
  unfolding get_admin_project_id
  get_admin_project_id-Reads name =
      Reads-try
        (Reads-bind (openstack_args-Reads env _)
          λ args. Reads-bind (Reads-ask _) λ ids. Reads-pure _)
        (λ e. Reads-pure _)

  delete_instance-KeepsDb : (id : String) → KeepsDb (delete_instance env subject body id)
  unfolding delete_instance
  delete_instance-KeepsDb id =
      keeps-try
        (keeps-bind (openstack_args-KeepsDb env _)
          λ args. keeps-then (keeps-request env.answer _) (keeps-pure _))
        (λ e. keeps-pure _)

  send_warning_db :
      (now : ℤ) (row : InstanceLifecycle) (s : String) (w : World)
      → ((send_warning env subject body now row s w).1.db ≡ w.db)
        ⊎ ((send_warning env subject body now row s w).1.db
            ≡ update_instance_lifecycle_email_sent row.instance_id now w.db)
  unfolding send_warning ◌>>=◌
  send_warning_db now row s w =
      commit_db (send_lifecycle_warning_email env _ _ _ w)
        (update_instance_lifecycle_email_sent row.instance_id now) w.db
        (use_keeps (send-KeepsDb env _ _ _) w)

  warn_db :
      (now : ℤ) (row : InstanceLifecycle) (w : World)
      → ((warn env subject body now row w).1.db ≡ w.db)
        ⊎ ((warn env subject body now row w).1.db
            ≡ update_instance_lifecycle_email_sent row.instance_id now w.db)
  unfolding warn
  warn_db now row w =
      lift_inv
        (λ w'.
          (w'.db ≡ w.db) ⊎ (w'.db ≡ update_instance_lifecycle_email_sent row.instance_id now w.db))
        (env.utc_text row.expires_at) (send_warning env subject body now row) w (inl refl)
        (λ s. send_warning_db now row s w)

  -- The first loop changes a row only if it is due, and then marks it as sent.
  pub warn_row-Steps :
      (now : ℤ) (admin : Option String) (row : InstanceLifecycle)
      → is_expiring now row ≡ true
      → (w : World)
      → ((warn_row env subject body now admin row w).1.db ≡ w.db)
        ⊎ (Due now admin row
            × ((warn_row env subject body now admin row w).1.db
                ≡ update_instance_lifecycle_email_sent row.instance_id now w.db))
  unfolding warn_row pure
  warn_row-Steps now admin row h w =
      ground (arith, is_none_iff row.email_status, leb_ℤ→≤ row.expires_at now, warn_db now row w)

  reap_db :
      (row : InstanceLifecycle) (w : World)
      → ((reap env subject body row w).1.db ≡ w.db)
        ⊎ ((reap env subject body row w).1.db
            ≡ update_instance_lifecycle_deleted row.instance_id w.db)
  unfolding reap ◌>>=◌
  reap_db row w =
      commit_db (delete_instance env subject body row.instance_id w)
        (update_instance_lifecycle_deleted row.instance_id) w.db
        (use_keeps (delete_instance-KeepsDb row.instance_id) w)

  -- The second loop changes a row only if it is overdue, and then marks it as deleted.
  pub reap_row-Steps :
      (deadline : ℤ) (admin : Option String) (row : InstanceLifecycle)
      → is_awaiting_reply deadline row ≡ true
      → (w : World)
      → ((reap_row env subject body admin row w).1.db ≡ w.db)
        ⊎ (Overdue deadline admin row
            × ((reap_row env subject body admin row w).1.db
                ≡ update_instance_lifecycle_deleted row.instance_id w.db))
  unfolding reap_row pure
  reap_row-Steps deadline admin row h w =
      ground
        (arith, is_sent_iff row.email_status, sent_by_iff row.email_sent_at deadline, reap_db row w)
