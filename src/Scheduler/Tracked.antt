-- ===== src/Scheduler/Tracked.antt =====
-- A run of the scheduler and the unique index on the lifecycle rows.
use skyline_apiserver_extens.Common.{String, refl, Bool, true, false, Option, if◌then◌else◌}
use skyline_apiserver_extens.Common.Int.{ℤ, pos, ◌-ℤ◌, ◌*ℤ◌}
use skyline_apiserver_extens.Runtime.{truthy}
use skyline_apiserver_extens.Db.{
  is_awaiting_reply, mark_deleted, update_instance_lifecycle_deleted,
  list_instance_lifecycles_expiring_before, list_instance_lifecycles_awaiting_reply,
}
use skyline_apiserver_extens.Db.Lifecycles.{IsTracked, get-deleted, deleted-IsTracked}
use skyline_apiserver_extens.World.{World, steps, next, for_each, ◌>>=◌, ◌>>◌, query, pure}
use skyline_apiserver_extens.World.Loops.{next_inv}
use skyline_apiserver_extens.World.Reads.{use-Reads}
use skyline_apiserver_extens.Env.{Env}
use skyline_apiserver_extens.Scheduler.{
  LifecycleSettings, get_lifecycle_settings, get_admin_project_id, warn_row, reap_row, check_rows,
  run_lifecycle_check,
}
use skyline_apiserver_extens.Scheduler.Rows.{loop-IsTracked}
use skyline_apiserver_extens.Scheduler.Effects.{
  Overdue, get_admin_project_id-Reads, get_lifecycle_settings-Reads, reap_row-Steps,
}
use skyline_apiserver_extens.Scheduler.Check.{warn_loop, two_loops}

module _ (env : Env) (subject : String → String)
    (body : String → String → String → String → String) where
  reap_loop-IsTracked :
      (deadline : ℤ) (admin : Option String) (w : World)
      → IsTracked w.db
      → IsTracked
          (for_each
            (list_instance_lifecycles_awaiting_reply deadline w.db)
            (reap_row env subject body admin)
            w).1.db
  unfolding list_instance_lifecycles_awaiting_reply
  reap_loop-IsTracked deadline admin w u =
      loop-IsTracked (Overdue deadline admin) mark_deleted (λ r. refl)
        update_instance_lifecycle_deleted get-deleted (reap_row env subject body admin)
        (is_awaiting_reply deadline) (reap_row-Steps env subject body deadline admin)
        deleted-IsTracked w u

  two_loops-IsTracked :
      (now deadline : ℤ) (admin : Option String) (w : World)
      → IsTracked w.db
      → IsTracked (two_loops env subject body now deadline admin w).1.db
  unfolding query ◌>>=◌ ◌>>◌ next
  two_loops-IsTracked now deadline admin w u =
      next_inv (λ w'. IsTracked w'.db)
        (for_each (list_instance_lifecycles_expiring_before now w.db)
          (warn_row env subject body now admin) w)
        (λ _ w'.
          for_each (list_instance_lifecycles_awaiting_reply deadline w'.db)
            (reap_row env subject body admin) w')
        (warn_loop env subject body now admin w u).1
        (λ _ w' h. reap_loop-IsTracked deadline admin w' h)

  check_rows-IsTracked :
      (settings : LifecycleSettings) (w : World)
      → IsTracked w.db
      → IsTracked (check_rows env subject body settings w).1.db
  unfolding check_rows steps
  check_rows-IsTracked settings w u =
      next_inv (λ w'. IsTracked w'.db)
        (get_admin_project_id env subject body settings.admin_project w)
        (two_loops env subject body w.clock (w.clock -ℤ settings.reply_deadline_days *ℤ pos 86400))
        (rw (use-Reads (get_admin_project_id-Reads env subject body settings.admin_project) w) u)
        (λ admin w' h. two_loops-IsTracked w.clock _ admin w' h)

  check_or_pass-IsTracked :
      (b : Bool) (settings : LifecycleSettings) (w : World)
      → IsTracked w.db
      → IsTracked ((if b then check_rows env subject body settings else pure tt) w).1.db
  unfolding pure
  check_or_pass-IsTracked true settings w u = check_rows-IsTracked settings w u
  check_or_pass-IsTracked false settings w u = u

  -- A run keeps one row to an instance.
  pub run_lifecycle_check-IsTracked :
      (w : World) → IsTracked w.db → IsTracked (run_lifecycle_check env subject body w).1.db
  unfolding run_lifecycle_check ◌>>=◌
  run_lifecycle_check-IsTracked w u =
      next_inv (λ w'. IsTracked w'.db) (get_lifecycle_settings env subject body w)
        (λ settings.
          if truthy settings.enabled then check_rows env subject body settings else pure tt)
        (rw (use-Reads (get_lifecycle_settings-Reads env subject body) w) u)
        (λ settings w' h. check_or_pass-IsTracked (truthy settings.enabled) settings w' h)
