-- ===== src/Scheduler/Tests.antt =====
-- The theorems on the scheduler at a concrete database and environment.
use skyline_apiserver_extens.Common.{◌≡◌, refl, [], ◌∷◌, none, some}
use skyline_apiserver_extens.Runtime.{ok}
use skyline_apiserver_extens.Config.{group}
use skyline_apiserver_extens.Db.{EmailStatus, InstanceLifecycle, get_instance_lifecycle}
use skyline_apiserver_extens.Db.Lifecycles.{IsTracked}
use skyline_apiserver_extens.World.{for_each}
use skyline_apiserver_extens.Scheduler.{run_lifecycle_check, reap_row}
use skyline_apiserver_extens.Scheduler.Rows.{Related}
use skyline_apiserver_extens.Scheduler.Check.{Outcome, run_lifecycle_check-rows}
use skyline_apiserver_extens.Scheduler.Rounds.{reap_never_deletes}
use skyline_apiserver_extens.Samples.{env, subject, body, world, lifecycle, overdue, openstack_opts}

tracked : IsTracked world.db
tracked = (refl, (refl, (refl, (refl, tt))))

run_lifecycle_check-rows_example :
    Related
      (Outcome env subject body world)
      (get_instance_lifecycle "i1" world.db)
      (get_instance_lifecycle "i1" (run_lifecycle_check env subject body world).1.db)
run_lifecycle_check-rows_example = run_lifecycle_check-rows env subject body world tracked "i1"

abbrev third : InstanceLifecycle
third = lifecycle "i3" EmailStatus.extended none

reap_never_deletes_example :
    for_each (overdue ∷ []) (reap_row env subject body (some "admin-project")) world
    ≡ (ok tt, world)
unfolding group
reap_never_deletes_example =
    reap_never_deletes env subject body "openstack" openstack_opts (some "admin-project")
      (overdue ∷ []) world refl refl
