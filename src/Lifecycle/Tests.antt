-- ===== src/Lifecycle/Tests.antt =====
-- The theorems on the handlers at concrete rows.
use skyline_apiserver_extens.Common.{◌≡◌, refl, some}
use skyline_apiserver_extens.Common.Int
use skyline_apiserver_extens.Common.Int.{pos, ◌-ℤ◌, ◌≤ℤ◌}
use skyline_apiserver_extens.Db.{mark_extended, get_instance_lifecycle}
use skyline_apiserver_extens.World.{World, steps}
use skyline_apiserver_extens.Runtime.{ok}
use skyline_apiserver_extens.Lifecycle.{
  LifecycleStatusResponse, new_expiry, extend_instance_lifecycle, get_lifecycle_status,
}
use skyline_apiserver_extens.Lifecycle.Extend.{
  Answer, extend_instance_lifecycle_lem, extend_exempts,
}
use skyline_apiserver_extens.Scheduler.Rounds.{rounds}
use skyline_apiserver_extens.World.Makes.{Since}
use skyline_apiserver_extens.Scheduler.Spares.{Spares}
use skyline_apiserver_extens.Scheduler.Passes.{PassedOver}
use skyline_apiserver_extens.Samples.{env, subject, body, world, overdue}

extend_instance_lifecycle_lem_example :
    Answer "i2" world (get_instance_lifecycle "i2" world.db) (extend_instance_lifecycle "i2" world)
extend_instance_lifecycle_lem_example = extend_instance_lifecycle_lem "i2" world

abbrev after_rounds : World
after_rounds = (rounds env subject body 3 (extend_instance_lifecycle "i2" world).1).1

extend_exempts_example :
    (get_instance_lifecycle "i2" after_rounds.db
      ≡ some (mark_extended (new_expiry overdue world.clock) overdue))
    × Since (Spares "i2") world.calls after_rounds
    × PassedOver env subject body "i2" after_rounds
unfolding get_instance_lifecycle
extend_exempts_example =
    extend_exempts env subject body 3 "i2" world overdue (refl, (refl, (refl, (refl, tt)))) refl
      refl

abbrev overdue_status : LifecycleStatusResponse
overdue_status = record {
  instance_id = "i2";
  instance_name = overdue.instance_name;
  created_at = overdue.created_at;
  expires_at = overdue.expires_at;
  email_status = overdue.email_status;
  email_sent_at = overdue.email_sent_at;
  extended = overdue.extended;
  remaining_seconds = Int.negsuc 998999;
}

answered : (get_lifecycle_status "i2" world).0 ≡ ok overdue_status
unfolding get_lifecycle_status steps get_instance_lifecycle ◌-ℤ◌
answered = refl
