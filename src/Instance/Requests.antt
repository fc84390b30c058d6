-- ===== src/Instance/Requests.antt =====
-- What the handlers that start, stop and restart instances do.
use skyline_apiserver_extens.Common.{String, ◌≡◌, refl, inr}
use skyline_apiserver_extens.Common.Int.{ℤ}
use skyline_apiserver_extens.Runtime.{http}
use skyline_apiserver_extens.Db.{Db, create_activity_record}
use skyline_apiserver_extens.World.{World, M, steps, ask, raise, try_except, ◌>>◌}
use skyline_apiserver_extens.World.Keeps.{KeepsDb, keeps-ask, keeps-request}
use skyline_apiserver_extens.World.Transacts.{
  AllOrNothing, Transacts, transacts, use-Transacts, Transacts-try, Transacts-then,
}
use skyline_apiserver_extens.Profile.{Profile}
use skyline_apiserver_extens.Cloud.{Cloud, ExternalRule}
use skyline_apiserver_extens.Cloud
use skyline_apiserver_extens.Instance.{
  record_activity, start_instance, stop_instance, reboot_instance,
}
use skyline_apiserver_extens.Instance.Effects.{or_500-KeepsDb}

-- The database with one more activity of the user.
abbrev pub Recorded : Profile → String → String → Unit {0} → Db → Db → Type 0
Recorded profile category status _ d d' =
    (message : String) × (now : ℤ) × (d'
      ≡ create_activity_record profile.user.id profile.project.id category message status "" now d)

record_activity-Transacts :
    (profile : Profile) (category message status : String)
    → Transacts (Recorded profile category status) (record_activity profile category message status)
unfolding record_activity steps
record_activity-Transacts profile category message status =
    transacts λ w. inr (tt, refl, (message, w.clock, refl))

module _ (cloud : Cloud) where
  recording :
      (profile : Profile) (category status : String) (failure : String) {m n : M (Unit {0})}
      → KeepsDb m
      → Transacts (Recorded profile category status) n
      → Transacts (Recorded profile category status) (
          ask (λ w. cloud.generate_session w profile)
          >> try_except (m >> n) (λ _. raise (http 500 failure)))
  recording profile category status failure k h =
      Transacts-then (Recorded profile category status) (keeps-ask _) (
        Transacts-try (Recorded profile category status) _
          (Transacts-then (Recorded profile category status) k h))

  -- Starting, stopping and restarting an instance are all or nothing for the database: either the
  -- handler raises and the database is as before, or it ends and one activity of the user, a
  -- success of the action's own kind, is what was added.
  pub switch_lem :
      (id reboot_type : String) (profile : Profile) (w : World)
      → AllOrNothing (Recorded profile "인스턴스 시작" "success") w.db (start_instance cloud id profile w)
        × AllOrNothing
            (Recorded profile "인스턴스 정지" "success")
            w.db
            (stop_instance cloud id profile w)
        × AllOrNothing
            (Recorded profile "인스턴스 재시작" "success")
            w.db
            (reboot_instance cloud id reboot_type profile w)
  unfolding start_instance stop_instance reboot_instance Cloud.start_server Cloud.stop_server
      Cloud.reboot_server
  switch_lem id reboot_type profile w = (
    use-Transacts _
        (recording profile "인스턴스 시작" "success" _
          (or_500-KeepsDb cloud _ (keeps-request cloud.answer _))
          (record_activity-Transacts profile _ _ _))
        w,
    use-Transacts _
        (recording profile "인스턴스 정지" "success" _
          (or_500-KeepsDb cloud _ (keeps-request cloud.answer _))
          (record_activity-Transacts profile _ _ _))
        w,
    use-Transacts _
        (recording profile "인스턴스 재시작" "success" _
          (or_500-KeepsDb cloud _ (keeps-request cloud.answer _))
          (record_activity-Transacts profile _ _ _))
        w,
  )
