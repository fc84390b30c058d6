-- ===== src/Instance/Tests.antt =====
-- The theorems on instances over a concrete cloud.
use skyline_apiserver_extens.Common.{◌+◌, ◌*◌, String, ◌≡◌, [], ◌∷◌, length}
use skyline_apiserver_extens.Common.Int.{pos, ◌+ℤ◌, ◌≤ℤ◌}
use skyline_apiserver_extens.Runtime.{ok}
use skyline_apiserver_extens.World.Transacts.{AllOrNothing}
use skyline_apiserver_extens.Instance.{
  delete_instance, start_instance, stop_instance, reboot_instance, delete_volumes_after_instance,
}
use skyline_apiserver_extens.Instance.Effects.{Deleted, delete_instance_lem}
use skyline_apiserver_extens.Instance.Requests.{Recorded, switch_lem}
use skyline_apiserver_extens.Instance.Volumes.{delete_volumes_after_instance_lem}
use skyline_apiserver_extens.Samples.{cloud, world, member}

delete_instance_lem_example :
    AllOrNothing (Deleted cloud "i1" member) world.db (delete_instance cloud "i1" member world)
delete_instance_lem_example = delete_instance_lem cloud "i1" member world

switch_lem_example :
    AllOrNothing
      (Recorded member "인스턴스 시작" "success")
      world.db
      (start_instance cloud "i1" member world)
    × AllOrNothing
        (Recorded member "인스턴스 정지" "success")
        world.db
        (stop_instance cloud "i1" member world)
    × AllOrNothing
        (Recorded member "인스턴스 재시작" "success")
        world.db
        (reboot_instance cloud "i1" "SOFT" member world)
switch_lem_example = switch_lem cloud "i1" "SOFT" member world

delete_volumes_after_instance_lem_example :
    ((delete_volumes_after_instance cloud "i1" ("v1" ∷ []) world).0 ≡ ok tt)
    × ((delete_volumes_after_instance cloud "i1" ("v1" ∷ []) world).1.db ≡ world.db)
    × ((delete_volumes_after_instance cloud "i1" ("v1" ∷ []) world).1.clock
        ≤ℤ world.clock +ℤ pos (120 + length {A = String} ("v1" ∷ []) * 60))
delete_volumes_after_instance_lem_example =
    delete_volumes_after_instance_lem cloud "i1" ("v1" ∷ []) world
