-- ===== src/Instance/Volumes.antt =====
-- The background task that deletes the volumes of an instance: its loops and its time.
use skyline_apiserver_extens.Common.{
  ℕ, zero, suc, ◌+◌, ◌*◌, String, ◌≡◌, refl, Bool, List, length, ◌==◌, arith, if◌then◌else◌,
}
use skyline_apiserver_extens.Common.Int.{pos, ◌+ℤ◌, ◌≤ℤ◌}
use skyline_apiserver_extens.Runtime.{ok}
use skyline_apiserver_extens.World.{World, M, steps, pure, sleep, ◌>>◌}
use skyline_apiserver_extens.World.Within.{
  Within, Within-ask, Within-pure, Within-raise, Within-weaken, Within-if, Within-try,
  Within-request, Within-bind, Within-then, Within-sleep, Ends, ends, use-Ends, Ends-then,
  Ends-ignore, Ends-for_each,
}
use skyline_apiserver_extens.Cloud.{Cloud}
use skyline_apiserver_extens.Cloud
use skyline_apiserver_extens.Instance.{
  wait_gone, wait_available, delete_volume, delete_volumes_after_instance,
}

-- A round of a loop that waits.
pause-Within :
    (n : ℕ) (b : Bool) {m : M (Unit {0})}
    → Within (n * 5) m
    → Within (suc n * 5) (if b then pure tt else (sleep (pos 5) >> m))
pause-Within n b h =
    Within-if b (Within-weaken (Within-pure tt) (omega arith))
      (Within-weaken (Within-then (Within-sleep 5) h) (omega arith))

module _ (cloud : Cloud) where
  get_volume-Within : (v : String) → Within 0 (Cloud.get_volume cloud v)
  unfolding Cloud.get_volume Cloud.volume_error
  get_volume-Within v = Within-try (Within-ask _) (λ e. Within-raise _)

  delete-Within : (v : String) → Within 0 (Cloud.delete_volume cloud v)
  unfolding Cloud.delete_volume Cloud.volume_error
  delete-Within v =
      Within-try
        (Within-bind (Within-ask _) (λ status.
          Within-if (status == "in-use") (Within-raise _) (Within-request cloud.answer _)))
        (λ e. Within-raise _)

  wait_available-Within : (n : ℕ) (v : String) → Within (n * 5) (wait_available cloud n v)
  unfolding wait_available
  wait_available-Within zero v = Within-pure tt
  wait_available-Within (suc n) v =
      Within-weaken
        (Within-bind {k = suc n * 5}
          (Within-try (Within-bind (get_volume-Within v) (λ _. Within-pure _)) (λ _. Within-pure _))
          (λ ready. pause-Within n ready (wait_available-Within n v)))
        (omega arith)

  delete_volume-Ends : (v : String) → Ends 60 (delete_volume cloud v)
  unfolding delete_volume
  delete_volume-Ends v = Ends-ignore (Within-then (wait_available-Within 12 v) (delete-Within v))

  wait_gone-Within : (n : ℕ) (id : String) → Within (n * 5) (wait_gone cloud n id)
  unfolding wait_gone
  wait_gone-Within zero id = Within-pure tt
  wait_gone-Within (suc n) id =
      Within-weaken
        (Within-bind {k = suc n * 5}
          (Within-try (Within-then (Within-ask _) (Within-pure _)) (λ _. Within-pure _))
          (λ gone. pause-Within n gone (wait_gone-Within n id)))
        (omega arith)

  wait_gone-ok : (n : ℕ) (id : String) (w : World) → (wait_gone cloud n id w).0 ≡ ok tt
  unfolding wait_gone steps
  wait_gone-ok zero id w = refl
  wait_gone-ok (suc n) id w =
      ground (arith, wait_gone-ok n id (record w { clock = w.clock +ℤ pos 5 }))

  task-Ends :
      (id : String) (vs : List String)
      → Ends (120 + length vs * 60) (delete_volumes_after_instance cloud id vs)
  unfolding delete_volumes_after_instance
  task-Ends id vs =
      Ends-then (ends (wait_gone-ok 24 id) (wait_gone-Within 24 id))
        (Ends-for_each delete_volume-Ends vs)

  -- Whatever the cloud answers, the task that deletes the volumes of an instance ends without an
  -- exception, leaves the database alone, and has slept at most two minutes and one minute for each
  -- volume.
  pub delete_volumes_after_instance_lem :
      (id : String) (vs : List String) (w : World)
      → ((delete_volumes_after_instance cloud id vs w).0 ≡ ok tt)
        × ((delete_volumes_after_instance cloud id vs w).1.db ≡ w.db)
        × ((delete_volumes_after_instance cloud id vs w).1.clock
            ≤ℤ w.clock +ℤ pos (120 + length vs * 60))
  delete_volumes_after_instance_lem id vs w =
      let (done, (same, bound)) = use-Ends (task-Ends id vs) w in (done, same, bound)
