-- ===== src/Provision/Networking.antt =====
-- The networking of a new instance: its loops and its time.
use skyline_apiserver_extens.Common.{
  ℕ, zero, suc, ◌+◌, ◌*◌, String, ◌≡◌, Bool, true, false, List, length, refl, ◌==◌, arith,
}
use skyline_apiserver_extens.Common.Int.{pos, ◌+ℤ◌, ◌≤ℤ◌}
use skyline_apiserver_extens.Runtime.{ok}
use skyline_apiserver_extens.World.{World, Call, request, steps}
use skyline_apiserver_extens.World.Within.{
  Within, within, Ends-weaken, Within-ask, Within-pure, Within-raise, Within-weaken, Within-if,
  Within-try, Within-bind, Within-then, Within-sleep, Within-Option, Within-first, Ends, use-Ends,
  Ends-ignore, Within-for_each,
}
use skyline_apiserver_extens.Profile.{Profile}
use skyline_apiserver_extens.Cloud.{Cloud, internal_ip_loop, get_server_internal_ip}
use skyline_apiserver_extens.Portforward.{waits}
use skyline_apiserver_extens.Portforward.Attempts.{retrying-Attempted}
use skyline_apiserver_extens.Provision.{
  PortForwardingRule, status_or_none, decided, wait_active, wait_internal_ip, call_portforward_api,
  forward_ssh, forward_port, forward, connect, set_up, setup_instance_networking,
}

module _ (cloud : Cloud) (digits : ℕ → String) where
  internal_ip_loop-Within : (n : ℕ) (id : String) → Within (n * 3) (internal_ip_loop cloud n id)
  unfolding internal_ip_loop
  internal_ip_loop-Within zero id = Within-raise _
  internal_ip_loop-Within (suc n) id =
      Within-weaken
        (Within-bind {j = 0} {k = suc n * 3} (Within-ask _) (λ addresses.
          Within-first addresses
            (Within-weaken (Within-then (Within-sleep 3) (internal_ip_loop-Within n id))
              (omega arith))
            (λ ip. Within-weaken (Within-pure ip) (omega arith))))
        (omega arith)

  status_or_none-Within : (id : String) → Within 0 (status_or_none cloud digits id)
  unfolding status_or_none
  status_or_none-Within id =
      Within-try (Within-bind (Within-ask _) (λ _. Within-pure _)) (λ _. Within-pure _)

  wait_active-Within : (n : ℕ) (id : String) → Within (n * 10) (wait_active cloud digits n id)
  unfolding wait_active
  wait_active-Within zero id = Within-pure false
  wait_active-Within (suc n) id =
      Within-weaken
        (Within-bind {k = suc n * 10} (status_or_none-Within id) (λ status.
          Within-Option (decided cloud digits status)
            (Within-weaken (Within-then (Within-sleep 10) (wait_active-Within n id)) (omega arith))
            (λ active. Within-weaken (Within-pure active) (omega arith))))
        (omega arith)

  wait_internal_ip-Within :
      (n : ℕ) (id : String) → Within (n * 40) (wait_internal_ip cloud digits n id)
  unfolding wait_internal_ip get_server_internal_ip
  wait_internal_ip-Within zero id = Within-pure ""
  wait_internal_ip-Within (suc n) id =
      Within-weaken
        (Within-bind {j = 30} {k = n * 40 + 10}
          (Within-try (internal_ip_loop-Within 10 id) (λ _. Within-pure ""))
          (λ ip.
            Within-if (ip == "")
              (Within-weaken (Within-then (Within-sleep 10) (wait_internal_ip-Within n id))
                (omega arith))
              (Within-weaken (Within-pure ip) (omega arith))))
        (omega arith)

  -- the waits of the retries: one second, then two
  call_portforward_api-Within : (c : Call) → Within 3 (call_portforward_api cloud digits c)
  unfolding call_portforward_api steps
  call_portforward_api-Within c = within λ w.
      let attempted = retrying-Attempted c (request cloud.answer c) waits (λ v. refl) w in
      (attempted.5, attempted.4)

  forward_ssh-Within : (id name ip : String) → Within 3 (forward_ssh cloud digits id name ip)
  unfolding forward_ssh
  forward_ssh-Within id name ip = Within-try (call_portforward_api-Within _) (λ _. Within-pure tt)

  forward_port-Within :
      (id name ip : String) (port : PortForwardingRule)
      → Within 3 (forward_port cloud digits id name ip port)
  unfolding forward_port
  forward_port-Within id name ip port =
      Within-try (call_portforward_api-Within _) (λ _. Within-pure tt)

  forward-Within :
      (id name : String) (ports : List PortForwardingRule) (ip : String)
      → Within (3 + length ports * 3) (forward cloud digits id name ports ip)
  unfolding forward
  forward-Within id name ports ip =
      Within-if (ip == "") (Within-weaken (Within-pure tt) (omega arith)) (
        Within-then (forward_ssh-Within id name ip)
          (Within-for_each ports (forward_port-Within id name ip)))

  connect-Within :
      (id name : String) (ports : List PortForwardingRule) (active : Bool)
      → Within (413 + length ports * 3) (connect cloud digits id name ports active)
  unfolding connect
  connect-Within id name ports false = Within-weaken (Within-pure tt) (omega arith)
  connect-Within id name ports true =
      Within-weaken
        (Within-then (Within-sleep 10)
          (Within-bind (wait_internal_ip-Within 10 id) (forward-Within id name ports)))
        (omega arith)

  set_up-Ends :
      (id name : String) (ports : List PortForwardingRule)
      → Ends (1013 + length ports * 3) (set_up cloud digits id name ports)
  unfolding set_up
  set_up-Ends id name ports =
      Ends-weaken
        (Ends-ignore (Within-bind (wait_active-Within 60 id) (connect-Within id name ports)))
        (omega arith)

  -- With a session, whatever the cloud and the port forwarding service answer, setting up the network
  -- of a new instance ends without an exception, leaves the database alone, and has slept at most
  -- 1013 seconds and three for each additional port: ten minutes for the instance, 410 seconds for
  -- its address, and the waits between the attempts to forward a port, for SSH and for each other.
  pub setup_instance_networking_lem :
      (id name : String) (profile : Profile) (ports : List PortForwardingRule) (w : World)
      → cloud.generate_session w profile ≡ ok tt
      → ((setup_instance_networking cloud digits id name profile ports w).0 ≡ ok tt)
        × ((setup_instance_networking cloud digits id name profile ports w).1.db ≡ w.db)
        × ((setup_instance_networking cloud digits id name profile ports w).1.clock
            ≤ℤ w.clock +ℤ pos (1013 + length ports * 3))
  unfolding setup_instance_networking steps
  setup_instance_networking_lem id name profile ports w session =
      let (done, (same, bound)) = use-Ends (set_up-Ends id name ports) w in
      rw session (done, same, bound)
