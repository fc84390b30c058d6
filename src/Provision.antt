-- ===== src/Provision.antt =====
-- api/v1/instance.py: `setup_instance_networking`, and the part of `_provision_instance` that registers
-- the lifetime of a new instance. `digits` is `str` on numbers. A response of the port forwarding
-- service is only logged.
pub mod Networking
pub mod Registration
mod Tests
use Prim.Native.String
use skyline_apiserver_extens.Common.{
  ℕ, zero, suc, String, Bool, true, false, not, ◌&&◌, Option, none, some, List, [], ◌∷◌, ◌==◌, eqb,
  if◌then◌else◌,
}
use skyline_apiserver_extens.Common.Int.{pos, ◌+ℤ◌, ◌*ℤ◌}
use skyline_apiserver_extens.Runtime.{Json, str, truthy}
use skyline_apiserver_extens.Config.{get_attr}
use skyline_apiserver_extens.Db.{create_instance_lifecycle}
use skyline_apiserver_extens.World.{
  World, Call, M, ◌>>=◌, ◌>>◌, pure, lift, ask, time, sleep, request, execute_or_raise,
  post_portforward, try_except, for_each,
}
use skyline_apiserver_extens.Profile.{Profile}
use skyline_apiserver_extens.Env.{Env, int_of, setting_value}
use skyline_apiserver_extens.Cloud.{Cloud, get_server_internal_ip}
use skyline_apiserver_extens.Portforward.{retrying, waits}
use skyline_apiserver_extens.Instance.{ignore}

-- `PortForwardingRule`
pub record PortForwardingRule : Type 0 where
  pub internal_port : ℕ
  pub external_port : ℕ
  pub protocol : String

-- `s[:n]`
unfoldable pub take_text : ℕ → String → String
take_text zero s = ""
take_text (suc n) String.[] = ""
take_text (suc n) (String.◌∷◌ c s) = String.◌∷◌ c (take_text n s)

-- `port or None`
abbrev port_or_none : ℕ → Option ℕ
port_or_none port = if eqb port 0 then none else some port

module _ (cloud : Cloud) (digits : ℕ → String) where
  -- the status of a server, or `none` where the question raises
  unfoldable pub status_or_none : String → M (Option String)
  status_or_none server_id =
      try_except (do status ← ask (λ w. cloud.server_status w server_id); pure (some status))
        (λ _. pure none)

  -- what a round of the first loop makes of a status: done, or go on
  abbrev pub decided : Option String → Option Bool
  decided none = none
  decided (some status) =
      if status == "ACTIVE" then some true else if status == "ERROR" then some false else none

  -- the loop that waits for the instance, with the attempts that are left; true where it is active
  unfoldable pub wait_active : ℕ → String → M Bool
  wait_active zero server_id = pure false
  wait_active (suc n) server_id = do
    status ← status_or_none server_id
    elim (decided status) [
      | some active ↦ pure active
      | none ↦ sleep (pos 10) >> wait_active n server_id
    ]

  -- the loop that looks for the internal address; the empty text where there is none
  unfoldable pub wait_internal_ip : ℕ → String → M String
  wait_internal_ip zero server_id = pure ""
  wait_internal_ip (suc n) server_id = do
    ip ← try_except (get_server_internal_ip cloud server_id) (λ _. pure "")
    if ip == "" then (sleep (pos 10) >> wait_internal_ip n server_id) else pure ip

  -- `_call_portforward_api`, with the retries of `_retry_on_network_error`
  unfoldable pub call_portforward_api : Call → M (Unit {0})
  unfolding retrying
  call_portforward_api c = retrying waits (request cloud.answer c)

  unfoldable pub forward_ssh : String → String → String → M (Unit {0})
  forward_ssh server_id server_name ip =
      try_except
        (call_portforward_api (
          post_portforward (String.◌++◌ "ssh-" (take_text 8 server_id)) server_id server_name ip 22
            none "ssh" "tcp"))
        ignore

  unfoldable pub forward_port : String → String → String → PortForwardingRule → M (Unit {0})
  forward_port server_id server_name ip port =
      try_except
        (call_portforward_api (
          post_portforward
            (String.◌++◌ "port-"
              (String.◌++◌ (take_text 8 server_id) (String.◌++◌ "-" (digits port.internal_port))))
            server_id server_name ip port.internal_port (port_or_none port.external_port) "other"
            port.protocol))
        ignore

  unfoldable pub forward : String → String → List PortForwardingRule → String → M (Unit {0})
  forward server_id server_name ports ip =
      if ip == ""
      then pure tt
      else (forward_ssh server_id server_name ip
          >> for_each ports (forward_port server_id server_name ip))

  unfoldable pub connect : String → String → List PortForwardingRule → Bool → M (Unit {0})
  connect server_id server_name ports false = pure tt
  connect server_id server_name ports true = do
    sleep (pos 10)
    ip ← wait_internal_ip 10 server_id
    forward server_id server_name ports ip

  -- the `try` block and its handler
  unfoldable pub set_up : String → String → List PortForwardingRule → M (Unit {0})
  set_up server_id server_name ports =
      try_except (wait_active 60 server_id >>= connect server_id server_name ports) ignore

  unfoldable pub setup_instance_networking :
      String → String → Profile → List PortForwardingRule → M (Unit {0})
  setup_instance_networking server_id server_name profile ports = do
    ask (λ w. cloud.generate_session w profile)
    set_up server_id server_name ports

module _ (env : Env) where
  -- `profile.project.name == CONF.openstack.system_project`
  abbrev pub is_text : String → Json → Bool
  is_text s (str t) = s == t
  is_text s _ = false

  -- `getattr(profile.user, "email", "") or ""`
  abbrev pub email_of : Profile → String
  email_of profile = elim profile.user.email [ none ↦ "" | some e ↦ e ]

  -- the registration, once it is decided
  unfoldable pub insert_lifecycle : String → String → Profile → M (Unit {0})
  insert_lifecycle server_id name profile = do
    days ← setting_value env "instance_lifetime_days"
    lifetime_days ← lift (int_of env days)
    now ← time
    execute_or_raise (
        create_instance_lifecycle server_id name profile.user.id profile.project.id
          (email_of profile) now (now +ℤ lifetime_days *ℤ pos 86400))

  unfoldable pub register_lifecycle : String → String → Profile → M (Unit {0})
  register_lifecycle server_id name profile =
      try_except
        (do
          lc_enabled ← setting_value env "instance_lifecycle_enabled"
          system_project ← lift (get_attr env.openstack "system_project")
          if truthy lc_enabled && not (is_text profile.project.name system_project)
              then insert_lifecycle server_id name profile
              else pure tt)
        ignore
