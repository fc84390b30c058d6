-- ===== src/Forwarding.antt =====
-- The handlers of api/v1/instance.py that add and delete port forwardings of Neutron, with
-- create_port_forwarding_rule of client/openstack/neutron.py. `Neutron` holds what that service answers; a rule is given by its
-- external port where the code reads no more of it.
pub mod Limit
mod Tests
use Prim.Native.String
use Prim.Native.Char.{code}
use skyline_apiserver_extens.Common.{
  ℕ, zero, suc, ◌+◌, String, Bool, false, Option, none, some, List, [], ◌∷◌, ◌==◌, eqb, leb, length,
  ◌&&◌, ◌||◌, if◌then◌else◌,
}
use skyline_apiserver_extens.Runtime.{http, other, Result}
use skyline_apiserver_extens.World.{
  World, Call, M, ◌>>=◌, ◌>>◌, pure, raise, ask, exchange, try_except,
}
use skyline_apiserver_extens.World
use skyline_apiserver_extens.Profile.{Profile}
use skyline_apiserver_extens.Cloud.{Cloud}
use skyline_apiserver_extens.Cloud

pub record PortForwardingAdd : Type 0 where
  pub internal_ip : String
  pub internal_port : ℕ
  pub external_port : Option ℕ
  pub protocol : String
  pub floating_ip : Option String

pub record PortForwardingDelete : Type 0 where
  pub floating_ip_id : String
  pub pf_id : String

pub record FloatingIp : Type 0 where
  pub id : String
  pub floating_ip_address : Option String

-- the fields of a rule that an answer repeats
pub record Created : Type 0 where
  pub id : Option String
  pub internal_ip_address : Option String
  pub internal_port : Option ℕ
  pub external_port : Option ℕ
  pub protocol : Option String

pub record Neutron : Type 0 where
  -- `CONF.openstack.port_forwarding_limit`
  pub port_forwarding_limit : ℕ
  -- by the user's session: the ids of the project's floating addresses, the rules of one, a
  -- floating address by its id, all of them
  pub project_floatingips : World → Profile → Result (List String)
  pub get_port_forwarding_rules : World → Profile → String → Result (List ℕ)
  pub show_floatingip : World → Profile → String → Result FloatingIp
  pub list_floatingips : World → Profile → Result (List FloatingIp)
  -- by the system's session: the rules of a floating address, the ids of the ports with an address,
  -- a new rule
  pub list_port_forwardings : World → String → Result (List ℕ)
  pub list_ports : World → String → Result (List String)
  pub created : World → Call → Result Created
  -- `random.randint(min_port, max_port)`, at one of the attempts
  pub randint : World → ℕ → ℕ → ℕ → Result ℕ

-- `port in used_ports`
abbrev pub is_used : ℕ → List ℕ → Bool
is_used port [] = false
is_used port (p ∷ ps) = eqb port p || is_used port ps

-- `s.count("-")`
unfoldable pub dashes : String → ℕ
dashes String.[] = 0
dashes (String.◌∷◌ c s) = (if eqb (code c) b'-' then 1 else 0) + dashes s

unfoldable pub is_uuid : String → Bool
is_uuid s = eqb (String.count s) 36 && eqb (dashes s) 4

-- `for f in all_fips_list`
unfoldable pub find_floatingip : String → List FloatingIp → M FloatingIp
find_floatingip ip [] = raise (http 404 (String.◌++◌ "Floating IP not found: " ip))
find_floatingip ip (f ∷ fs) = elim f.floating_ip_address [
  | none ↦ find_floatingip ip fs
  | some a ↦ if a == ip then pure f else find_floatingip ip fs
]

module _ (cloud : Cloud) (neutron : Neutron) where
  -- the loop that counts
  unfoldable pub count_rules : Profile → List String → M ℕ
  count_rules profile [] = pure 0
  count_rules profile (fip ∷ fips) = do
    pfs ← ask (λ w. neutron.get_port_forwarding_rules w profile fip)
    rest ← count_rules profile fips
    pure (length pfs + rest)

  unfoldable pub port_forwardings_used : Profile → M ℕ
  unfolding count_rules
  port_forwardings_used profile = do
    all_fips ← ask (λ w. neutron.project_floatingips w profile)
    count_rules profile all_fips

  unfoldable pub choose_floatingip : Profile → Option String → M FloatingIp
  choose_floatingip profile none =
      raise (http 400 "floating_ip is required. Please specify a floating IP address or UUID.")
  choose_floatingip profile (some ip) =
      if ip == ""
      then raise (http 400 "floating_ip is required. Please specify a floating IP address or UUID.")
      else if is_uuid ip
      then ask (λ w. neutron.show_floatingip w profile ip)
      else (ask (λ w. neutron.list_floatingips w profile) >>= find_floatingip ip)

  -- the loop of `find_random_available_port`, with the attempts that are left
  unfoldable pub draw_port : ℕ → List ℕ → M ℕ
  draw_port zero used_ports = raise (other "Exception")
  draw_port (suc n) used_ports = ask (λ w. neutron.randint w n 10 1000) >>= λ port.
      if is_used port used_ports then draw_port n used_ports else pure port

  unfoldable pub find_random_available_port : String → M ℕ
  find_random_available_port floatingip_id = do
    existing_pfs ← ask (λ w. neutron.list_port_forwardings w floatingip_id)
    draw_port 100 existing_pfs

  unfoldable pub first_port : List String → M String
  first_port [] = raise (other "Exception")
  first_port (port ∷ ports) = pure port

  unfoldable pub find_port_by_internal_ip : String → M String
  find_port_by_internal_ip internal_ip =
      try_except (ask (λ w. neutron.list_ports w internal_ip) >>= first_port)
        (λ _. raise (other "Exception"))

  unfoldable pub external_port_of : String → Option ℕ → M ℕ
  external_port_of floatingip_id (some port) = pure port
  external_port_of floatingip_id none = find_random_available_port floatingip_id

  -- what `create_port_forwarding_rule` sends
  unfoldable pub new_rule : String → PortForwardingAdd → M Call
  new_rule floatingip_id pf_request = do
    external_port ← external_port_of floatingip_id pf_request.external_port
    internal_port_id ← find_port_by_internal_ip pf_request.internal_ip
    pure (
        World.create_port_forwarding floatingip_id pf_request.protocol pf_request.internal_ip
          internal_port_id pf_request.internal_port external_port)

  -- what follows the choice of a floating address, up to the request for the new rule
  abbrev pub allot : PortForwardingAdd → FloatingIp → M (FloatingIp × Call)
  allot pf_request fip = do
    ask cloud.get_system_session
    rule ← new_rule fip.id pf_request
    pure (fip, rule)

  -- the test of the limit, by its outcome
  abbrev pub unless_full : Profile → PortForwardingAdd → Bool → M (FloatingIp × Call)
  unless_full profile pf_request full =
      if full
      then raise (http 400 "Maximum number of port forwardings for the project has been reached.")
      else (choose_floatingip profile pf_request.floating_ip >>= allot pf_request)

  -- what follows the count
  abbrev pub limited : Profile → PortForwardingAdd → ℕ → M (FloatingIp × Call)
  limited profile pf_request used =
      unless_full profile pf_request (leb neutron.port_forwarding_limit used)

  -- what comes before the request for the new rule
  unfoldable pub prepare : Profile → PortForwardingAdd → M (FloatingIp × Call)
  prepare profile pf_request = port_forwardings_used profile >>= limited profile pf_request

  unfoldable pub send_rule : FloatingIp × Call → M (Option String × Created)
  send_rule (fip, rule) = do
    pf ← exchange (λ w. neutron.created w rule) rule
    pure (fip.floating_ip_address, pf)

  -- the address of the answer's rule, and the rule
  unfoldable pub add_port_forwarding : PortForwardingAdd → Profile → M (Option String × Created)
  add_port_forwarding pf_request profile =
      ask (λ w. cloud.generate_session w profile)
      >> try_except (prepare profile pf_request >>= send_rule)
          (λ _. raise (http 500 "Failed to create port forwarding"))

  unfoldable pub delete_port_forwarding : PortForwardingDelete → Profile → M (Unit {0})
  delete_port_forwarding pf_delete profile = do
    ask (λ w. cloud.generate_session w profile)
    try_except (Cloud.delete_port_forwarding_rule cloud pf_delete.floating_ip_id pf_delete.pf_id)
        (λ _. raise (http 500 "Failed to delete port forwarding"))
