-- ===== src/Cloud.antt =====
-- The calls of client/openstack/nova.py, cinder.py and neutron.py, and of client/portforward_client.py,
-- that the instance handlers make. `Cloud` holds what the client libraries answer; the retries of
-- tenacity are part of an answer. Ids are texts.
use Prim.Native.String
use skyline_apiserver_extens.Common.{
  ℕ, zero, suc, String, Bool, false, Option, none, some, List, [], ◌∷◌, ◌++◌, ◌==◌, filter, map,
  if◌then◌else◌,
}
use skyline_apiserver_extens.Common.Int.{pos}
use skyline_apiserver_extens.Runtime.{Exn, http, other, Result}
use skyline_apiserver_extens.World.{
  World, Call, M, ◌>>=◌, ◌>>◌, pure, raise, ask, sleep, request, try_except,
}
use skyline_apiserver_extens.World
use skyline_apiserver_extens.Profile.{Profile}

-- A rule of the port forwarding service: its fields "id" and "rule_id".
pub record ExternalRule : Type 0 where
  pub id : Option String
  pub rule_id : Option String

-- A rule of Neutron: its id and its internal address.
pub record PortForwarding : Type 0 where
  pub id : String
  pub internal_ip_address : Option String

pub record Cloud : Type 0 where
  -- whether a session or a request raises
  pub generate_session : World → Profile → Result (Unit {0})
  pub get_system_session : World → Result (Unit {0})
  pub answer : World → Call → Result (Unit {0})
  -- whether a statement that the deletion of an instance makes to the database raises
  pub database : World → Result (Unit {0})
  -- `str(e)`, `str(list)`, `str(uuid.uuid4())`
  pub str_of : Exn → String
  pub str_of_list : List String → String
  pub uuid4 : World → Result String
  -- the names of the servers that match a name in a project
  pub list_servers : World → Profile → String → Result (List String)
  -- the status of a server, its fixed addresses in order, its volumes
  pub server_status : World → String → Result String
  pub fixed_addresses : World → String → Result (List String)
  pub server_volumes : World → String → Result (List String)
  pub volume_status : World → String → Result String
  -- the ids of all floating addresses, the rules of one
  pub list_floatingips : World → Result (List String)
  pub list_port_forwardings : World → String → Result (List PortForwarding)
  -- `get_portforwardings_by_vm`
  pub external_rules : World → String → Result (List ExternalRule)

abbrev is_not_found : Exn → Bool
is_not_found (other name) = name == "NotFound"
is_not_found (http _ _) = false

abbrev is_ip : String → PortForwarding → Bool
is_ip ip pf = elim pf.internal_ip_address [ none ↦ false | some a ↦ a == ip ]

module _ (cloud : Cloud) where
  -- `except Exception as e: raise HTTPException(500, prefix + str(e))`
  unfoldable pub or_500 {ℓ} : {A : Type ℓ} → String → M A → M A
  or_500 prefix m = try_except m (λ e. raise (http 500 (String.◌++◌ prefix (cloud.str_of e))))

  -- nova.py
  unfoldable pub get_server_volumes : String → M (List String)
  get_server_volumes server_id =
      or_500 "Failed to get server volumes: " (ask (λ w. cloud.server_volumes w server_id))

  unfoldable pub delete_server : String → M (Unit {0})
  delete_server server_id =
      or_500 "Failed to delete server: " (request cloud.answer (World.delete_server server_id))

  unfoldable pub start_server : String → M (Unit {0})
  start_server server_id =
      or_500 "Failed to start server: " (request cloud.answer (World.start_server server_id))

  unfoldable pub stop_server : String → M (Unit {0})
  stop_server server_id =
      or_500 "Failed to stop server: " (request cloud.answer (World.stop_server server_id))

  unfoldable pub reboot_server : String → String → M (Unit {0})
  reboot_server server_id reboot_type =
      or_500 "Failed to reboot server: "
        (request cloud.answer (World.reboot_server server_id reboot_type))

  unfoldable pub attach_volume_to_server : String → String → M (Unit {0})
  attach_volume_to_server server_id volume_id =
      or_500 "Failed to attach volume: "
        (request cloud.answer (World.attach_volume server_id volume_id))

  unfoldable pub detach_volume_from_server : String → String → M (Unit {0})
  detach_volume_from_server server_id volume_id =
      or_500 "Failed to detach volume: "
        (request cloud.answer (World.detach_volume server_id volume_id))

  -- the loop of `get_server_internal_ip`, with the attempts that are left
  unfoldable pub internal_ip_loop : ℕ → String → M String
  internal_ip_loop zero server_id = raise (other "Exception")
  internal_ip_loop (suc n) server_id = do
    addresses ← ask (λ w. cloud.fixed_addresses w server_id)
    elim addresses [ [] ↦ sleep (pos 3) >> internal_ip_loop n server_id | ip ∷ _ ↦ pure ip ]

  unfoldable pub get_server_internal_ip : String → M String
  get_server_internal_ip server_id = internal_ip_loop 10 server_id

  -- cinder.py; `except Exception` also takes the 400 that is raised inside
  unfoldable pub volume_error {ℓ} : {A : Type ℓ} → Exn → M A
  volume_error e = raise (http (if is_not_found e then 404 else 500) (cloud.str_of e))

  unfoldable pub get_volume : String → M String
  get_volume volume_id = try_except (ask (λ w. cloud.volume_status w volume_id)) volume_error

  unfoldable pub delete_volume : String → M (Unit {0})
  delete_volume volume_id =
      try_except
        (do
          status ← ask (λ w. cloud.volume_status w volume_id)
          if status == "in-use"
              then raise (
                  http 400 "Cannot delete volume that is attached to an instance. Detach it first.")
              else request cloud.answer (World.delete_volume volume_id))
        volume_error

  -- neutron.py: the loop over the floating addresses; a pair is a floating address and a rule of it
  unfoldable pub rules_loop : String → List String → M (List (String × String))
  rules_loop ip [] = pure []
  rules_loop ip (fip ∷ fips) = do
    found ←
        try_except
          (do
            pfs ← ask (λ w. cloud.list_port_forwardings w fip)
            pure (map (λ pf. (fip, pf.id)) (filter (is_ip ip) pfs)))
          (λ _. pure [])
    rest ← rules_loop ip fips
    pure (found ++ rest)

  unfoldable pub get_port_forwardings_by_internal_ip : String → M (List (String × String))
  get_port_forwardings_by_internal_ip ip = do
    ask cloud.get_system_session
    fips ← ask cloud.list_floatingips
    rules_loop ip fips

  unfoldable pub delete_port_forwarding_rule : String → String → M (Unit {0})
  delete_port_forwarding_rule fip pf = do
    ask cloud.get_system_session
    request cloud.answer (World.delete_port_forwarding fip pf)
