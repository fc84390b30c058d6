-- ===== src/Instance.antt =====
-- api/v1/instance.py: the handlers that create, delete and switch instances, and the background task
-- that deletes volumes. The identifier of a request and the messages are the texts that the code
-- formats. A background task is recorded where it is added.
pub mod Effects
pub mod Requests
pub mod Volumes
mod Tests
use Prim.Native.String
use skyline_apiserver_extens.Common.{
  ℕ, zero, suc, String, Bool, true, false, Option, none, some, List, [], ◌∷◌, ◌==◌, contains,
  if◌then◌else◌,
}
use skyline_apiserver_extens.Common.Int.{pos}
use skyline_apiserver_extens.Runtime.{Exn, http}
use skyline_apiserver_extens.Db.{create_activity_record, delete_instance_lifecycle}
use skyline_apiserver_extens.World.{
  World, M, ◌>>=◌, ◌>>◌, pure, raise, ask, execute, time, sleep, request, add_task, try_except,
  for_each,
}
use skyline_apiserver_extens.World
use skyline_apiserver_extens.Profile.{Profile}
use skyline_apiserver_extens.Cloud.{Cloud, ExternalRule}
use skyline_apiserver_extens.Cloud

-- `ext_pf.get("id") or ext_pf.get("rule_id")`
abbrev pub rule_key : ExternalRule → Option String
rule_key r = elim r.id [ none ↦ r.rule_id | some k ↦ if k == "" then r.rule_id else some k ]

-- `except Exception: log`
abbrev pub ignore : Exn → M (Unit {0})
ignore _ = pure tt

-- `db_api.create_activity_record(…, token="")`
unfoldable pub record_activity : Profile → String → String → String → M (Unit {0})
record_activity profile category message status = do
  now ← time
  execute (create_activity_record profile.user.id profile.project.id category message status "" now)

-- `f"인스턴스 '{instance_id}'" + rest`
abbrev pub message_of : String → String → String
message_of instance_id rest = String.◌++◌ "인스턴스 '" (String.◌++◌ instance_id (String.◌++◌ "'" rest))

module _ (cloud : Cloud) where
  -- one round of the loop over the rules of the port forwarding service
  unfoldable pub delete_external : ExternalRule → M (Unit {0})
  delete_external r =
      try_except
        (elim (rule_key r) [
          | none ↦ pure tt
          | some k ↦
              if k == "" then pure tt else request cloud.answer (World.delete_portforwarding k)
        ])
        ignore

  -- step 0-a of `delete_instance`
  unfoldable pub clean_external : String → M (Unit {0})
  clean_external instance_id =
      try_except
        (do rules ← ask (λ w. cloud.external_rules w instance_id); for_each rules delete_external)
        ignore

  unfoldable pub delete_rule : String × String → M (Unit {0})
  delete_rule (fip, pf) = try_except (Cloud.delete_port_forwarding_rule cloud fip pf) ignore

  unfoldable pub delete_rules : List (String × String) → M (Unit {0})
  delete_rules [] = pure tt
  delete_rules (pf ∷ pfs) = do ask cloud.get_system_session; for_each (pf ∷ pfs) delete_rule

  -- step 0-b
  unfoldable pub clean_neutron : String → M (Unit {0})
  clean_neutron instance_id =
      try_except
        (do
          ip ← Cloud.get_server_internal_ip cloud instance_id
          if ip == ""
              then pure tt
              else (Cloud.get_port_forwardings_by_internal_ip cloud ip >>= delete_rules))
        ignore

  unfoldable pub later : String → List String → M (Unit {0})
  later instance_id [] = pure tt
  later instance_id (v ∷ vs) = add_task (World.delete_volumes_later instance_id (v ∷ vs))

  -- what follows the deletion of the server; each of the two statements may raise
  unfoldable pub after_delete : Profile → String → List String → M (Unit {0})
  after_delete profile instance_id volume_ids = do
    ask cloud.database
    record_activity profile "인스턴스 삭제"
        (message_of instance_id
          (String.◌++◌ " 삭제 (볼륨: " (String.◌++◌ (cloud.str_of_list volume_ids) ")")))
        "success"
    later instance_id volume_ids
    try_except (ask cloud.database >> execute (delete_instance_lifecycle instance_id)) ignore

  -- the steps 1 to 4
  unfoldable pub delete_server : Profile → String → M (Unit {0})
  delete_server profile instance_id = do
    volume_ids ← Cloud.get_server_volumes cloud instance_id
    Cloud.delete_server cloud instance_id
    after_delete profile instance_id volume_ids

  unfoldable pub delete_instance : String → Profile → M (Unit {0})
  delete_instance instance_id profile = do
    ask (λ w. cloud.generate_session w profile)
    try_except
        (clean_external instance_id
          >> clean_neutron instance_id
          >> delete_server profile instance_id)
        (λ _. raise (http 500 "Failed to delete instance"))

  -- the first loop of `_delete_volumes_after_instance`, with the attempts that are left
  unfoldable pub wait_gone : ℕ → String → M (Unit {0})
  wait_gone zero instance_id = pure tt
  wait_gone (suc n) instance_id = do
    gone ← try_except (ask (λ w. cloud.server_status w instance_id) >> pure false) (λ _. pure true)
    if gone then pure tt else (sleep (pos 5) >> wait_gone n instance_id)

  -- the inner loop of the second
  unfoldable pub wait_available : ℕ → String → M (Unit {0})
  wait_available zero volume_id = pure tt
  wait_available (suc n) volume_id = do
    ready ←
        try_except (do status ← Cloud.get_volume cloud volume_id; pure (status == "available"))
          (λ _. pure true)
    if ready then pure tt else (sleep (pos 5) >> wait_available n volume_id)

  unfoldable pub delete_volume : String → M (Unit {0})
  delete_volume volume_id =
      try_except (wait_available 12 volume_id >> Cloud.delete_volume cloud volume_id) ignore

  -- `_delete_volumes_after_instance`
  unfoldable pub delete_volumes_after_instance : String → List String → M (Unit {0})
  delete_volumes_after_instance instance_id volume_ids =
      wait_gone 24 instance_id >> for_each volume_ids delete_volume

  -- `create_instance`; the answer is the identifier of the request
  unfoldable pub create_instance : String → Profile → M String
  create_instance name profile = do
    ask (λ w. cloud.generate_session w profile)
    existing_servers ← ask (λ w. cloud.list_servers w profile name)
    if contains name existing_servers
        then raise (http 409 (String.◌++◌ "이미 동일한 이름의 인스턴스가 존재합니다: '" (String.◌++◌ name "'")))
        else do
          request_id ← ask cloud.uuid4
          record_activity profile "인스턴스 생성"
              (message_of name (String.◌++◌ " 생성 요청 (요청ID: " (String.◌++◌ request_id ")")))
              "pending"
          add_task (World.provision_later name request_id)
          pure request_id

  -- The frame of the handlers below: a session, then the call and the record of it.
  abbrev answering : Profile → String → M (Unit {0}) → M (Unit {0})
  answering profile failure m = do
    ask (λ w. cloud.generate_session w profile)
    try_except m (λ _. raise (http 500 failure))

  unfoldable pub start_instance : String → Profile → M (Unit {0})
  start_instance instance_id profile = answering profile "Failed to start instance" (
      Cloud.start_server cloud instance_id
      >> record_activity profile "인스턴스 시작" (message_of instance_id " 시작") "success")

  unfoldable pub stop_instance : String → Profile → M (Unit {0})
  stop_instance instance_id profile = answering profile "Failed to stop instance" (
      Cloud.stop_server cloud instance_id
      >> record_activity profile "인스턴스 정지" (message_of instance_id " 정지") "success")

  unfoldable pub reboot_instance : String → String → Profile → M (Unit {0})
  reboot_instance instance_id reboot_type profile = answering profile "Failed to reboot instance" (
      Cloud.reboot_server cloud instance_id reboot_type
      >> record_activity profile "인스턴스 재시작"
          (message_of instance_id (String.◌++◌ " 재시작 (타입: " (String.◌++◌ reboot_type ")")))
          "success")

  unfoldable pub attach_volume : String → String → Profile → M (Unit {0})
  attach_volume instance_id volume_id profile =
      answering profile "Failed to attach volume"
        (Cloud.attach_volume_to_server cloud instance_id volume_id)

  unfoldable pub detach_volume : String → String → Profile → M (Unit {0})
  detach_volume instance_id volume_id profile =
      answering profile "Failed to detach volume"
        (Cloud.detach_volume_from_server cloud instance_id volume_id)
