-- ===== src/Portforward/Api.antt =====
-- The handlers of api/v1/portforward.py, once the profile was found: each calls the client without a
-- token of its own, so with the configured key, and converts the client's error.
use skyline_apiserver_extens.Common.{String, Option, none}
use skyline_apiserver_extens.Runtime.{Json}
use skyline_apiserver_extens.World.{M}
use skyline_apiserver_extens.Portforward.{Service, handle}
use skyline_apiserver_extens.Portforward

module _ (service : Service) where
  unfoldable pub health_check : M Json
  health_check = handle service (Portforward.health_check service)

  unfoldable pub get_status : M Json
  get_status = handle service (Portforward.get_status service none)

  unfoldable pub get_floating_ips : M Json
  get_floating_ips = handle service (Portforward.get_floating_ips service none)

  unfoldable pub preview_port_allocation : String → M Json
  preview_port_allocation service_type =
      handle service (Portforward.preview_port_allocation service service_type none)

  unfoldable pub get_portforwardings_by_vm : String → M Json
  get_portforwardings_by_vm vm_id =
      handle service (Portforward.get_portforwardings_by_vm service vm_id none)

  unfoldable pub create_portforwarding : Json → M Json
  create_portforwarding request =
      handle service (Portforward.create_portforwarding service request none)

  unfoldable pub list_portforwardings :
      Option String → Option String → Option String → Option String → M Json
  list_portforwardings status_filter floating_ip service_type vm_id =
      handle service
        (Portforward.list_portforwardings service status_filter floating_ip service_type vm_id none)

  unfoldable pub get_portforwarding : String → M Json
  get_portforwarding rule_id = handle service (Portforward.get_portforwarding service rule_id none)

  unfoldable pub update_portforwarding : String → Json → M Json
  update_portforwarding rule_id request =
      handle service (Portforward.update_portforwarding service rule_id request none)

  unfoldable pub delete_portforwarding : String → M Json
  delete_portforwarding rule_id =
      handle service (Portforward.delete_portforwarding service rule_id none)
