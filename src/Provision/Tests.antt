-- ===== src/Provision/Tests.antt =====
-- The theorems on provisioning at a concrete instance.
use skyline_apiserver_extens.Common.{◌≡◌, refl, [], ◌∷◌}
use skyline_apiserver_extens.Common.Int.{pos, ◌+ℤ◌, ◌≤ℤ◌}
use skyline_apiserver_extens.Runtime.{ok}
use skyline_apiserver_extens.Provision.{
  PortForwardingRule, setup_instance_networking, register_lifecycle,
}
use skyline_apiserver_extens.Provision.Networking.{setup_instance_networking_lem}
use skyline_apiserver_extens.Provision.Registration.{Registered, register_lifecycle_lem}
use skyline_apiserver_extens.Samples.{cloud, env, world, member}

abbrev web : PortForwardingRule
web = record { internal_port = 80; external_port = 8080; protocol = "tcp" }

setup_instance_networking_lem_example :
    ((setup_instance_networking cloud (λ _. "80") "i9" "web" member (web ∷ []) world).0 ≡ ok tt)
    × ((setup_instance_networking cloud (λ _. "80") "i9" "web" member (web ∷ []) world).1.db
        ≡ world.db)
    × ((setup_instance_networking cloud (λ _. "80") "i9" "web" member (web ∷ []) world).1.clock
        ≤ℤ world.clock +ℤ pos 1016)
setup_instance_networking_lem_example =
    setup_instance_networking_lem cloud (λ _. "80") "i9" "web" member (web ∷ []) world refl

register_lifecycle_lem_example :
    Registered env "i9" "web" member world (register_lifecycle env "i9" "web" member world)
register_lifecycle_lem_example = register_lifecycle_lem env "i9" "web" member world
