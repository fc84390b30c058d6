-- ===== src/Forwarding/Tests.antt =====
-- The port forwardings of Neutron at concrete data: a floating address of the project with one rule.
use skyline_apiserver_extens.Common.{
  ℕ, ◌≤◌, ◌≡◌, refl, subst, Bool, Bool-cases, none, some, [], ◌∷◌, ◌⊎◌, inl, inr, leb, arith,
  if◌then◌else◌,
}
use skyline_apiserver_extens.Runtime.{Exn, Result, other, ok, err, ok-injective}
use skyline_apiserver_extens.World.{World, steps}
use skyline_apiserver_extens.World
use skyline_apiserver_extens.Forwarding.{
  PortForwardingAdd, Neutron, dashes, is_uuid, find_floatingip, count_rules, port_forwardings_used,
  choose_floatingip, draw_port, find_random_available_port, first_port, find_port_by_internal_ip,
  external_port_of, new_rule, prepare, send_rule, add_port_forwarding,
}
use skyline_apiserver_extens.Forwarding.Limit.{Allowed, add_port_forwarding_lem}
use skyline_apiserver_extens.Samples.{cloud, world, member}

abbrev draw : ℕ → ℕ → Result ℕ
draw a b = if leb a b then ok b else err (other "ValueError")

abbrev neutron : Neutron
neutron = record {
  port_forwarding_limit = 2;
  project_floatingips = λ _ _. ok ("f1" ∷ []);
  get_port_forwarding_rules = λ _ _ _. ok (80 ∷ []);
  show_floatingip = λ _ _ _. err (other "NotFound");
  list_floatingips = λ _ _. ok (record { id = "f1"; floating_ip_address = some "192.0.2.7" } ∷ []);
  list_port_forwardings = λ _ _. ok (80 ∷ []);
  list_ports = λ _ _. ok ("p1" ∷ []);
  created = λ _ _. ok (record {
    id = some "pf2";
    internal_ip_address = some "10.0.0.4";
    internal_port = some 22;
    external_port = some 1000;
    protocol = some "tcp";
  });
  randint = λ _ _. draw;
}

abbrev pf_request : PortForwardingAdd
pf_request = record {
  internal_ip = "10.0.0.4";
  internal_port = 22;
  external_port = none;
  protocol = "tcp";
  floating_ip = some "192.0.2.7";
}

draw_within : (a b r : ℕ) → draw a b ≡ ok r → (a ≤ r) × (r ≤ b)
draw_within a b r h =
    let outcome : Bool → Type 0 = λ c. (if c then ok b else err (other "ValueError")) ≡ ok r in
    elim (Bool-cases (leb a b)) [
      | inl le ↦ let e : b ≡ r = ok-injective (subst outcome le h) in ground arith
      | inr gt ↦ let e = subst outcome gt h in cc
    ]

sends :
    (add_port_forwarding cloud neutron pf_request member world).1.calls
    ≡ World.create_port_forwarding "f1" "tcp" "10.0.0.4" "p1" 22 1000 ∷ []
unfolding dashes is_uuid find_floatingip count_rules port_forwardings_used choose_floatingip
    draw_port find_random_available_port first_port find_port_by_internal_ip external_port_of
    new_rule prepare send_rule add_port_forwarding steps
sends = refl

add_port_forwarding_lem_example :
    ((e : Exn) × (add_port_forwarding cloud neutron pf_request member world ≡ (err e, world)))
    ⊎ ((rule : World.Call) × Allowed cloud neutron member pf_request world rule
        × ((add_port_forwarding cloud neutron pf_request member world).1
            ≡ record world { calls = rule ∷ world.calls }))
add_port_forwarding_lem_example =
    add_port_forwarding_lem cloud neutron (λ _ _. draw_within) pf_request member world
