-- ===== src/Forwarding/Limit.antt =====
-- When a port forwarding is made, and on which port.
use skyline_apiserver_extens.Common.{
  ℕ, zero, suc, ◌≤◌, String, ◌≡◌, refl, sym, ap, ◌∙◌, subst, Bool, false, Bool-cases, Option, none,
  some, List, [], ◌∷◌, ◌==◌, ◌⊎◌, inl, inr, leb, arith, if◌then◌else◌,
}
use skyline_apiserver_extens.Runtime.{Exn, http, Result, ok, err, ok-injective}
use skyline_apiserver_extens.World.{
  World, M, steps, next, handle, ◌>>=◌, pure, raise, ask, try_except,
}
use skyline_apiserver_extens.World
use skyline_apiserver_extens.World.Reads.{
  Reads, Reads-option, Reads-ask, Reads-pure, Reads-raise, Reads-if, Reads-bind, Reads-then,
  Reads-try, bind-Outcome, bind-ok,
}
use skyline_apiserver_extens.Profile.{Profile}
use skyline_apiserver_extens.Cloud.{Cloud}
use skyline_apiserver_extens.Forwarding.{
  PortForwardingAdd, FloatingIp, Created, Neutron, is_used, is_uuid, find_floatingip, count_rules,
  port_forwardings_used, choose_floatingip, draw_port, find_random_available_port, first_port,
  find_port_by_internal_ip, external_port_of, new_rule, allot, unless_full, limited, prepare,
  send_rule, add_port_forwarding,
}

module _ (cloud : Cloud) (neutron : Neutron) where
  count_rules-Reads :
      (profile : Profile) (fips : List String) → Reads (count_rules cloud neutron profile fips)
  unfolding count_rules
  count_rules-Reads profile [] = Reads-pure _
  count_rules-Reads profile (fip ∷ fips) =
      Reads-bind (Reads-ask _)
        (λ pfs. Reads-bind (count_rules-Reads profile fips) (λ rest. Reads-pure _))

  port_forwardings_used-Reads :
      (profile : Profile) → Reads (port_forwardings_used cloud neutron profile)
  unfolding port_forwardings_used
  port_forwardings_used-Reads profile = Reads-bind (Reads-ask _) (count_rules-Reads profile)

  find_floatingip-Reads : (ip : String) (fs : List FloatingIp) → Reads (find_floatingip ip fs)
  unfolding find_floatingip
  find_floatingip-Reads ip [] = Reads-raise _
  find_floatingip-Reads ip (f ∷ fs) =
      Reads-option f.floating_ip_address (find_floatingip-Reads ip fs)
        (λ a. Reads-if (a == ip) (Reads-pure f) (find_floatingip-Reads ip fs))

  choose_floatingip-Reads :
      (profile : Profile) (o : Option String) → Reads (choose_floatingip cloud neutron profile o)
  unfolding choose_floatingip
  choose_floatingip-Reads profile none = Reads-raise _
  choose_floatingip-Reads profile (some ip) =
      Reads-if (ip == "") (Reads-raise _)
        (Reads-if (is_uuid ip) (Reads-ask _) (Reads-bind (Reads-ask _) (find_floatingip-Reads ip)))

  draw_port-Reads : (n : ℕ) (used : List ℕ) → Reads (draw_port cloud neutron n used)
  unfolding draw_port
  draw_port-Reads zero used = Reads-raise _
  draw_port-Reads (suc n) used =
      Reads-bind (Reads-ask _)
        (λ port. Reads-if (is_used port used) (draw_port-Reads n used) (Reads-pure port))

  external_port_of-Reads :
      (fip : String) (o : Option ℕ) → Reads (external_port_of cloud neutron fip o)
  unfolding external_port_of find_random_available_port
  external_port_of-Reads fip (some port) = Reads-pure port
  external_port_of-Reads fip none = Reads-bind (Reads-ask _) (draw_port-Reads 100)

  first_port-Reads : (ports : List String) → Reads (first_port cloud neutron ports)
  unfolding first_port
  first_port-Reads [] = Reads-raise _
  first_port-Reads (port ∷ ports) = Reads-pure port

  find_port-Reads : (ip : String) → Reads (find_port_by_internal_ip cloud neutron ip)
  unfolding find_port_by_internal_ip
  find_port-Reads ip = Reads-try (Reads-bind (Reads-ask _) first_port-Reads) (λ e. Reads-raise _)

  new_rule-Reads :
      (fip : String) (pf_request : PortForwardingAdd)
      → Reads (new_rule cloud neutron fip pf_request)
  unfolding new_rule
  new_rule-Reads fip pf_request =
      Reads-bind (external_port_of-Reads fip _)
        (λ port. Reads-bind (find_port-Reads _) (λ port_id. Reads-pure _))

  prepare-Reads :
      (profile : Profile) (pf_request : PortForwardingAdd)
      → Reads (prepare cloud neutron profile pf_request)
  unfolding prepare
  prepare-Reads profile pf_request = Reads-bind (port_forwardings_used-Reads profile) (λ used.
      Reads-if (leb neutron.port_forwarding_limit used) (Reads-raise _) (
        Reads-bind (choose_floatingip-Reads profile _) (λ fip.
          Reads-then (Reads-ask _)
            (Reads-bind (new_rule-Reads fip.id pf_request) (λ rule. Reads-pure _)))))

  below : (m n : ℕ) → leb m n ≡ false → suc n ≤ m
  below m n h = ground arith

  -- The external port of a new rule: the one that was asked for, or one from 10 to 1000 that no rule
  -- of the floating address has.
  abbrev pub PortOf : String → Option ℕ → World → ℕ → Type 0
  PortOf fip (some port) w external_port = external_port ≡ port
  PortOf fip none w external_port =
      (used : List ℕ) × (neutron.list_port_forwardings w fip ≡ ok used)
      × (is_used external_port used ≡ false)
      × (10 ≤ external_port)
      × (external_port ≤ 1000)

  -- A rule that `new_rule` makes.
  abbrev pub Ruled : String → PortForwardingAdd → World → World.Call → Type 0
  Ruled fip pf_request w rule =
      (port_id : String) × (external_port : ℕ) × PortOf fip pf_request.external_port w external_port
      × (rule
          ≡ World.create_port_forwarding fip pf_request.protocol pf_request.internal_ip port_id
              pf_request.internal_port external_port)

  -- What `prepare` gives: the count of the project's rules, below the limit, and a rule.
  abbrev pub Allowed : Profile → PortForwardingAdd → World → World.Call → Type 0
  Allowed profile pf_request w rule =
      (used : ℕ) × (fip : String) × ((port_forwardings_used cloud neutron profile w).0 ≡ ok used)
      × (suc used ≤ neutron.port_forwarding_limit)
      × Ruled fip pf_request w rule

  module _
      (randint_within : (w : World) (n a b r : ℕ)
        → neutron.randint w n a b ≡ ok r
        → (a ≤ r) × (r ≤ b)) where
    -- what follows a draw
    abbrev drawn : ℕ → List ℕ → ℕ → M ℕ
    drawn n used port = if is_used port used then draw_port cloud neutron n used else pure port

    draw_port-free :
        (n : ℕ) (used : List ℕ) (w : World) (port : ℕ)
        → (draw_port cloud neutron n used w).0 ≡ ok port
        → (is_used port used ≡ false) × (10 ≤ port) × (port ≤ 1000)
    unfolding draw_port steps
    draw_port-free zero used w port h = cc
    draw_port-free (suc n) used w port h =
        let a = bind-ok (Reads-ask (λ v. neutron.randint v n 10 1000)) (drawn n used) w port h in
        let outcome : Bool → Type 0 =
          λ b. ((if b then draw_port cloud neutron n used else pure a.0) w).0 ≡ ok port in
        elim (Bool-cases (is_used a.0 used)) [
          | inl taken ↦ draw_port-free n used w port (subst outcome taken a.2)
          | inr free ↦
              let e : a.0 ≡ port = ok-injective (subst outcome free a.2) in
              let g = randint_within w n 10 1000 a.0 a.1 in
              (
                subst (λ q. is_used q used ≡ false) e free,
                subst (λ q. 10 ≤ q) e g.0,
                subst (λ q. q ≤ 1000) e g.1,
              )
        ]

    external_port_of-PortOf :
        (fip : String) (o : Option ℕ) (w : World) (port : ℕ)
        → (external_port_of cloud neutron fip o w).0 ≡ ok port
        → PortOf fip o w port
    unfolding external_port_of find_random_available_port steps
    external_port_of-PortOf fip (some p) w port h = sym (ok-injective h)
    external_port_of-PortOf fip none w port h =
        let a =
          bind-ok (Reads-ask (λ v. neutron.list_port_forwardings v fip))
            (draw_port cloud neutron 100) w port h in
        let free = draw_port-free 100 a.0 w port a.2 in (a.0, a.1, free.0, free.1, free.2)

    new_rule-Ruled :
        (fip : String) (pf_request : PortForwardingAdd) (w : World) (rule : World.Call)
        → (new_rule cloud neutron fip pf_request w).0 ≡ ok rule
        → Ruled fip pf_request w rule
    unfolding new_rule steps
    new_rule-Ruled fip pf_request w rule h =
        let a = bind-ok (external_port_of-Reads fip pf_request.external_port) _ w rule h in
        let b = bind-ok (find_port-Reads pf_request.internal_ip) _ w rule a.2 in
        (b.0, a.0, external_port_of-PortOf fip _ w a.0 a.1, sym (ok-injective b.2))

    allot-Ruled :
        (fip : FloatingIp) (pf_request : PortForwardingAdd) (w : World)
        (p : FloatingIp × World.Call)
        → (allot cloud neutron pf_request fip w).0 ≡ ok p
        → Ruled fip.id pf_request w p.1
    unfolding steps
    allot-Ruled fip pf_request w p h =
        let c =
          bind-ok (Reads-ask cloud.get_system_session)
            (λ _. new_rule cloud neutron fip.id pf_request >>= λ rule. pure (fip, rule)) w p h in
        let d = bind-ok (new_rule-Reads fip.id pf_request) (λ rule. pure (fip, rule)) w p c.2 in
        let e : (fip, d.0) ≡ p = ok-injective d.2 in
        subst (Ruled fip.id pf_request w) (ap (λ q. q.1) e)
          (new_rule-Ruled fip.id pf_request w d.0 d.1)

    prepare-Allowed :
        (profile : Profile) (pf_request : PortForwardingAdd) (w : World)
        (p : FloatingIp × World.Call)
        → (prepare cloud neutron profile pf_request w).0 ≡ ok p
        → Allowed profile pf_request w p.1
    unfolding prepare steps
    prepare-Allowed profile pf_request w p h =
        let a =
          bind-ok (port_forwardings_used-Reads profile) (limited cloud neutron profile pf_request) w
            p h in
        let outcome : Bool → Type 0 =
          λ full. (unless_full cloud neutron profile pf_request full w).0 ≡ ok p in
        elim (Bool-cases (leb neutron.port_forwarding_limit a.0)) [
          | inl full ↦ let refused = subst outcome full a.2 in cc
          | inr room ↦
              let b =
                bind-ok (choose_floatingip-Reads profile pf_request.floating_ip)
                  (allot cloud neutron pf_request) w p (subst outcome room a.2) in
              let rule = allot-Ruled b.0 pf_request w p b.2 in
              (a.0, b.0.id, a.1, below _ _ room, rule)
        ]

    sent-world :
        (r : Result Created) (address : Option String) (x : Exn) (v : World)
        → (handle {A = Option String × Created}
            (next (r, v) (λ pf. pure (address, pf)))
            (λ _. raise x)).1
          ≡ v
    unfolding steps
    sent-world (ok pf) address x v = refl
    sent-world (err e) address x v = refl

    -- the request for a new rule, whatever its answer
    send_rule-calls :
        (p : FloatingIp × World.Call) (x : Exn) (w : World)
        → (handle (send_rule cloud neutron p w) (λ _. raise x)).1
          ≡ record w { calls = p.1 ∷ w.calls }
    unfolding send_rule steps
    send_rule-calls (fip, rule) x w = sent-world (neutron.created w rule) _ x _

    -- Where the numbers drawn lie between the bounds that were asked for, adding a port forwarding
    -- fails and sends nothing, or it sends one request, for a rule with the address and port that were
    -- asked for, and only where the floating addresses of the project have fewer rules than the limit.
    -- The external port is the one that was asked for. Without one it is from 10 to 1000, and no rule
    -- of the floating address has it.
    pub add_port_forwarding_lem :
        (pf_request : PortForwardingAdd) (profile : Profile) (w : World)
        → ((e : Exn) × (add_port_forwarding cloud neutron pf_request profile w ≡ (err e, w)))
          ⊎ ((rule : World.Call) × Allowed profile pf_request w rule
              × ((add_port_forwarding cloud neutron pf_request profile w).1
                  ≡ record w { calls = rule ∷ w.calls }))
    unfolding add_port_forwarding steps
    add_port_forwarding_lem pf_request profile w =
        let failed : Exn = http 500 "Failed to create port forwarding" in
        let whole : M (Option String × Created) =
          try_except (prepare cloud neutron profile pf_request >>= send_rule cloud neutron)
            (λ _. raise failed) in
        elim (bind-Outcome (Reads-ask (λ v. cloud.generate_session v profile)) (λ _. whole) w) [
          | inl (e, _, q) ↦ inl (e, q)
          | inr (_, _, q) ↦
              (elim (bind-Outcome (prepare-Reads profile pf_request) (send_rule cloud neutron) w) [
                | inl (e, _, q') ↦ inl (failed, q ∙ ap (λ r. handle r (λ _. raise failed)) q')
                | inr (p, made, q') ↦ inr (
                  p.1,
                  prepare-Allowed profile pf_request w p made,
                  ap (λ r. r.1) (q ∙ ap (λ r. handle r (λ _. raise failed)) q')
                      ∙ send_rule-calls p failed w,
                )
              ])
        ]
