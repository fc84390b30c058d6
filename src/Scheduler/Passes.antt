-- ===== src/Scheduler/Passes.antt =====
-- How both loops of a run pass over the row of an instance that was extended.
use mathlib.Core.Option
use skyline_apiserver_extens.Common.{
  String, ◌≡◌, sym, ◌∙◌, subst, true, Option, none, some, List, [], ◌∷◌, filter, All, arith,
}
use skyline_apiserver_extens.Common.Int.{ℤ}
use skyline_apiserver_extens.Runtime.{ok}
use skyline_apiserver_extens.Db.{
  Db, EmailStatus, InstanceLifecycle, is_expiring, is_awaiting_reply, get_instance_lifecycle,
  list_instance_lifecycles_expiring_before, list_instance_lifecycles_awaiting_reply,
}
use skyline_apiserver_extens.Db.Lifecycles.{IsTracked}
use skyline_apiserver_extens.World.{World, for_each, pure}
use skyline_apiserver_extens.Env.{Env}
use skyline_apiserver_extens.Scheduler.{warn_row}
use skyline_apiserver_extens.Scheduler.Rows.{Related, snapshot}
use skyline_apiserver_extens.Scheduler.Check.{Warned, warn_loop}

pub All-map :
    {A : Type 0} (P Q : A → Type 0) → ((x : A) → P x → Q x) → (xs : List A) → All P xs → All Q xs
All-map P Q f [] h = tt
All-map P Q f (x ∷ xs) (p, h) = (f x p, All-map P Q f xs h)

module _ (env : Env) (subject : String → String)
    (body : String → String → String → String → String) where
  -- The world after the first loop of a run.
  abbrev pub after_warnings : ℤ → Option String → World → World
  after_warnings now admin w =
      (for_each (list_instance_lifecycles_expiring_before now w.db)
        (warn_row env subject body now admin) w).1

  -- In a run that begins with `w`, at any time and with any project of administrators: where the first
  -- loop meets a row of the instance, it does nothing, whatever the world is by then; and the second
  -- loop, which reads its rows after the first, meets none.
  abbrev pub PassedOver : String → World → Type 0
  PassedOver id w =
      (now : ℤ) (admin : Option String)
      → All
          (λ r.
            r.instance_id ≡ id → (v : World) → warn_row env subject body now admin r v ≡ (ok tt, v))
          (list_instance_lifecycles_expiring_before now w.db)
        × ((deadline : ℤ)
            → All (λ r. r.instance_id ≡ id → ⊥)
                (list_instance_lifecycles_awaiting_reply deadline (after_warnings now admin w).db))

  warn_row-extended :
      (now : ℤ) (admin : Option String) (r : InstanceLifecycle) (v : World)
      → r.email_status ≡ EmailStatus.extended
      → warn_row env subject body now admin r v ≡ (ok tt, v)
  unfolding warn_row pure
  warn_row-extended now admin r v h = ground arith

  awaiting-extended :
      (deadline : ℤ) (r : InstanceLifecycle)
      → r.email_status ≡ EmailStatus.extended
      → is_awaiting_reply deadline r ≡ true
      → ⊥
  awaiting-extended deadline r h e = cc (rw h at e)

  -- A row that a snapshot has of the instance is the one that is looked up.
  same_status :
      (id : String) (d : Db) (row r : InstanceLifecycle)
      → get_instance_lifecycle id d ≡ some row
      → row.email_status ≡ EmailStatus.extended
      → get_instance_lifecycle r.instance_id d ≡ some r
      → r.instance_id ≡ id
      → r.email_status ≡ EmailStatus.extended
  same_status id d row r found h own same =
      subst (λ x. x.email_status ≡ EmailStatus.extended)
        (Option.some-injective row r
          (sym found ∙ subst (λ k. get_instance_lifecycle k d ≡ some r) same own))
        h

  kept_by_warnings :
      (now : ℤ) (admin : Option String) (row : InstanceLifecycle) (o : Option InstanceLifecycle)
      → row.email_status ≡ EmailStatus.extended
      → Related (Warned now admin) (some row) o
      → o ≡ some row
  kept_by_warnings now admin row none h k = absurd k
  kept_by_warnings now admin row (some r) h k = ground arith

  pub extended-PassedOver :
      (id : String) (w : World) (row : InstanceLifecycle)
      → IsTracked w.db
      → get_instance_lifecycle id w.db ≡ some row
      → row.email_status ≡ EmailStatus.extended
      → PassedOver id w
  unfolding list_instance_lifecycles_expiring_before list_instance_lifecycles_awaiting_reply
  extended-PassedOver id w row u found h now admin =
      let later = warn_loop env subject body now admin w u in
      let kept =
        kept_by_warnings now admin row (get_instance_lifecycle id (after_warnings now admin w).db) h
          (subst
            (λ o.
              Related (Warned now admin) o
                (get_instance_lifecycle id (after_warnings now admin w).db))
            found (later.0 id)) in
      (
        All-map _ _
            (λ r known same v.
              warn_row-extended now admin r v (same_status id w.db row r found h known.0 same))
            (filter (is_expiring now) w.db.instance_lifecycle) (snapshot (is_expiring now) w.db u),
        λ deadline.
            All-map _ _
              (λ r known same.
                awaiting-extended deadline r
                  (same_status id (after_warnings now admin w).db row r kept h known.0 same)
                  known.1)
              _ (snapshot (is_awaiting_reply deadline) (after_warnings now admin w).db later.1),
      )
