-- ===== src/Scheduler/Rows.antt =====
-- A loop over a snapshot of the table that updates rows by their instance: what each row becomes.
use mathlib.Core.Option
use skyline_apiserver_extens.Common.{
  String, ◌≡◌, refl, ap, subst, ◌∙◌, sym, Bool, true, Option, none, some, ◌⊎◌, inl, inr, List, [],
  ◌∷◌, ◌==◌, text-cases, eq_refl, All, arith, if◌then◌else◌, filter,
}
use skyline_apiserver_extens.Common.Table.{All-Found, Found}
use skyline_apiserver_extens.Db.{Db, InstanceLifecycle, get_instance_lifecycle}
use skyline_apiserver_extens.Db.Lifecycles.{IsTracked}
use skyline_apiserver_extens.World.{World, M, for_each}
use skyline_apiserver_extens.World.Loops.{for_each_inv}

-- Both lookups find nothing, or rows that are related.
abbrev pub Related :
    (InstanceLifecycle → InstanceLifecycle → Type 0)
    → Option InstanceLifecycle
    → Option InstanceLifecycle
    → Type 0
Related R none none = Unit
Related R (some r) (some r') = R r r'
Related R none (some r') = ⊥
Related R (some r) none = ⊥

module _ {A : Type 0} (p : A → Bool) where
  All-filter_test :
      (P : A → Type 0) (t : List A) → All P t → All (λ x. P x × (p x ≡ true)) (filter p t)
  All-filter_test P [] h = tt
  All-filter_test P (x ∷ t) (q, h) = ground (arith, All-filter_test P t h)

-- The rows of a snapshot are found by their instances, and pass its test.
pub snapshot :
    (p : InstanceLifecycle → Bool) (db : Db)
    → IsTracked db
    → All
        (λ r. (get_instance_lifecycle r.instance_id db ≡ some r) × (p r ≡ true))
        (filter p db.instance_lifecycle)
unfolding get_instance_lifecycle
snapshot p db u =
    All-filter_test p (Found (λ r. r.instance_id) db.instance_lifecycle) db.instance_lifecycle
      (All-Found (λ r. r.instance_id) db.instance_lifecycle u)

module _ (C : InstanceLifecycle → Type 0) (f : InstanceLifecycle → InstanceLifecycle)
    (idem : (r : InstanceLifecycle) → f (f r) ≡ f r) (upd : String → Db → Db)
    (law : (j k : String) (d : Db)
      → get_instance_lifecycle j (upd k d) ≡ (
          if j == k
          then Option.map f (get_instance_lifecycle j d)
          else get_instance_lifecycle j d)) where
  -- The row is as before, or the condition held of it and it was changed by `f`.
  abbrev pub Changed : InstanceLifecycle → InstanceLifecycle → Type 0
  Changed r r' = (r' ≡ r) ⊎ (C r × (r' ≡ f r))

  abbrev Tracks : Db → Db → Type 0
  Tracks d₀ d =
      (j : String) → Related Changed (get_instance_lifecycle j d₀) (get_instance_lifecycle j d)

  Changed-map :
      (row : InstanceLifecycle) (o o' : Option InstanceLifecycle)
      → o ≡ some row
      → C row
      → Related Changed o o'
      → Related Changed o (Option.map f o')
  Changed-map row none o' e c h = cc
  Changed-map row (some r) none e c h = h
  Changed-map row (some r) (some r') e c (inl same) =
      inr (subst C (sym (Option.some-injective r row e)) c, ap f same)
  Changed-map row (some r) (some r') e c (inr (c', changed)) = inr (c', ap f changed ∙ idem r)

  Related-refl : (o : Option InstanceLifecycle) → Related Changed o o
  Related-refl none = tt
  Related-refl (some r) = inl refl

  Tracks-upd :
      (d₀ d : Db) (row : InstanceLifecycle)
      → get_instance_lifecycle row.instance_id d₀ ≡ some row
      → C row
      → Tracks d₀ d
      → Tracks d₀ (upd row.instance_id d)
  Tracks-upd d₀ d row e c h j = elim (text-cases j row.instance_id) [
    | inl same ↦
        rw (law j row.instance_id d, same, eq_refl)
          (Changed-map row (get_instance_lifecycle row.instance_id d₀)
            (get_instance_lifecycle row.instance_id d) e c (h row.instance_id))
    | inr differs ↦ rw (law j row.instance_id d, differs) (h j)
  ]

  -- What one round of the loop may do: nothing, or the update of its row, whose test then held.
  abbrev pub Steps : (InstanceLifecycle → M (Unit {0})) → InstanceLifecycle → Type 0
  Steps body row =
      (w : World)
      → ((body row w).1.db ≡ w.db) ⊎ (C row × ((body row w).1.db ≡ upd row.instance_id w.db))

  keep_Tracks :
      (body : InstanceLifecycle → M (Unit {0})) (d₀ : Db) (row : InstanceLifecycle)
      → get_instance_lifecycle row.instance_id d₀ ≡ some row
      → Steps body row
      → (w : World) → Tracks d₀ w.db
      → Tracks d₀ (body row w).1.db
  keep_Tracks body d₀ row e s w h = elim (s w) [
    | inl same ↦ subst (Tracks d₀) (sym same) h
    | inr (c, changed) ↦ subst (Tracks d₀) (sym changed) (Tracks-upd d₀ w.db row e c h)
  ]

  keep-All :
      (body : InstanceLifecycle → M (Unit {0})) (Q : InstanceLifecycle → Type 0) (d₀ : Db)
      → ((row : InstanceLifecycle) → Q row → Steps body row)
      → (rows : List InstanceLifecycle)
      → All (λ r. (get_instance_lifecycle r.instance_id d₀ ≡ some r) × Q r) rows
      → All (λ r. (w : World) → Tracks d₀ w.db → Tracks d₀ (body r w).1.db) rows
  keep-All body Q d₀ s [] h = tt
  keep-All body Q d₀ s (r ∷ rows) ((e, q), h) =
      (keep_Tracks body d₀ r e (s r q), keep-All body Q d₀ s rows h)

  -- After the loop every row is as it was before it, or changed once.
  pub loop_rows :
      (body : InstanceLifecycle → M (Unit {0})) (p : InstanceLifecycle → Bool)
      → ((row : InstanceLifecycle) → p row ≡ true → Steps body row)
      → (w : World) → IsTracked w.db
      → (j : String)
      → Related Changed
          (get_instance_lifecycle j w.db)
          (get_instance_lifecycle j (for_each (filter p w.db.instance_lifecycle) body w).1.db)
  loop_rows body p s w u =
      for_each_inv (λ w'. Tracks w.db w'.db) body (filter p w.db.instance_lifecycle)
        (keep-All body (λ r. p r ≡ true) w.db s (filter p w.db.instance_lifecycle)
          (snapshot p w.db u))
        w (λ j. Related-refl (get_instance_lifecycle j w.db))

  -- The loop keeps one row to an instance, where each update does.
  pub loop-IsTracked :
      (body : InstanceLifecycle → M (Unit {0})) (p : InstanceLifecycle → Bool)
      → ((row : InstanceLifecycle) → p row ≡ true → Steps body row)
      → ((k : String) (d : Db) → IsTracked d → IsTracked (upd k d))
      → (w : World) → IsTracked w.db
      → IsTracked (for_each (filter p w.db.instance_lifecycle) body w).1.db
  loop-IsTracked body p s kept w u =
      for_each_inv (λ w'. IsTracked w'.db) body (filter p w.db.instance_lifecycle)
        (each (filter p w.db.instance_lifecycle) (snapshot p w.db u)) w u
    where
      each :
          (rows : List InstanceLifecycle)
          → All (λ r. (get_instance_lifecycle r.instance_id w.db ≡ some r) × (p r ≡ true)) rows
          → All (λ r. (w' : World) → IsTracked w'.db → IsTracked (body r w').1.db) rows
      each [] h = tt
      each (r ∷ rows) ((e, q), h) = (
        λ w' v. elim (s r q w') [
          | inl same ↦ subst IsTracked (sym same) v
          | inr (c, changed) ↦ subst IsTracked (sym changed) (kept r.instance_id w'.db v)
        ],
        each rows h,
      )
