-- ===== src/Common/Table.antt =====
-- A table of a relational database: its rows in the order of insertion. The statements of
-- db/api.py are read by the meaning that SQL gives them.
use Prim.Native.String.{String}
use mathlib.Core.Path.{◌≡◌, refl, ap}
use mathlib.Core.Logic.{◌≢◌}
use mathlib.Core.Bool.{Bool, not}
use mathlib.Core.Option
use mathlib.Core.Option.{Option, none, some}
use mathlib.Core.List.{List, [], ◌∷◌, ◌++◌}
use native.Mathlib.Omega.{arith}
use text.Mathlib.Text.{◌==◌}
use text.Mathlib.TextEquality.{eq_iff}
use text.Mathlib.TextPositions.{eq_refl}
use skyline_apiserver_extens.Common.Cond.{if◌then◌else◌}
use skyline_apiserver_extens.Common.Lists.{filter, All}

module _ {ℓ} {A : Type ℓ} where
  -- `SELECT … WHERE p`, all rows
  abbrev pub fetch_all : (A → Bool) → List A → List A
  fetch_all p t = filter p t

  -- `SELECT … WHERE p`, the first row
  abbrev pub fetch_one : (A → Bool) → List A → Option A
  fetch_one p [] = none
  fetch_one p (x ∷ xs) = if p x then some x else fetch_one p xs

  -- `UPDATE … WHERE p`
  abbrev pub update_where : (A → Bool) → (A → A) → List A → List A
  update_where p f [] = []
  update_where p f (x ∷ xs) = (if p x then f x else x) ∷ update_where p f xs

  -- `DELETE … WHERE p`
  abbrev pub delete_where : (A → Bool) → List A → List A
  delete_where p t = filter (λ x. not (p x)) t

-- Rows looked up by a text column that is a key.
module _ {A : Type 0} (key : A → String) where
  abbrev pub find_row : String → List A → Option A
  find_row k t = fetch_one (λ x. key x == k) t

  -- The unique index on the column.
  abbrev pub Unique : List A → Type 0
  Unique [] = Unit
  Unique (x ∷ xs) = (find_row (key x) xs ≡ none) × Unique xs

  -- What one keyed update leaves to be found.
  pub find_row-update_where :
      (k j : String) (f : A → A) (t : List A)
      → ((x : A) → key (f x) ≡ key x)
      → find_row j (update_where (λ x. key x == k) f t)
        ≡ (if j == k then Option.map f (find_row j t) else find_row j t)
  find_row-update_where k j f [] kept = ground arith
  find_row-update_where k j f (x ∷ xs) kept = ground (
    arith,
    kept x,
    eq_iff (key x) k,
    eq_iff (key x) j,
    eq_iff j k,
    find_row-update_where k j f xs kept,
  )

  -- A keyed delete removes every row with that key, and no other.
  pub find_row-delete_where :
      (k j : String) (t : List A)
      → find_row j (delete_where (λ x. key x == k) t) ≡ (if j == k then none else find_row j t)
  find_row-delete_where k j [] = ground arith
  find_row-delete_where k j (x ∷ xs) =
      ground (arith, eq_iff (key x) k, eq_iff (key x) j, eq_iff j k, find_row-delete_where k j xs)

  -- A row that is appended is found where no row had its key.
  pub find_row-append :
      (j : String) (x : A) (t : List A)
      → find_row j (t ++ x ∷ [])
        ≡ elim (find_row j t) [ none ↦ (if key x == j then some x else none) | some y ↦ some y ]
  find_row-append j x [] = refl
  find_row-append j x (y ∷ ys) = ground (arith, find_row-append j x ys)

  pub find_row-key : (j : String) (t : List A) (x : A) → find_row j t ≡ some x → key x ≡ j
  find_row-key j [] x h = cc
  find_row-key j (y ∷ ys) x h = ground (arith, eq_iff (key y) j, find_row-key j ys x)

  -- With a unique key every listed row is the one that its key finds.
  abbrev pub Found : List A → A → Type 0
  Found t x = find_row (key x) t ≡ some x

  find_row_of_none : (x y : A) (t : List A) → find_row (key x) t ≡ none → Found t y → key x ≢ key y
  find_row_of_none x y t h k = λ e. ground (arith, ap (λ j. find_row j t) e)

  Found-cons :
      (x : A) (t : List A)
      → find_row (key x) t ≡ none
      → (ys : List A) → All (Found t) ys
      → All (Found (x ∷ t)) ys
  Found-cons x t h [] k = tt
  Found-cons x t h (y ∷ ys) (e, k) =
      (ground (arith, eq_iff (key x) (key y), find_row_of_none x y t h e), Found-cons x t h ys k)

  pub All-Found : (t : List A) → Unique t → All (Found t) t
  All-Found [] u = tt
  All-Found (x ∷ t) (h, u) = (rw eq_refl, Found-cons x t h t (All-Found t u))
