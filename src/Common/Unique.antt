-- ===== src/Common/Unique.antt =====
-- The unique index on a column, under the statements that change a table.
use Prim.Native.String.{String}
use mathlib.Core.Path.{◌≡◌, refl}
use mathlib.Core.Option.{none}
use mathlib.Core.List.{List, [], ◌∷◌, ◌++◌}
use native.Mathlib.Omega.{arith}
use text.Mathlib.Text.{◌==◌}
use text.Mathlib.TextEquality.{eq_iff}
use skyline_apiserver_extens.Common.Table.{
  update_where, delete_where, find_row, Unique, find_row-update_where, find_row-delete_where,
  find_row-append,
}

module _ {A : Type 0} (key : A → String) where
  pub Unique-update_where :
      (k : String) (f : A → A) (t : List A)
      → ((x : A) → key (f x) ≡ key x)
      → Unique key t
      → Unique key (update_where (λ x. key x == k) f t)
  Unique-update_where k f [] kept u = tt
  Unique-update_where k f (x ∷ xs) kept (h, u) = ground (
    arith,
    kept x,
    find_row-update_where key k (key x) f xs kept,
    find_row-update_where key k (key (f x)) f xs kept,
    Unique-update_where k f xs kept u,
  )

  pub Unique-delete_where :
      (k : String) (t : List A) → Unique key t → Unique key (delete_where (λ x. key x == k) t)
  Unique-delete_where k [] u = tt
  Unique-delete_where k (x ∷ xs) (h, u) =
      ground (arith, find_row-delete_where key k (key x) xs, Unique-delete_where k xs u)

  pub Unique-append :
      (x : A) (t : List A) → find_row key (key x) t ≡ none → Unique key t → Unique key (t ++ x ∷ [])
  Unique-append x [] h u = (refl, tt)
  Unique-append x (y ∷ ys) h (n, u) = ground (
    arith,
    eq_iff (key x) (key y),
    eq_iff (key y) (key x),
    find_row-append key (key y) x ys,
    Unique-append x ys,
  )
