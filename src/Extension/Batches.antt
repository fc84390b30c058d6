-- ===== src/Extension/Batches.antt =====
-- Splitting a list of ids for requests.
use skyline_apiserver_extens.Common.{ℕ, ◌≤◌, List, [], ◌∷◌, ◌++◌, length}

module _ {ℓ} {A : Type ℓ} where
  -- `sum(batches, [])`
  abbrev pub concat : List (List A) → List A
  concat [] = []
  concat (xs ∷ rest) = xs ++ concat rest

  -- A batch has a member, and no more than the step.
  abbrev pub Sized : ℕ → List A → Type 0
  Sized step xs = (1 ≤ length xs) × (length xs ≤ step)
