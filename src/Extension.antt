-- ===== src/Extension.antt =====
-- api/v1/extension.py: the listings that join what several services know. `Services` holds what their
-- clients answer. A set of ids is a list without repetitions, in the order of insertion, where
-- Python may choose another.
mod Data
mod Join
pub mod Batches
pub mod Servers
pub mod Scope
pub mod Rows
pub mod Found
mod Tests
unfoldable pub use Data.*
unfoldable pub use Join.*
use skyline_apiserver_extens.Common.{List, [], ◌∷◌, ◌++◌}
use skyline_apiserver_extens.Runtime.{Result}
use skyline_apiserver_extens.World.{World, M, ◌>>=◌, pure, ask}

module _ {ℓ κ} {A : Type ℓ} {B : Type κ} where
  -- `for batch in …: result.extend(fetch(batch))`
  unfoldable pub fetch_all : (World → List A → Result (List B)) → List (List A) → M (List B)
  fetch_all fetch [] = pure []
  fetch_all fetch (xs ∷ rest) = do
    found ← ask (λ w. fetch w xs)
    more ← fetch_all fetch rest
    pure (found ++ more)
