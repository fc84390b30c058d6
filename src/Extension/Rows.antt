-- ===== src/Extension/Rows.antt =====
-- The rows of a listing are the servers that Nova found, in order.
use skyline_apiserver_extens.Common.{
  String, ◌≡◌, refl, sym, ap, ◌∙◌, subst, Bool, Option, none, some, List, [], ◌∷◌, map, All,
  if◌then◌else◌,
}
use skyline_apiserver_extens.Common.Dict.{Dict, lookup}
use skyline_apiserver_extens.Runtime.{Result, ok, err, ok-injective}
use skyline_apiserver_extens.World.{World}
use skyline_apiserver_extens.World.Reads.{Reads, Reads-ask, Reads-pure, Reads-bind}
use skyline_apiserver_extens.Extension.{
  Server, Row, cons_row, with_name, named_as, fetch_all, name_or_raise, name_or_none,
}
use skyline_apiserver_extens.Extension.Servers.{enrich_all}

-- The host is shown only where all projects are listed.
abbrev pub Shown : Bool → Row → Type 0
Shown all_projects r = r.host ≡ (if all_projects then r.server.host else none)

-- The rows are those of the servers, in order.
abbrev pub RowsOf : Bool → List Server → List Row → Type 0
RowsOf all_projects servers rows =
    (map (λ r. r.server) rows ≡ servers) × All (Shown all_projects) rows

-- One row for each server.
unfoldable pub IsRow : Bool → (Server → Result Row) → Type 0
IsRow all f = (s : Server) (r : Row) → f s ≡ ok r → (r.server ≡ s) × Shown all r

cons_row-ok :
    (x : Result Row) (y : Result (List Row)) (rows : List Row)
    → cons_row x y ≡ ok rows
    → (r : Row) × (rs : List Row) × (x ≡ ok r) × (y ≡ ok rs) × (r ∷ rs ≡ rows)
cons_row-ok (err e) y rows h = cc
cons_row-ok (ok r) (err e) rows h = cc
cons_row-ok (ok r) (ok rs) rows h = (r, rs, refl, refl, ok-injective h)

pub enrich_all-RowsOf :
    (all : Bool) (f : Server → Result Row)
    → IsRow all f
    → (servers : List Server) (rows : List Row) → enrich_all f servers ≡ ok rows
    → RowsOf all servers rows
unfolding enrich_all IsRow
enrich_all-RowsOf all f h [] rows e = subst (RowsOf all []) (ok-injective e) (refl, tt)
enrich_all-RowsOf all f h (s ∷ ss) rows e =
    let c = cons_row-ok (f s) (enrich_all f ss) rows e in
    let first = h s c.0 c.2 in
    let rest = enrich_all-RowsOf all f h ss c.1 c.3 in
    subst (RowsOf all (s ∷ ss)) c.4
      (ap (λ x. x ∷ map (λ r. r.server) c.1) first.0 ∙ ap (λ xs. s ∷ xs) rest.0, (first.1, rest.1))

pub Shown-same :
    (all : Bool) (r r' : Row) → r'.server ≡ r.server → r'.host ≡ r.host → Shown all r → Shown all r'
Shown-same all r r' s h e = h ∙ e ∙ ap (λ x. if all then x.host else none) (sym s)

-- Naming the projects keeps the rows.
named_as-row :
    (name : Option String) (r named : Row)
    → named_as name r ≡ ok named
    → (named.server ≡ r.server) × (named.host ≡ r.host)
named_as-row none r named h = cc
named_as-row (some name) r named h =
    (ap (λ x. x.server) (sym (ok-injective h)), ap (λ x. x.host) (sym (ok-injective h)))

pub name_or_raise-RowsOf :
    (all : Bool) (names : Dict String) (ss : List Server) (rows named : List Row)
    → name_or_raise names rows ≡ ok named
    → RowsOf all ss rows
    → RowsOf all ss named
unfolding name_or_raise
name_or_raise-RowsOf all names ss [] named e h = subst (RowsOf all ss) (ok-injective e) h
name_or_raise-RowsOf all names ss (r ∷ rows) named e (servers, (shown, others)) =
    let c = cons_row-ok (with_name names r) (name_or_raise names rows) named e in
    let first = named_as-row (lookup r.server.project_id names) r c.0 c.2 in
    let rest =
      name_or_raise-RowsOf all names (map (λ x. x.server) rows) rows c.1 c.3 (refl, others) in
    subst (RowsOf all ss) c.4 (
      ap (λ x. x ∷ map (λ y. y.server) c.1) first.0 ∙ ap (λ xs. r.server ∷ xs) rest.0 ∙ servers,
      (Shown-same all r c.0 first.0 first.1 shown, rest.1),
    )

pub name_or_none-RowsOf :
    (all : Bool) (names : Dict String) (ss : List Server) (rows : List Row)
    → RowsOf all ss rows
    → RowsOf all ss (name_or_none names rows)
name_or_none-RowsOf all names ss [] h = h
name_or_none-RowsOf all names ss (r ∷ rows) (servers, (shown, others)) =
    let rest = name_or_none-RowsOf all names (map (λ x. x.server) rows) rows (refl, others) in
    (ap (λ xs. r.server ∷ xs) rest.0 ∙ servers, (shown, rest.1))

pub fetch_all-Reads :
    {A B : Type 0} (fetch : World → List A → Result (List B)) (batches : List (List A))
    → Reads (fetch_all fetch batches)
unfolding fetch_all
fetch_all-Reads fetch [] = Reads-pure []
fetch_all-Reads fetch (xs ∷ rest) =
    Reads-bind (Reads-ask _)
      (λ found. Reads-bind (fetch_all-Reads fetch rest) (λ more. Reads-pure _))
