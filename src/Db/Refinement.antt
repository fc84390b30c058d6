-- ===== src/Db/Refinement.antt =====
-- The settings table implements a map from keys to values.
use skyline_apiserver_extens.Common.{
  String, ◌≡◌, refl, ap, ◌∙◌, Bool, true, false, Option, none, some, map_option, List, [], ◌∷◌,
  ◌==◌, if◌then◌else◌,
}
use mathlib.Core.Path.{fun_ext}
use skyline_apiserver_extens.Runtime.{Json}
use skyline_apiserver_extens.Db.{Db, Setting, get_setting, update_setting, delete_setting}
use skyline_apiserver_extens.Db.Settings.{
  IsKeyed, get_setting-update_setting, get_setting-delete_setting, update_setting-IsKeyed,
  delete_setting-IsKeyed,
}

-- What the API does to the settings.
pub data Change : Type 0 where
  put : String → Json → Change
  remove : String → Change

-- The specification: a map, which a change changes at its key.
abbrev pub Store : Type 0
Store = String → Option Json

abbrev pub change_store : Change → Store → Store
change_store (put k v) store = λ j. if k == j then some v else store j
change_store (remove k) store = λ j. if j == k then none else store j

abbrev pub run_store : List Change → Store → Store
run_store [] store = store
run_store (c ∷ cs) store = run_store cs (change_store c store)

-- The implementation: the statements on the table.
abbrev pub change_db : Change → Db → Db
change_db (put k v) db = (update_setting k v db).1
change_db (remove k) db = delete_setting k db

abbrev pub run_db : List Change → Db → Db
run_db [] db = db
run_db (c ∷ cs) db = run_db cs (change_db c db)

-- What a table stands for.
abbrev pub view : Db → Store
view db = λ j. map_option (λ s. s.value) (get_setting j db)

view-if :
    (b : Bool) (v : Json) (s : Option Setting) (t : Setting)
    → t.value ≡ v
    → map_option (λ x. x.value) (if b then some t else s)
      ≡ (if b then some v else map_option (λ x. x.value) s)
view-if true v s t e = ap some e
view-if false v s t e = refl

view-unless :
    (b : Bool) (s : Option Setting)
    → map_option (λ x. x.value) (if b then none else s)
      ≡ (if b then none else map_option (λ x. x.value) s)
view-unless true s = refl
view-unless false s = refl

view-change_db : (c : Change) (db : Db) → view (change_db c db) ≡ change_store c (view db)
view-change_db (put k v) db = fun_ext (λ j.
    ap (map_option (λ x. x.value)) (get_setting-update_setting j k v db)
    ∙ view-if (k == j) v (get_setting j db) _ refl)
view-change_db (remove k) db = fun_ext (λ j.
    ap (map_option (λ x. x.value)) (get_setting-delete_setting j k db)
    ∙ view-unless (j == k) (get_setting j db))

run_db-IsKeyed : (cs : List Change) (db : Db) → IsKeyed db → IsKeyed (run_db cs db)
run_db-IsKeyed [] db u = u
run_db-IsKeyed (put k v ∷ cs) db u =
    run_db-IsKeyed cs (update_setting k v db).1 (update_setting-IsKeyed k v db u)
run_db-IsKeyed (remove k ∷ cs) db u =
    run_db-IsKeyed cs (delete_setting k db) (delete_setting-IsKeyed k db u)

run_view : (cs : List Change) (db : Db) → view (run_db cs db) ≡ run_store cs (view db)
run_view [] db = refl
run_view (c ∷ cs) db = run_view cs (change_db c db) ∙ ap (run_store cs) (view-change_db c db)

-- Any sequence of updates and deletions of settings does to the table what it does to the map that
-- the table stands for, and it leaves one row to a key.
pub settings-refine :
    (cs : List Change) (db : Db)
    → IsKeyed db
    → (view (run_db cs db) ≡ run_store cs (view db)) × IsKeyed (run_db cs db)
settings-refine cs db u = (run_view cs db, run_db-IsKeyed cs db u)
