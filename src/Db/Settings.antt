-- ===== src/Db/Settings.antt =====
-- The settings table as a map from keys to values.
use skyline_apiserver_extens.Common.{
  String, ◌≡◌, refl, ◌∙◌, ap, none, some, Option-cases, inl, inr, ◌==◌, eq_iff, eq_refl, arith,
  if◌then◌else◌,
}
use skyline_apiserver_extens.Common.Table.{
  find_row, Unique, find_row-update_where, find_row-append, find_row-delete_where, find_row-key,
}
use skyline_apiserver_extens.Common.Unique.{Unique-update_where, Unique-append, Unique-delete_where}
use skyline_apiserver_extens.Runtime.{Json}
use skyline_apiserver_extens.Db.{Db, set_value, get_setting, update_setting, delete_setting}

-- After an update the key has the new value, and every other key is as before.
pub get_setting-update_setting :
    (j k : String) (v : Json) (db : Db)
    → get_setting j (update_setting k v db).1
      ≡ (if k == j then some (record { key = k; value = v }) else get_setting j db)
unfolding get_setting update_setting
get_setting-update_setting j k v db = elim (Option-cases (find_row (λ r. r.key) k db.settings)) [
  | inl missing ↦ ground (
    arith,
    eq_iff k j,
    find_row-append (λ r. r.key) j (record { key = k; value = v }) db.settings,
  )
  | inr (row, found) ↦ ground (
    arith,
    eq_iff k j,
    eq_iff j k,
    find_row-key (λ r. r.key) k db.settings row,
    find_row-update_where (λ r. r.key) k j (set_value v) db.settings (λ x. refl),
  )
]

update_setting-get :
    (k : String) (v : Json) (db : Db)
    → (update_setting k v db).0 ≡ get_setting k (update_setting k v db).1
unfolding get_setting update_setting
update_setting-get k v db = refl

-- The row that an update returns is the row that it wrote.
pub update_setting-row :
    (k : String) (v : Json) (db : Db)
    → (update_setting k v db).0 ≡ some (record { key = k; value = v })
update_setting-row k v db =
    update_setting-get k v db
    ∙ get_setting-update_setting k k v db
    ∙ ap (λ b. if b then some (record { key = k; value = v }) else get_setting k db) (eq_refl k)

-- After a delete the key has no row, and every other key is as before.
pub get_setting-delete_setting :
    (j k : String) (db : Db)
    → get_setting j (delete_setting k db) ≡ (if j == k then none else get_setting j db)
unfolding get_setting delete_setting
get_setting-delete_setting j k db = find_row-delete_where (λ r. r.key) k j db.settings

-- No key is listed twice.
abbrev pub IsKeyed : Db → Type 0
IsKeyed db = Unique (λ r. r.key) db.settings

pub update_setting-IsKeyed :
    (k : String) (v : Json) (db : Db) → IsKeyed db → IsKeyed (update_setting k v db).1
unfolding update_setting
update_setting-IsKeyed k v db u = elim (Option-cases (find_row (λ r. r.key) k db.settings)) [
  | inl missing ↦
      rw (missing, update_setting)
        (Unique-append (λ r. r.key) (record { key = k; value = v }) db.settings missing u)
  | inr (row, found) ↦
      rw (found, update_setting)
        (Unique-update_where (λ r. r.key) k (set_value v) db.settings (λ x. refl) u)
]

pub delete_setting-IsKeyed : (k : String) (db : Db) → IsKeyed db → IsKeyed (delete_setting k db)
unfolding delete_setting
delete_setting-IsKeyed k db u = Unique-delete_where (λ r. r.key) k db.settings u
