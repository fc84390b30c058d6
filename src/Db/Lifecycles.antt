-- ===== src/Db/Lifecycles.antt =====
-- The lifecycle table as a map from instances to rows.
use skyline_apiserver_extens.Common.{
  String, ◌≡◌, refl, false, [], ◌∷◌, ◌++◌, is_some, Option, none, some, ◌==◌, eq_iff, arith,
  if◌then◌else◌,
}
use mathlib.Core.Option
use skyline_apiserver_extens.Common.Int.{ℤ}
use skyline_apiserver_extens.Common.Table.{
  Unique, find_row-update_where, find_row-append, find_row-delete_where,
}
use skyline_apiserver_extens.Common.Unique.{Unique-update_where, Unique-append, Unique-delete_where}
use skyline_apiserver_extens.Runtime.{Result, ok, err, other}
use skyline_apiserver_extens.Db.{
  EmailStatus, Db, InstanceLifecycle, mark_sent, mark_extended, mark_deleted,
  get_instance_lifecycle, create_instance_lifecycle, update_instance_lifecycle_email_sent,
  update_instance_lifecycle_extended, update_instance_lifecycle_deleted, delete_instance_lifecycle,
}

abbrev id_of : InstanceLifecycle → String
id_of r = r.instance_id

-- No instance has two rows.
abbrev pub IsTracked : Db → Type 0
IsTracked db = Unique id_of db.instance_lifecycle

module _ (j k : String) (db : Db) where
  pub get-email_sent :
      (at : ℤ)
      → get_instance_lifecycle j (update_instance_lifecycle_email_sent k at db) ≡ (
          if j == k
          then Option.map (mark_sent at) (get_instance_lifecycle j db)
          else get_instance_lifecycle j db)
  unfolding get_instance_lifecycle update_instance_lifecycle_email_sent
  get-email_sent at =
      find_row-update_where id_of k j (mark_sent at) db.instance_lifecycle (λ x. refl)

  pub get-extended :
      (at : ℤ)
      → get_instance_lifecycle j (update_instance_lifecycle_extended k at db) ≡ (
          if j == k
          then Option.map (mark_extended at) (get_instance_lifecycle j db)
          else get_instance_lifecycle j db)
  unfolding get_instance_lifecycle update_instance_lifecycle_extended
  get-extended at =
      find_row-update_where id_of k j (mark_extended at) db.instance_lifecycle (λ x. refl)

  pub get-deleted : get_instance_lifecycle j (update_instance_lifecycle_deleted k db) ≡ (
      if j == k
      then Option.map mark_deleted (get_instance_lifecycle j db)
      else get_instance_lifecycle j db)
  unfolding get_instance_lifecycle update_instance_lifecycle_deleted
  get-deleted = find_row-update_where id_of k j mark_deleted db.instance_lifecycle (λ x. refl)

  pub get-delete :
      get_instance_lifecycle j (delete_instance_lifecycle k db)
      ≡ (if j == k then none else get_instance_lifecycle j db)
  unfolding get_instance_lifecycle delete_instance_lifecycle
  get-delete = find_row-delete_where id_of k j db.instance_lifecycle

module _ (k : String) (db : Db) (u : IsTracked db) where
  pub email_sent-IsTracked : (at : ℤ) → IsTracked (update_instance_lifecycle_email_sent k at db)
  unfolding update_instance_lifecycle_email_sent
  email_sent-IsTracked at =
      Unique-update_where id_of k (mark_sent at) db.instance_lifecycle (λ x. refl) u

  pub extended-IsTracked : (at : ℤ) → IsTracked (update_instance_lifecycle_extended k at db)
  unfolding update_instance_lifecycle_extended
  extended-IsTracked at =
      Unique-update_where id_of k (mark_extended at) db.instance_lifecycle (λ x. refl) u

  pub deleted-IsTracked : IsTracked (update_instance_lifecycle_deleted k db)
  unfolding update_instance_lifecycle_deleted
  deleted-IsTracked = Unique-update_where id_of k mark_deleted db.instance_lifecycle (λ x. refl) u

  pub delete-IsTracked : IsTracked (delete_instance_lifecycle k db)
  unfolding delete_instance_lifecycle
  delete-IsTracked = Unique-delete_where id_of k db.instance_lifecycle u

-- The row that `create_instance_lifecycle` inserts.
abbrev pub new_row : String → String → String → String → String → ℤ → ℤ → InstanceLifecycle
new_row instance_id instance_name user_id project_id user_email created expires = record {
  instance_id = instance_id;
  instance_name = some instance_name;
  user_id = user_id;
  project_id = project_id;
  user_email = some user_email;
  created_at = created;
  expires_at = expires;
  email_status = EmailStatus.none;
  email_sent_at = none;
  extended = false;
}

-- Refused where the instance has a row; else the row is there, and every other row as before.
abbrev pub Created : String → InstanceLifecycle → Db → Option InstanceLifecycle → Result Db → Type 0
Created id row db (some _) out = out ≡ err (other "IntegrityError")
Created id row db none out =
    (db' : Db) × (out ≡ ok db')
    × ((j : String)
        → get_instance_lifecycle j db'
          ≡ (if id == j then some row else get_instance_lifecycle j db))
    × (IsTracked db → IsTracked db')

module _ (id name user project email : String) (created expires : ℤ) (db : Db) where
  abbrev appended : Db
  appended = record db {
    instance_lifecycle =
        db.instance_lifecycle ++ new_row id name user project email created expires ∷ [];
  }

  appended_rows :
      (j : String)
      → get_instance_lifecycle id db ≡ none
      → get_instance_lifecycle j appended ≡ (
          if id == j
          then some (new_row id name user project email created expires)
          else get_instance_lifecycle j db)
  unfolding get_instance_lifecycle
  appended_rows j h = ground (
    arith,
    eq_iff id j,
    find_row-append id_of j (new_row id name user project email created expires)
        db.instance_lifecycle,
  )

  appended-IsTracked : get_instance_lifecycle id db ≡ none → IsTracked db → IsTracked appended
  unfolding get_instance_lifecycle
  appended-IsTracked h u =
      Unique-append id_of (new_row id name user project email created expires) db.instance_lifecycle
        h u

  create_run : create_instance_lifecycle id name user project email created expires db ≡ (
      if is_some (get_instance_lifecycle id db) then err (other "IntegrityError") else ok appended)
  unfolding create_instance_lifecycle get_instance_lifecycle
  create_run = refl

  Created-by :
      (o : Option InstanceLifecycle)
      → get_instance_lifecycle id db ≡ o
      → Created id
          (new_row id name user project email created expires)
          db
          o
          (if is_some o then err (other "IntegrityError") else ok appended)
  Created-by (some r) h = refl
  Created-by none h = (appended, refl, λ j. appended_rows j h, appended-IsTracked h)

  -- A row is created exactly where the instance has none. It is then found under its instance, with
  -- no warning sent, every other row is as before, and no instance has two rows if none had before.
  -- Where the instance has a row the insertion raises.
  pub create_instance_lifecycle_lem :
      Created id
        (new_row id name user project email created expires)
        db
        (get_instance_lifecycle id db)
        (create_instance_lifecycle id name user project email created expires db)
  create_instance_lifecycle_lem = rw create_run (Created-by (get_instance_lifecycle id db) refl)
