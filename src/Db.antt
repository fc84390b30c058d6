-- ===== src/Db.antt =====
-- db/api.py over the tables of db/models.py. A row is a record without its autoincrement id and the
-- database's own defaults; every operation is one transaction on the state `Db`. The wrapper
-- `check_db_connected` is taken to have found a connection. A text or an integer that is too long
-- for its column is not modelled.
mod Status
mod Rows
pub mod Tokens
pub mod Settings
pub mod Refinement
pub mod Lifecycles
mod Tests
pub use Status.{EmailStatus, is_none, is_sent, is_deleted}
pub use Rows.*
use skyline_apiserver_extens.Common.{
  ℕ, String, Bool, true, false, not, ◌&&◌, Option, none, some, List, [], ◌∷◌, ◌++◌, ◌==◌, ltb,
  if◌then◌else◌, length, is_some,
}
use skyline_apiserver_extens.Common.Int.{ℤ, pos, ◌-ℤ◌, leb_ℤ, ltb_ℤ}
use skyline_apiserver_extens.Common.Table.{
  fetch_all, fetch_one, update_where, delete_where, find_row,
}
use skyline_apiserver_extens.Runtime.{Json, Result, ok, err, other}

unfoldable pub check_token : String → Db → Bool
check_token token_id db = ltb 0 (length (fetch_all (λ r. r.uuid == token_id) db.revoked_token))

unfoldable pub revoke_token : String → ℤ → Db → Db
revoke_token token_id expire db = record db {
  revoked_token = db.revoked_token ++ record { uuid = token_id; expire = expire } ∷ [];
}

-- `time` is `int(time.time())`
unfoldable pub purge_revoked_token : ℤ → Db → Db
purge_revoked_token time db = record db {
  revoked_token = delete_where (λ r. ltb_ℤ r.expire (time -ℤ pos 1)) db.revoked_token;
}

unfoldable pub list_settings : Db → List Setting
list_settings db = db.settings

unfoldable pub get_setting : String → Db → Option Setting
get_setting key db = find_row (λ r. r.key) key db.settings

-- The value that the statement sets, in a row with that key.
abbrev set_value : Json → Setting → Setting
set_value value r = record r { value = value }

unfoldable pub update_setting : String → Json → Db → Option Setting × Db
unfolding get_setting
update_setting key value db =
    let rows : List Setting = elim (find_row (λ r. r.key) key db.settings) [
      | none ↦ db.settings ++ record { key = key; value = value } ∷ []
      | some _ ↦ update_where (λ r. r.key == key) (set_value value) db.settings
    ] in
    (find_row (λ r. r.key) key rows, record db { settings = rows })

unfoldable pub delete_setting : String → Db → Db
delete_setting key db = record db { settings = delete_where (λ r. r.key == key) db.settings }

unfoldable pub create_activity_record :
    String → String → String → String → String → String → ℤ → Db → Db
create_activity_record user_id project_id category message status token time db = record db {
  user_activity =
      db.user_activity
      ++ record {
        user_id = user_id;
        project_id = project_id;
        category = category;
        message = message;
        status = status;
        token = token;
        timestamp = time;
      }
        ∷ [];
}

-- `ORDER BY timestamp DESC`; rows of the same time stand in the order of insertion, where the
-- database may choose.
unfoldable pub insert_newest : UserActivity → List UserActivity → List UserActivity
insert_newest x [] = x ∷ []
insert_newest x (y ∷ ys) =
    if ltb_ℤ x.timestamp y.timestamp then y ∷ insert_newest x ys else x ∷ y ∷ ys

unfoldable pub newest_first : List UserActivity → List UserActivity
newest_first [] = []
newest_first (x ∷ xs) = insert_newest x (newest_first xs)

unfoldable pub get_activity_records_by_user : String → Db → List UserActivity
get_activity_records_by_user user_id db =
    newest_first (fetch_all (λ r. r.user_id == user_id) db.user_activity)

unfoldable pub get_activity_records_by_project : String → Db → List UserActivity
get_activity_records_by_project project_id db =
    newest_first (fetch_all (λ r. r.project_id == project_id) db.user_activity)

-- A row may be inserted only if its instance has none: the unique index.
unfoldable pub create_instance_lifecycle :
    String → String → String → String → String → ℤ → ℤ → Db → Result Db
create_instance_lifecycle instance_id instance_name user_id project_id user_email created expires
      db =
    let row : InstanceLifecycle = record {
      instance_id = instance_id;
      instance_name = some instance_name;
      user_id = user_id;
      project_id = project_id;
      user_email = some user_email;
      created_at = created;
      expires_at = expires;
      email_status = EmailStatus.none;
      email_sent_at = none;
      extended = false;
    } in
    if is_some (find_row (λ r. r.instance_id) instance_id db.instance_lifecycle)
    then err (other "IntegrityError")
    else ok (record db { instance_lifecycle = db.instance_lifecycle ++ row ∷ [] })

unfoldable pub get_instance_lifecycle : String → Db → Option InstanceLifecycle
get_instance_lifecycle instance_id db =
    find_row (λ r. r.instance_id) instance_id db.instance_lifecycle

abbrev pub is_expiring : ℤ → InstanceLifecycle → Bool
is_expiring threshold r = leb_ℤ r.expires_at threshold && not (is_deleted r.email_status)

unfoldable pub list_instance_lifecycles_expiring_before : ℤ → Db → List InstanceLifecycle
list_instance_lifecycles_expiring_before threshold db =
    fetch_all (is_expiring threshold) db.instance_lifecycle

-- A comparison with NULL is not true.
abbrev pub sent_by : Option ℤ → ℤ → Bool
sent_by none threshold = false
sent_by (some at) threshold = leb_ℤ at threshold

abbrev pub is_awaiting_reply : ℤ → InstanceLifecycle → Bool
is_awaiting_reply threshold r =
    is_sent r.email_status && sent_by r.email_sent_at threshold && not r.extended

unfoldable pub list_instance_lifecycles_awaiting_reply : ℤ → Db → List InstanceLifecycle
list_instance_lifecycles_awaiting_reply threshold db =
    fetch_all (is_awaiting_reply threshold) db.instance_lifecycle

abbrev pub mark_sent : ℤ → InstanceLifecycle → InstanceLifecycle
mark_sent at r = record r { email_status = EmailStatus.sent; email_sent_at = some at }

abbrev pub mark_extended : ℤ → InstanceLifecycle → InstanceLifecycle
mark_extended at r = record r {
  email_status = EmailStatus.extended;
  extended = true;
  expires_at = at;
}

abbrev pub mark_deleted : InstanceLifecycle → InstanceLifecycle
mark_deleted r = record r { email_status = EmailStatus.deleted }

-- `UPDATE instance_lifecycle … WHERE instance_id = …`
abbrev update_lifecycle : String → (InstanceLifecycle → InstanceLifecycle) → Db → Db
update_lifecycle id f db = record db {
  instance_lifecycle = update_where (λ r. r.instance_id == id) f db.instance_lifecycle;
}

unfoldable pub update_instance_lifecycle_email_sent : String → ℤ → Db → Db
update_instance_lifecycle_email_sent instance_id sent_at db =
    update_lifecycle instance_id (mark_sent sent_at) db

unfoldable pub update_instance_lifecycle_extended : String → ℤ → Db → Db
update_instance_lifecycle_extended instance_id new_expires_at db =
    update_lifecycle instance_id (mark_extended new_expires_at) db

unfoldable pub update_instance_lifecycle_deleted : String → Db → Db
update_instance_lifecycle_deleted instance_id db = update_lifecycle instance_id mark_deleted db

unfoldable pub delete_instance_lifecycle : String → Db → Db
delete_instance_lifecycle instance_id db = record db {
  instance_lifecycle = delete_where (λ r. r.instance_id == instance_id) db.instance_lifecycle;
}
