-- ===== src/Lifecycle.antt =====
-- api/v1/lifecycle.py. The profile that the handlers are given is not read by them.
pub mod Extend
mod Tests
use skyline_apiserver_extens.Common.{String, Bool, Option, none, some, if◌then◌else◌}
use skyline_apiserver_extens.Common.Int.{ℤ, pos, ◌+ℤ◌, ◌-ℤ◌, ◌*ℤ◌, max_ℤ}
use skyline_apiserver_extens.Runtime.{Result, ok, err, http}
use skyline_apiserver_extens.Db.{
  EmailStatus, is_deleted, InstanceLifecycle, get_instance_lifecycle,
  update_instance_lifecycle_extended,
}
use skyline_apiserver_extens.World.{M, ◌>>=◌, ◌>>◌, pure, raise, query, execute, time}

pub record LifecycleStatusResponse : Type 0 where
  pub instance_id : String
  pub instance_name : Option String
  pub created_at : ℤ
  pub expires_at : ℤ
  pub email_status : EmailStatus
  pub email_sent_at : Option ℤ
  pub extended : Bool
  pub remaining_seconds : ℤ

-- without the fixed text
pub record ExtendResponse : Type 0 where
  pub instance_id : String
  pub new_expires_at : ℤ

-- `if not row: raise 404`
unfoldable pub found_or_404 : Option InstanceLifecycle → M InstanceLifecycle
found_or_404 none = raise (http 404 "해당 인스턴스의 라이프사이클 정보가 없습니다.")
found_or_404 (some row) = pure row

unfoldable pub get_lifecycle_status : String → M LifecycleStatusResponse
unfolding found_or_404
get_lifecycle_status instance_id = do
  found ← query (get_instance_lifecycle instance_id)
  row ← found_or_404 found
  now ← time
  pure (record {
    instance_id = row.instance_id;
    instance_name = row.instance_name;
    created_at = row.created_at;
    expires_at = row.expires_at;
    email_status = row.email_status;
    email_sent_at = row.email_sent_at;
    extended = row.extended;
    remaining_seconds = row.expires_at -ℤ now;
  })

abbrev pub new_expiry : InstanceLifecycle → ℤ → ℤ
new_expiry row now = max_ℤ row.expires_at now +ℤ pos 30 *ℤ pos 86400

unfoldable pub extend_row : String → InstanceLifecycle → M ExtendResponse
extend_row instance_id row = do
  now ← time
  execute (update_instance_lifecycle_extended instance_id (new_expiry row now))
  pure (record { instance_id = instance_id; new_expires_at = new_expiry row now })

unfoldable pub extend_instance_lifecycle : String → M ExtendResponse
unfolding found_or_404 extend_row
extend_instance_lifecycle instance_id = do
  found ← query (get_instance_lifecycle instance_id)
  row ← found_or_404 found
  if is_deleted row.email_status
      then raise (http 409 "이미 삭제된 인스턴스입니다.")
      else extend_row instance_id row
