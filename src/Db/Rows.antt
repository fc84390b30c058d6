-- ===== src/Db/Rows.antt =====
-- The tables of db/models.py.
use skyline_apiserver_extens.Common.{String, Bool, Option, List}
use skyline_apiserver_extens.Common.Int.{ℤ}
use skyline_apiserver_extens.Runtime.{Json}
use skyline_apiserver_extens.Db.Status.{EmailStatus}

pub record RevokedToken : Type 0 where
  pub uuid : String
  pub expire : ℤ

pub record Setting : Type 0 where
  pub key : String
  pub value : Json

pub record UserActivity : Type 0 where
  pub user_id : String
  pub project_id : String
  pub category : String
  pub message : String
  pub status : String
  pub token : String
  pub timestamp : ℤ

pub record InstanceLifecycle : Type 0 where
  pub instance_id : String
  pub instance_name : Option String
  pub user_id : String
  pub project_id : String
  pub user_email : Option String
  pub created_at : ℤ
  pub expires_at : ℤ
  pub email_status : EmailStatus
  pub email_sent_at : Option ℤ
  pub extended : Bool

pub record Db : Type 0 where
  pub revoked_token : List RevokedToken
  pub settings : List Setting
  pub user_activity : List UserActivity
  pub instance_lifecycle : List InstanceLifecycle
