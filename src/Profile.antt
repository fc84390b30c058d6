-- ===== src/Profile.antt =====
-- schemas/login.py: the profile that the handlers are given.
use skyline_apiserver_extens.Common.{String, Option, List}
use skyline_apiserver_extens.Common.Int.{ℤ}

pub record Domain : Type 0 where
  pub id : String
  pub name : String

pub record Role : Type 0 where
  pub id : String
  pub name : String

pub record Project : Type 0 where
  pub id : String
  pub name : String
  pub domain : Domain

pub record User : Type 0 where
  pub id : String
  pub name : String
  pub domain : Domain
  pub email : Option String

-- `Profile`, without the fields that only the browser reads
pub record Profile : Type 0 where
  pub keystone_token : String
  pub region : String
  pub exp : ℤ
  pub uuid : String
  pub project : Project
  pub user : User
  pub roles : List Role
