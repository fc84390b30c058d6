-- ===== src/Signup.antt =====
-- The rest of client/openstack/keystone.py and api/v1/user.py: creating a user with a project, and
-- changing a password. The variables `new_project_id` and `new_user_id` that the `except` clause
-- reads are arguments of `attempt`, which stands for a part of the `try` during which they are fixed.
pub mod Rollback
pub mod Undone
mod Tests
use Prim.Native.String
use skyline_apiserver_extens.Common.{
  ℕ, String, Bool, true, false, ◌||◌, Option, none, some, List, [], ◌∷◌, ◌==◌, eqb, if◌then◌else◌,
  ◌⊎◌, inl, inr,
}
use skyline_apiserver_extens.Runtime.{Exn, http, other, Result}
use skyline_apiserver_extens.World.{
  World, Call, post_project, post_user, put_role, post_password, set_nova_quotas, set_cinder_quotas,
  post_security_group, post_security_group_rule, M, ◌>>=◌, ◌>>◌, pure, raise, lift, ask, request,
  exchange, try_except, for_each,
}
use skyline_apiserver_extens.World
use skyline_apiserver_extens.Profile.{Profile}
use skyline_apiserver_extens.Keystone.{Reply}

-- `SignupRequest`, as far as the answers depend on it
pub record SignupRequest : Type 0 where
  pub username : String
  pub name : String
  pub email : String
  pub password : String

-- `ChangePasswordBody`
pub record ChangePasswordBody : Type 0 where
  pub original_password : String
  pub password : String

-- What the services answer, and the options that are read; an option that is not set is empty.
pub record Accounts : Type 0 where
  pub get_system_session : World → Result (Unit {0})
  pub system_token : World → Result String
  -- the id in the body of an answer to a POST
  pub post : World → Call → Result (Reply String)
  -- the status of an answer to a PUT or a DELETE
  pub status : World → Call → Result ℕ
  pub answer : World → Call → Result (Unit {0})
  -- the id of a new security group
  pub security_group : World → Call → Result String
  pub str_of : Exn → String
  pub member_role_id : String
  pub admin_user_id : String
  pub admin_role_id : String
  pub portforward_vm_internal_ips : List String

-- what `create_user` returns
abbrev pub Answer : Type 0
Answer = Bool × String

abbrev pub is_empty : String → Bool
is_empty s = s == ""

module _ (accounts : Accounts) where
  -- `_delete_project` and `_delete_user`: the status is not looked at
  unfoldable pub delete_by : Call → M (Unit {0})
  delete_by c = do
    ask accounts.get_system_session
    ask accounts.system_token
    exchange (λ w. accounts.status w c) c
    pure tt

  unfoldable pub delete_project : String → M (Unit {0})
  delete_project project_id = delete_by (World.delete_project project_id)

  unfoldable pub delete_user : String → M (Unit {0})
  delete_user user_id = delete_by (World.delete_user user_id)

  -- `if new_id: await …`
  abbrev pub if_set : String → M (Unit {0}) → M (Unit {0})
  if_set id m = if is_empty id then pure tt else m

  -- the outer `except` clause; an id that is not set is empty
  unfoldable pub roll_back : String → String → Exn → M Answer
  roll_back user_id project_id e = do
    if_set user_id (delete_user user_id)
    if_set project_id (delete_project project_id)
    pure (false, accounts.str_of e)

  -- A part of the `try`, which may return from the function, and what follows it.
  unfoldable pub attempt :
      {A : Type 0} → String → String → M (Answer ⊎ A) → (A → M Answer) → M Answer
  attempt user_id project_id m k = do
    r ← try_except m (λ e. roll_back user_id project_id e >>= λ answer. pure (inl answer))
    elim r [ inl answer ↦ pure answer | inr a ↦ k a ]

  -- 1: the project
  unfoldable pub new_project : SignupRequest → M (Answer ⊎ String)
  new_project user =
      let c : Call = post_project (String.◌++◌ user.username "-project") in
      (do
        resp ← exchange (λ w. accounts.post w c) c
        if eqb resp.status_code 201
            then (lift resp.json >>= λ id. pure (inr id))
            else pure (inl (false, String.◌++◌ "Failed to create project: " resp.text)))

  -- its quotas
  unfoldable pub set_quotas : String → M (Answer ⊎ Unit {0})
  set_quotas project_id =
      try_except
        (do
          request accounts.answer (set_nova_quotas project_id)
          request accounts.answer (set_cinder_quotas project_id)
          pure (inr tt))
        (λ e.
          delete_project project_id
          >> pure (inl (false, String.◌++◌ "Failed to set quotas: " (accounts.str_of e))))

  -- 2: the user
  unfoldable pub new_user : SignupRequest → String → M (Answer ⊎ String)
  new_user user project_id =
      let c : Call = post_user user.username project_id in
      (do
        resp ← exchange (λ w. accounts.post w c) c
        if eqb resp.status_code 201
            then (lift resp.json >>= λ id. pure (inr id))
            else raise (other "Exception"))

  unfoldable pub assign : String → String → String → M (Unit {0})
  assign project_id user_id role_id =
      let c : Call = put_role project_id user_id role_id in
      (do
        status ← exchange (λ w. accounts.status w c) c
        if eqb status 204 then pure tt else raise (other "Exception"))

  -- 3 and 4: the roles
  unfoldable pub assign_roles : String → String → M (Unit {0})
  assign_roles project_id user_id = do
    if is_empty accounts.member_role_id
        then raise (other "Exception")
        else assign project_id user_id accounts.member_role_id
    if is_empty accounts.admin_user_id || is_empty accounts.admin_role_id
        then raise (other "Exception")
        else assign project_id accounts.admin_user_id accounts.admin_role_id

  -- 5: the security group, whose failure is only logged
  unfoldable pub default_security_group : String → M (Unit {0})
  default_security_group project_id =
      let c : Call = post_security_group project_id in
      (try_except
        (do
          group ← exchange (λ w. accounts.security_group w c) c
          for_each accounts.portforward_vm_internal_ips (λ ip.
              request accounts.answer
                (post_security_group_rule project_id group "ingress" (String.◌++◌ ip "/32")))
          request accounts.answer (post_security_group_rule project_id group "egress" "0.0.0.0/0"))
        (λ _. pure tt))

  -- what follows the creation of the user
  unfoldable pub with_user : String → String → M Answer
  with_user project_id user_id =
      attempt user_id project_id
        (do assign_roles project_id user_id; default_security_group project_id; pure (inr tt))
        (λ _. pure (true, "User, project, and roles created successfully."))

  -- what follows the quotas
  unfoldable pub with_quotas : SignupRequest → String → M Answer
  with_quotas user project_id =
      attempt "" project_id (new_user user project_id) (with_user project_id)

  -- what follows the creation of the project
  unfoldable pub with_project : SignupRequest → String → M Answer
  with_project user project_id =
      attempt "" project_id (set_quotas project_id) (λ _. with_quotas user project_id)

  unfoldable pub create_user : SignupRequest → M Answer
  create_user user = do
    ask accounts.get_system_session
    ask accounts.system_token
    attempt "" "" (new_project user) (with_project user)

  unfoldable pub change_password : String → ChangePasswordBody → M Answer
  change_password user_id body =
      let c : Call = post_password user_id body.original_password body.password in
      (do
        resp ← exchange (λ w. accounts.post w c) c
        pure (
            if eqb resp.status_code 204
            then (true, "Password changed successfully.")
            else if eqb resp.status_code 401
            then (false, "Current password is incorrect.")
            else if eqb resp.status_code 403
            then (false, "Permission denied.")
            else (false, String.◌++◌ "Failed to change password: " resp.text)))

  -- the handlers: a failure is a 400
  abbrev pub or_400 : Answer → M String
  or_400 (true, msg) = pure msg
  or_400 (false, msg) = raise (http 400 msg)

  unfoldable pub signup : SignupRequest → M String
  signup user = create_user user >>= or_400

  unfoldable pub change_user_password : ChangePasswordBody → Profile → M String
  change_user_password body profile = change_password profile.user.id body >>= or_400
