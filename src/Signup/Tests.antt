-- ===== src/Signup/Tests.antt =====
-- The creation of a user whose role cannot be assigned.
use skyline_apiserver_extens.Common.{String, ◌≡◌, refl, [], inr, false}
use skyline_apiserver_extens.Runtime.{ok}
use skyline_apiserver_extens.World.{World, Call, post_user, steps}
use skyline_apiserver_extens.World
use skyline_apiserver_extens.World.Sends.{Sent}
use skyline_apiserver_extens.Signup.{
  Accounts, SignupRequest, delete_by, delete_project, delete_user, roll_back, attempt, new_project,
  set_quotas, new_user, assign, assign_roles, with_user, with_quotas, with_project, create_user,
}
use skyline_apiserver_extens.Signup.Undone.{
  after_project, after_quotas, create_user-delete_project, create_user-delete_user,
}
use skyline_apiserver_extens.Samples.{world}

abbrev id_of : Call → String
id_of (post_user _ _) = "u9"
id_of _ = "p9"

abbrev accounts : Accounts
accounts = record {
  get_system_session = λ _. ok tt;
  system_token = λ _. ok "system";
  post = λ _ c. ok (record { status_code = 201; text = ""; json = ok (id_of c) });
  status = λ _ _. ok 403;
  answer = λ _ _. ok tt;
  security_group = λ _ _. ok "g1";
  str_of = λ _. "error";
  member_role_id = "r1";
  admin_user_id = "u0";
  admin_role_id = "r0";
  portforward_vm_internal_ips = [];
}

abbrev user : SignupRequest
user = record { username = "ann"; name = "Ann"; email = "ann@example.org"; password = "password" }

project_made : (new_project accounts user world).0 ≡ ok (inr "p9")
unfolding new_project steps
project_made = refl

quotas_set : (set_quotas accounts "p9" (after_project accounts user world)).0 ≡ ok (inr tt)
unfolding set_quotas new_project steps
quotas_set = refl

user_made : (new_user accounts user "p9" (after_quotas accounts user "p9" world)).0 ≡ ok (inr "u9")
unfolding new_user steps
user_made = refl

failed : (create_user accounts user world).0 ≡ ok (false, "error")
unfolding create_user attempt new_project with_project set_quotas with_quotas new_user with_user
    assign assign_roles roll_back delete_user delete_project delete_by steps
failed = refl

create_user-delete_project_example :
    Sent (World.delete_project "p9") (create_user accounts user world).1
create_user-delete_project_example =
    create_user-delete_project accounts user "p9" "system" "error" world refl refl project_made refl
      failed

create_user-delete_user_example :
    Sent (World.delete_project "p9") (create_user accounts user world).1
    × Sent (World.delete_user "u9") (create_user accounts user world).1
create_user-delete_user_example =
    create_user-delete_user accounts user "p9" "u9" "system" "error" world refl refl project_made
      refl quotas_set user_made refl failed
