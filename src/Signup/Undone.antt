-- ===== src/Signup/Undone.antt =====
-- The creation of a user as a whole: what a failure takes back.
use skyline_apiserver_extens.Common.{String, false, ◌≡◌, refl, sym, ap, ◌∙◌, subst, ◌⊎◌, inr}
use skyline_apiserver_extens.Runtime.{Exn, Result, ok, err, ok-injective}
use skyline_apiserver_extens.World.{World, M, steps, next, handle, pure}
use skyline_apiserver_extens.World
use skyline_apiserver_extens.World.Sends.{Sent, use-Sends}
use skyline_apiserver_extens.Signup.{
  Accounts, Answer, SignupRequest, attempt, new_project, set_quotas, new_user, with_user,
  with_quotas, with_project, create_user, is_empty,
}
use skyline_apiserver_extens.Signup.Rollback.{
  Refused, roll_back-user, with_user-Sends, with_project-Sends,
}

module _ (accounts : Accounts) where
  handled-value :
      {A : Type 0} (r : Result (Answer ⊎ A) × World) (f : Exn → M (Answer ⊎ A))
      (g : Answer ⊎ A → M Answer) (a : A)
      → r.0 ≡ ok (inr a)
      → next (handle r f) g ≡ g (inr a) r.1
  unfolding steps
  handled-value (ok b, w) f g a e = ap (λ x. g x w) (ok-injective e)
  handled-value (err x, w) f g a e = cc

  attempt-value :
      {A : Type 0} (user_id project_id : String) (m : M (Answer ⊎ A)) (k : A → M Answer) (w : World)
      (a : A)
      → (m w).0 ≡ ok (inr a)
      → attempt accounts user_id project_id m k w ≡ k a (m w).1
  unfolding attempt steps
  attempt-value user_id project_id m k w a e = handled-value (m w) _ _ a e

  create_user-with_project :
      (user : SignupRequest) (project_id token : String) (w : World)
      → accounts.get_system_session w ≡ ok tt
      → accounts.system_token w ≡ ok token
      → (new_project accounts user w).0 ≡ ok (inr project_id)
      → create_user accounts user w
        ≡ with_project accounts user project_id (new_project accounts user w).1
  unfolding create_user steps
  create_user-with_project user project_id token w session has_token made =
      rw (session, has_token)
        (attempt-value "" "" (new_project accounts user) (with_project accounts user) w project_id
          made)

  -- The world after the project was made, and after its quotas were set.
  abbrev pub after_project : SignupRequest → World → World
  after_project user w = (new_project accounts user w).1

  abbrev pub after_quotas : SignupRequest → String → World → World
  after_quotas user project_id w = (set_quotas accounts project_id (after_project user w)).1

  -- Where Keystone made the project, an answer that says that the creation of the user failed comes
  -- only after the deletion of the project was requested.
  pub create_user-delete_project :
      (user : SignupRequest) (project_id token message : String) (w : World)
      → accounts.get_system_session w ≡ ok tt
      → accounts.system_token w ≡ ok token
      → (new_project accounts user w).0 ≡ ok (inr project_id)
      → is_empty project_id ≡ false
      → (create_user accounts user w).0 ≡ ok (false, message)
      → Sent (World.delete_project project_id) (create_user accounts user w).1
  create_user-delete_project user project_id token message w session has_token made set failed =
      let whole = create_user-with_project user project_id token w session has_token made in
      subst (λ r. Sent (World.delete_project project_id) r.1) (sym whole)
        (use-Sends Refused _ (with_project-Sends accounts user project_id set)
          (after_project user w) (false, message) (sym (ap (λ r. r.0) whole) ∙ failed) refl)

  -- Where Keystone made the project and then, after the quotas were set, the user, an answer that
  -- says that the creation failed comes only after the deletion of both was requested.
  pub create_user-delete_user :
      (user : SignupRequest) (project_id user_id token message : String) (w : World)
      → accounts.get_system_session w ≡ ok tt
      → accounts.system_token w ≡ ok token
      → (new_project accounts user w).0 ≡ ok (inr project_id)
      → is_empty project_id ≡ false
      → (set_quotas accounts project_id (after_project user w)).0 ≡ ok (inr tt)
      → (new_user accounts user project_id (after_quotas user project_id w)).0 ≡ ok (inr user_id)
      → is_empty user_id ≡ false
      → (create_user accounts user w).0 ≡ ok (false, message)
      → Sent (World.delete_project project_id) (create_user accounts user w).1
        × Sent (World.delete_user user_id) (create_user accounts user w).1
  unfolding with_project with_quotas
  create_user-delete_user user project_id user_id token message w session has_token made set quotas
        created named failed =
      let whole =
        create_user-with_project user project_id token w session has_token made
        ∙ attempt-value "" project_id (set_quotas accounts project_id)
            (λ _. with_quotas accounts user project_id) (after_project user w) tt quotas
        ∙ attempt-value "" project_id (new_user accounts user project_id)
            (with_user accounts project_id) (after_quotas user project_id w) user_id created in
      (
        create_user-delete_project user project_id token message w session has_token made set
            failed,
        subst (λ r. Sent (World.delete_user user_id) r.1) (sym whole)
            (use-Sends Refused _
              (with_user-Sends accounts (World.delete_user user_id) project_id user_id
                (λ e. roll_back-user accounts user_id project_id e named))
              _ (false, message) (sym (ap (λ r. r.0) whole) ∙ failed) refl),
      )
