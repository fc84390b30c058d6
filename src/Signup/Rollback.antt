-- ===== src/Signup/Rollback.antt =====
-- A failed creation of a user takes back what it made.
use skyline_apiserver_extens.Common.{
  String, false, ◌≡◌, refl, sym, ap, ◌∙◌, subst, eqb, Bool-cases, ◌⊎◌, inl, inr,
}
use skyline_apiserver_extens.Runtime.{Exn, Result, ok, err, ok-injective}
use skyline_apiserver_extens.World.{
  World, Call, post_project, post_user, M, steps, next, handle, ◌>>=◌, ◌>>◌, pure, raise, ask,
  exchange, try_except,
}
use skyline_apiserver_extens.World
use skyline_apiserver_extens.World.Sends.{
  Sent, Sends, sends, use-Sends, Sends-raise, Sends-pure, Sends-try, Sends-bind, Sends-if,
  Sends-first, Sends-exchange, Retains, Retains-ask, Retains-pure, Retains-exchange, Retains-bind,
}
use skyline_apiserver_extens.Signup.{
  Accounts, Answer, SignupRequest, delete_by, delete_project, delete_user, roll_back, attempt,
  set_quotas, new_user, with_user, with_quotas, with_project, is_empty, if_set,
}

-- A refusal, of the whole or of a part.
abbrev pub Refused : Answer → Type 0
Refused a = a.0 ≡ false

abbrev RefusedIn : {A : Type 0} → Answer ⊎ A → Type 0
RefusedIn (inl a) = Refused a
RefusedIn (inr _) = ⊥

module _ (accounts : Accounts) where
  -- A deletion that ends was requested.
  delete_by-Sends : (P : Unit {0} → Type 0) (c : Call) → Sends P c (delete_by accounts c)
  unfolding delete_by ◌>>◌
  delete_by-Sends P c = Sends-bind P c (ask accounts.get_system_session) (λ _.
      Sends-bind P c (ask accounts.system_token)
        (λ _. Sends-first c P (Sends-exchange _ _ c) (λ _. Retains-pure c tt)))

  delete_by-Retains : (c d : Call) → Retains c (delete_by accounts d)
  unfolding delete_by ◌>>◌
  delete_by-Retains c d = Retains-bind c (Retains-ask c _) (λ _.
      Retains-bind c (Retains-ask c _)
        (λ _. Retains-bind c (Retains-exchange c _ d) (λ _. Retains-pure c tt)))

  if_set-Retains :
      (c : Call) (id : String) {m : M (Unit {0})} → Retains c m → Retains c (if_set accounts id m)
  if_set-Retains c id h = elim (Bool-cases (is_empty id)) [
    | inl e ↦ rw e (Retains-pure c tt)
    | inr e ↦ rw e h
  ]

  if_set-Sends :
      (c : Call) (id : String) {m : M (Unit {0})}
      → is_empty id ≡ false
      → Sends (λ _. Unit {0}) c m
      → Sends (λ _. Unit {0}) c (if_set accounts id m)
  if_set-Sends c id e h = rw e h

  -- The `except` clause deletes the project, and the user, where they were made.
  roll_back-project :
      (user_id project_id : String) (e : Exn)
      → is_empty project_id ≡ false
      → Sends Refused (World.delete_project project_id) (roll_back accounts user_id project_id e)
  unfolding roll_back delete_project ◌>>◌
  roll_back-project user_id project_id e set =
      let c : Call = World.delete_project project_id in
      Sends-bind Refused c (if_set accounts user_id (delete_user accounts user_id)) (λ _.
        Sends-first c Refused (if_set-Sends c project_id set (delete_by-Sends _ c))
          (λ _. Retains-pure c _))

  pub roll_back-user :
      (user_id project_id : String) (e : Exn)
      → is_empty user_id ≡ false
      → Sends Refused (World.delete_user user_id) (roll_back accounts user_id project_id e)
  unfolding roll_back delete_project delete_user ◌>>◌
  roll_back-user user_id project_id e set =
      let c : Call = World.delete_user user_id in
      Sends-first c Refused (if_set-Sends c user_id set (delete_by-Sends _ c)) (λ _.
        Retains-bind c (if_set-Retains c project_id (delete_by-Retains c _))
          (λ _. Retains-pure c _))

  module _ {A : Type 0} (c : Call) (user_id project_id : String) (m : M (Answer ⊎ A))
      (k : A → M Answer) where
    return_or : Answer ⊎ A → M Answer
    return_or (inl answer) = pure answer
    return_or (inr a) = k a

    next-attempt :
        (r : Result (Answer ⊎ A) × World)
        → ((a : Answer ⊎ A) → r.0 ≡ ok a → RefusedIn a → Sent c r.1)
        → ((a : A) → Sends Refused c (k a))
        → (b : Answer) → (next r return_or).0 ≡ ok b
        → Refused b
        → Sent c (next r return_or).1
    unfolding steps return_or
    next-attempt (err x, w) h g b e p = cc
    next-attempt (ok (inl answer), w) h g b e p =
        h (inl answer) refl (ap (λ a. a.0) (ok-injective e) ∙ p)
    next-attempt (ok (inr a), w) h g b e p = use-Sends Refused c (g a) w b e p

    inl-Sends :
        (r : Result Answer × World)
        → ((a : Answer) → r.0 ≡ ok a → Refused a → Sent c r.1)
        → (b : Answer ⊎ A) → (next r (λ a. pure (inl a))).0 ≡ ok b
        → RefusedIn b
        → Sent c (next {B = Answer ⊎ A} r (λ a. pure (inl a))).1
    unfolding steps
    inl-Sends (err x, w) h b e p = cc
    inl-Sends (ok a, w) h b e p = h a refl (subst RefusedIn (sym (ok-injective e)) p)

    -- A part of the `try` and what follows it, where each undoes by that call.
    attempt-Sends :
        Sends RefusedIn c m
        → ((e : Exn) → Sends Refused c (roll_back accounts user_id project_id e))
        → ((a : A) → Sends Refused c (k a))
        → Sends Refused c (attempt accounts user_id project_id m k)
    unfolding attempt ◌>>=◌ return_or
    attempt-Sends h r g = sends λ w.
        next-attempt _
          (use-Sends RefusedIn c
            (Sends-try RefusedIn c h (λ e. sends λ v.
              inl-Sends (roll_back accounts user_id project_id e v) (use-Sends Refused c (r e) v)))
            w)
          g

  pub with_user-Sends :
      (c : Call) (project_id user_id : String)
      → ((e : Exn) → Sends Refused c (roll_back accounts user_id project_id e))
      → Sends Refused c (with_user accounts project_id user_id)
  unfolding with_user ◌>>◌
  with_user-Sends c project_id user_id r =
      attempt-Sends c user_id project_id _ _
        (Sends-bind RefusedIn c _
          (λ _. Sends-bind RefusedIn c _ (λ _. Sends-pure RefusedIn c (inr tt) (λ x. x))))
        r (λ _. Sends-pure Refused c _ (λ x. cc))

  new_user-Sends :
      (c : Call) (user : SignupRequest) (project_id : String)
      → Sends RefusedIn c (new_user accounts user project_id)
  unfolding new_user
  new_user-Sends c user project_id = Sends-bind RefusedIn c _ (λ resp.
      Sends-if RefusedIn c (eqb resp.status_code 201)
        (Sends-bind RefusedIn c _ (λ id. Sends-pure RefusedIn c (inr id) (λ x. x)))
        (Sends-raise RefusedIn c _))

  with_quotas-Sends :
      (user : SignupRequest) (project_id : String)
      → is_empty project_id ≡ false
      → Sends Refused (World.delete_project project_id) (with_quotas accounts user project_id)
  unfolding with_quotas
  with_quotas-Sends user project_id set =
      let c : Call = World.delete_project project_id in
      attempt-Sends c "" project_id _ _ (new_user-Sends c user project_id)
        (λ e. roll_back-project "" project_id e set)
        (λ user_id.
          with_user-Sends c project_id user_id (λ e. roll_back-project user_id project_id e set))

  set_quotas-Sends :
      (project_id : String)
      → Sends RefusedIn (World.delete_project project_id) (set_quotas accounts project_id)
  unfolding set_quotas delete_project ◌>>◌
  set_quotas-Sends project_id =
      let c : Call = World.delete_project project_id in
      Sends-try RefusedIn c
        (Sends-bind RefusedIn c _
          (λ _. Sends-bind RefusedIn c _ (λ _. Sends-pure RefusedIn c (inr tt) (λ x. x))))
        (λ e. Sends-first c RefusedIn (delete_by-Sends _ c) (λ _. Retains-pure c _))

  pub with_project-Sends :
      (user : SignupRequest) (project_id : String)
      → is_empty project_id ≡ false
      → Sends Refused (World.delete_project project_id) (with_project accounts user project_id)
  unfolding with_project
  with_project-Sends user project_id set =
      attempt-Sends (World.delete_project project_id) "" project_id _ _
        (set_quotas-Sends project_id) (λ e. roll_back-project "" project_id e set)
        (λ _. with_quotas-Sends user project_id set)
