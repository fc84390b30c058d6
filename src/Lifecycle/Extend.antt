-- ===== src/Lifecycle/Extend.antt =====
-- The two handlers of api/v1/lifecycle.py on every branch, and what an extension means later.
use skyline_apiserver_extens.Common.{
  ℕ, String, ◌≡◌, refl, ap, ◌∙◌, ◌↔◌, true, false, Option, none, some, [], ◌==◌, eq_iff, eq_refl,
  arith, if◌then◌else◌, ◌⊎◌,
}
use skyline_apiserver_extens.Common.Int.{ℤ, pos, ◌+ℤ◌, ◌-ℤ◌, ◌*ℤ◌, ◌≤ℤ◌, int_laws}
use skyline_apiserver_extens.Runtime.{Result, ok, err, http}
use skyline_apiserver_extens.Db.{
  EmailStatus, is_deleted, InstanceLifecycle, mark_extended, get_instance_lifecycle,
  update_instance_lifecycle_extended,
}
use skyline_apiserver_extens.Db.Lifecycles.{IsTracked, get-extended, extended-IsTracked}
use skyline_apiserver_extens.World.{World, steps}
use skyline_apiserver_extens.Env.{Env}
use skyline_apiserver_extens.Lifecycle.{
  ExtendResponse, LifecycleStatusResponse, new_expiry, get_lifecycle_status,
  extend_instance_lifecycle,
}
use skyline_apiserver_extens.Scheduler.Rounds.{rounds, rounds-IsTracked, extended_forever}
use skyline_apiserver_extens.World.Makes.{Since}
use skyline_apiserver_extens.Scheduler.Spares.{Spares, rounds-Since}
use skyline_apiserver_extens.Scheduler.Passes.{PassedOver, extended-PassedOver}

extend_run :
    (id : String) (w : World) (row : InstanceLifecycle)
    → get_instance_lifecycle id w.db ≡ some row
    → is_deleted row.email_status ≡ false
    → extend_instance_lifecycle id w ≡ (
      ok (record { instance_id = id; new_expires_at = new_expiry row w.clock }),
      record w { db = update_instance_lifecycle_extended id (new_expiry row w.clock) w.db },
    )
unfolding extend_instance_lifecycle steps
extend_run id w row h d = ground arith

month : pos 30 *ℤ pos 86400 ≡ pos 2592000
unfolding ◌*ℤ◌
month = refl

-- The answer of a granted extension, and the database after it.
abbrev pub Granted : String → World → InstanceLifecycle → Result ExtendResponse × World → Type 0
Granted id w row (r, w') =
    (new : ℤ) × (r ≡ ok (record { instance_id = id; new_expires_at = new }))
    × (w.clock +ℤ pos 2592000 ≤ℤ new)
    × (row.expires_at +ℤ pos 2592000 ≤ℤ new)
    × ((new ≡ w.clock +ℤ pos 2592000) ⊎ (new ≡ row.expires_at +ℤ pos 2592000))
    × ((j : String)
        → get_instance_lifecycle j w'.db
          ≡ (if j == id then some (mark_extended new row) else get_instance_lifecycle j w.db))

abbrev ByStatus : EmailStatus → Type 0 → Type 0 → Type 0
ByStatus EmailStatus.deleted refused granted = refused
ByStatus _ refused granted = granted

-- What the handler is to answer, by the row of the instance.
abbrev pub Answer :
    String → World → Option InstanceLifecycle → Result ExtendResponse × World → Type 0
Answer id w none out = out ≡ (err (http 404 "해당 인스턴스의 라이프사이클 정보가 없습니다."), w)
Answer id w (some row) out =
    ByStatus row.email_status (out ≡ (err (http 409 "이미 삭제된 인스턴스입니다."), w)) (Granted id w row out)

new_expiry_bounds :
    (row : InstanceLifecycle) (now : ℤ)
    → (now +ℤ pos 2592000 ≤ℤ new_expiry row now)
      × (row.expires_at +ℤ pos 2592000 ≤ℤ new_expiry row now)
      × ((new_expiry row now ≡ now +ℤ pos 2592000)
          ⊎ (new_expiry row now ≡ row.expires_at +ℤ pos 2592000))
new_expiry_bounds row now = rw month (grind int_laws)

extended_rows :
    (id : String) (w : World) (row : InstanceLifecycle) (new : ℤ) (j : String)
    → get_instance_lifecycle id w.db ≡ some row
    → get_instance_lifecycle j (update_instance_lifecycle_extended id new w.db)
      ≡ (if j == id then some (mark_extended new row) else get_instance_lifecycle j w.db)
extended_rows id w row new j h = ground (arith, eq_iff j id, get-extended j id w.db new)

granted :
    (id : String) (w : World) (row : InstanceLifecycle)
    → get_instance_lifecycle id w.db ≡ some row
    → is_deleted row.email_status ≡ false
    → Granted id w row (extend_instance_lifecycle id w)
granted id w row h d = rw (extend_run id w row h d) (
  new_expiry row w.clock,
  refl,
  (new_expiry_bounds row w.clock).0,
  (new_expiry_bounds row w.clock).1,
  (new_expiry_bounds row w.clock).2,
  λ j. extended_rows id w row (new_expiry row w.clock) j h,
)

refused :
    (id : String) (w : World) (row : InstanceLifecycle)
    → get_instance_lifecycle id w.db ≡ some row
    → is_deleted row.email_status ≡ true
    → extend_instance_lifecycle id w ≡ (err (http 409 "이미 삭제된 인스턴스입니다."), w)
unfolding extend_instance_lifecycle steps
refused id w row h d = ground arith

ByStatus-intro :
    (s : EmailStatus) {A B : Type 0}
    → (is_deleted s ≡ true → A)
    → (is_deleted s ≡ false → B)
    → ByStatus s A B
ByStatus-intro EmailStatus.deleted a b = a refl
ByStatus-intro EmailStatus.none a b = b refl
ByStatus-intro EmailStatus.sent a b = b refl
ByStatus-intro EmailStatus.extended a b = b refl

not_found :
    (id : String) (w : World)
    → get_instance_lifecycle id w.db ≡ none
    → extend_instance_lifecycle id w ≡ (err (http 404 "해당 인스턴스의 라이프사이클 정보가 없습니다."), w)
unfolding extend_instance_lifecycle steps
not_found id w h = ground arith

answer :
    (id : String) (w : World) (o : Option InstanceLifecycle)
    → get_instance_lifecycle id w.db ≡ o
    → Answer id w o (extend_instance_lifecycle id w)
answer id w none h = not_found id w h
answer id w (some row) h = ByStatus-intro row.email_status (refused id w row h) (granted id w row h)

-- The extension handler on every branch. An instance with no row is answered by 404, and one whose
-- row is marked as deleted by 409; neither changes anything. Otherwise the answer's new time is at
-- least thirty days after now and after the old time, and thirty days after one of them; the row of
-- the instance is marked as extended to that time, and every other row is as before.
pub extend_instance_lifecycle_lem :
    (id : String) (w : World)
    → Answer id w (get_instance_lifecycle id w.db) (extend_instance_lifecycle id w)
extend_instance_lifecycle_lem id w = answer id w (get_instance_lifecycle id w.db) refl

extended_row :
    (id : String) (w : World) (row : InstanceLifecycle)
    → get_instance_lifecycle id w.db ≡ some row
    → get_instance_lifecycle id
        (update_instance_lifecycle_extended id (new_expiry row w.clock) w.db)
      ≡ some (mark_extended (new_expiry row w.clock) row)
extended_row id w row h =
    extended_rows id w row (new_expiry row w.clock) id h
    ∙ ap
        (λ b.
          if b
          then some (mark_extended (new_expiry row w.clock) row)
          else get_instance_lifecycle id w.db)
        (eq_refl id)

-- After a granted extension and any number of rounds of the scheduler, whatever the mail server and
-- the cloud answer, the row is as the extension left it, and no request to delete the instance was
-- sent. The run of the next round passes over the row, however late it is and whatever project is
-- exempt: where its first loop, which warns, meets the row, it does nothing, and its second loop,
-- which deletes, does not meet it.
pub extend_exempts :
    (env : Env) (subject : String → String) (body : String → String → String → String → String)
    (n : ℕ) (id : String) (w : World) (row : InstanceLifecycle)
    → IsTracked w.db
    → get_instance_lifecycle id w.db ≡ some row
    → is_deleted row.email_status ≡ false
    → let after = (rounds env subject body n (extend_instance_lifecycle id w).1).1 in
      (get_instance_lifecycle id after.db ≡ some (mark_extended (new_expiry row w.clock) row))
      × Since (Spares id) w.calls after
      × PassedOver env subject body id after
extend_exempts env subject body n id w row u h d = rw (extend_run id w row h d) (
    let granted : World = record w {
      db = update_instance_lifecycle_extended id (new_expiry row w.clock) w.db;
    } in
    let tracked = extended-IsTracked id w.db u (new_expiry row w.clock) in
    let kept =
      extended_forever env subject body n granted id (mark_extended (new_expiry row w.clock) row)
        tracked (extended_row id w row h) refl in
    (
      kept,
      rounds-Since env id subject body n (mark_extended (new_expiry row w.clock) row) w.calls
          granted (tracked, extended_row id w row h, refl) ([], refl, tt),
      extended-PassedOver env subject body id (rounds env subject body n granted).1
          (mark_extended (new_expiry row w.clock) row)
          (rounds-IsTracked env subject body n granted tracked) kept refl,
    ))

remaining :
    (id : String) (w : World) (s : LifecycleStatusResponse)
    → (get_lifecycle_status id w).0 ≡ ok s
    → s.remaining_seconds ≡ s.expires_at -ℤ w.clock
unfolding get_lifecycle_status steps
remaining id w s h = ground arith

-- Where a status is answered, its seconds are at most zero exactly if the time of the row is over,
-- which is the test by which the scheduler lists a row as expiring.
pub status_remaining :
    (id : String) (w : World) (s : LifecycleStatusResponse)
    → (get_lifecycle_status id w).0 ≡ ok s
    → (s.remaining_seconds ≤ℤ pos 0) ↔ (s.expires_at ≤ℤ w.clock)
status_remaining id w s h =
    (λ k. omega (int_laws, leftover k), λ k. rw (remaining id w s h) (omega int_laws))
  where
    leftover : s.remaining_seconds ≤ℤ pos 0 → s.expires_at -ℤ w.clock ≤ℤ pos 0
    leftover k = rw (remaining id w s h) at k
