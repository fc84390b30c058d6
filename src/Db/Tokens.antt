-- ===== src/Db/Tokens.antt =====
-- Revoked tokens: what `check_token` answers after a revocation and after a purge.
use skyline_apiserver_extens.Common.{
  String, ◌≡◌, refl, ◌∙◌, Bool, true, false, not, ◌&&◌, ◌||◌, List, [], ◌∷◌, ◌++◌, ◌==◌, ltb,
  eq_refl, arith, length, filter, any,
}
use skyline_apiserver_extens.Common.Int.{ℤ, pos, ◌-ℤ◌, ◌≤ℤ◌, ltb_ℤ}
use skyline_apiserver_extens.Common.Table.{delete_where}
use skyline_apiserver_extens.Db.{Db, RevokedToken, check_token, revoke_token, purge_revoked_token}

-- A count above zero is a row that fits.
pub count-any {ℓ} : {A : Type ℓ} (p : A → Bool) (t : List A) → ltb 0 (length (filter p t)) ≡ any p t
count-any p [] = ground arith
count-any p (x ∷ xs) = ground (arith, count-any p xs)

any-append {ℓ} : {A : Type ℓ} (p : A → Bool) (s t : List A) → any p (s ++ t) ≡ (any p s || any p t)
any-append p [] t = refl
any-append p (x ∷ s) t = ground (arith, any-append p s t)

any-delete_where {ℓ} :
    {A : Type ℓ} (p q : A → Bool) (t : List A)
    → any p (delete_where q t) ≡ any (λ x. p x && not (q x)) t
any-delete_where p q [] = refl
any-delete_where p q (x ∷ t) = ground (arith, any-delete_where p q t)

-- Revoking a token adds exactly that token to those that are refused.
pub check_token-revoke_token :
    (j k : String) (e : ℤ) (db : Db)
    → check_token j (revoke_token k e db) ≡ (check_token j db || (k == j))
unfolding check_token revoke_token
check_token-revoke_token j k e db = ground (
  arith,
  count-any (λ r. r.uuid == j) db.revoked_token,
  count-any (λ r. r.uuid == j) (revoke_token k e db).revoked_token,
  any-append (λ r. r.uuid == j) db.revoked_token (record { uuid = k; expire = e } ∷ []),
)

-- After a purge exactly the tokens are refused that have a row which expires at `time - 1` or later.
pub check_token-purge_revoked_token :
    (j : String) (time : ℤ) (db : Db)
    → check_token j (purge_revoked_token time db)
      ≡ any (λ r. (r.uuid == j) && not (ltb_ℤ r.expire (time -ℤ pos 1))) db.revoked_token
unfolding check_token purge_revoked_token
check_token-purge_revoked_token j time db =
    count-any (λ r. r.uuid == j) (purge_revoked_token time db).revoked_token
    ∙ any-delete_where (λ r. r.uuid == j) (λ r. ltb_ℤ r.expire (time -ℤ pos 1)) db.revoked_token

abbrev is_live : String → ℤ → RevokedToken → Bool
is_live j time r = (r.uuid == j) && not (ltb_ℤ r.expire (time -ℤ pos 1))

not_before : (e time : ℤ) → time ≤ℤ e → ltb_ℤ e (time -ℤ pos 1) ≡ false
unfolding ◌-ℤ◌
not_before e time h = ground arith

last_is_live :
    (k : String) (e time : ℤ) (db : Db)
    → time ≤ℤ e
    → (any (is_live k time) db.revoked_token
        || ((k == k) && not (ltb_ℤ e (time -ℤ pos 1)) || false))
      ≡ true
last_is_live k e time db h = ground (arith, eq_refl k, not_before e time h)

-- A token that was revoked and has not expired by `time` is refused after any later purge at `time`.
pub check_token-purge-revoke :
    (k : String) (e time : ℤ) (db : Db)
    → time ≤ℤ e
    → check_token k (purge_revoked_token time (revoke_token k e db)) ≡ true
unfolding revoke_token
check_token-purge-revoke k e time db h =
    check_token-purge_revoked_token k time (revoke_token k e db)
    ∙ any-append (is_live k time) db.revoked_token (record { uuid = k; expire = e } ∷ [])
    ∙ last_is_live k e time db h
