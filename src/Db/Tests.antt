-- ===== src/Db/Tests.antt =====
-- The theorems on the database at concrete rows.
use skyline_apiserver_extens.Db.Refinement.{put, remove, run_db, run_store, view, settings-refine}
use skyline_apiserver_extens.Common.{refl, ◌≡◌, true, arith, [], ◌∷◌}
use skyline_apiserver_extens.Common.Int.{pos}
use skyline_apiserver_extens.Runtime.{null}
use skyline_apiserver_extens.Db.{check_token, revoke_token, purge_revoked_token}
use skyline_apiserver_extens.Db.Tokens.{check_token-purge-revoke}
use skyline_apiserver_extens.Db.Settings.{IsKeyed}
use skyline_apiserver_extens.Samples.{db}

check_token-purge-revoke_example :
    check_token "t2" (purge_revoked_token (pos 7) (revoke_token "t2" (pos 9) db)) ≡ true
check_token-purge-revoke_example = check_token-purge-revoke "t2" (pos 9) (pos 7) db (omega arith)

settings-refine_example :
    (view (run_db (put "smtp_host" null ∷ remove "smtp_port" ∷ []) db)
      ≡ run_store (put "smtp_host" null ∷ remove "smtp_port" ∷ []) (view db))
    × IsKeyed (run_db (put "smtp_host" null ∷ remove "smtp_port" ∷ []) db)
settings-refine_example =
    settings-refine (put "smtp_host" null ∷ remove "smtp_port" ∷ []) db (refl, tt)
