-- ===== src/Db/Status.antt =====
-- The values of the column `email_status`: none | sent | extended | deleted.
use skyline_apiserver_extens.Common.{Bool, true, false}

pub data EmailStatus : Type 0 where
  none sent extended deleted : EmailStatus

abbrev pub is_none : EmailStatus → Bool
is_none none = true
is_none _ = false

abbrev pub is_sent : EmailStatus → Bool
is_sent sent = true
is_sent _ = false

abbrev pub is_deleted : EmailStatus → Bool
is_deleted deleted = true
is_deleted _ = false
