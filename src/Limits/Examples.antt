-- ===== src/Limits/Examples.antt =====
-- A check against a daily limit.
use zyntry_backend.Prelude.{◌≡◌, ◌↔◌, none}
use zyntry_backend.Prelude.Int.{pos}
use zyntry_backend.Samples.{db, now}
use zyntry_backend.Wallets.{user_owner}
use zyntry_backend.Limits.{Scope, scope_id, check}
use zyntry_backend.Limits.Sound.{WithinScope, check-none_iff}

check-none_iff_example : (check (pos 50000) (user_owner "u") now none db ≡ none) ↔ (
    (s : Scope)
    → WithinScope (pos 50000) (user_owner "u") now none db s (scope_id s (user_owner "u")))
check-none_iff_example = check-none_iff (pos 50000) (user_owner "u") now none db
