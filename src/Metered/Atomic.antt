-- ===== src/Metered/Atomic.antt =====
-- A call that raises commits nothing.
use zyntry_backend.Prelude.{String, ◌≡◌, ◌⊎◌, inl, Option, none, some, arith}
use zyntry_backend.Money.{Decimal}
use zyntry_backend.Rows.{TransactionType}
use zyntry_backend.Session.{Db, Session, Error, err}
use zyntry_backend.Limits.{Now}
use zyntry_backend.Metered.{
  ReserveRequest, add_reservation, write_ledger, reserve, reserve_new, settle, settle_reserved,
  release,
}
use zyntry_backend.Metered.Calls.{Call, call, raced_by}

-- What is committed after a call: what was before, or what a concurrent transaction committed.
abbrev pub CommitsNothing : Option Db → Db → Db → Type 0
CommitsNothing raced before after = (after ≡ before) ⊎ (raced ≡ some after)

reserve-atomic :
    (req : ReserveRequest) (now : Now) (i j : String) (raced : Option Db) (s : Session) {e : Error}
    → (reserve req now i j raced s).0 ≡ err e
    → CommitsNothing raced s.committed (reserve req now i j raced s).1.committed
unfolding reserve reserve_new add_reservation write_ledger
reserve-atomic req now i j none s h = inl (ground arith)
reserve-atomic req now i j (some db) s h = ground arith

release-atomic :
    (now : Now) (i : String) (s : Session) {e : Error}
    → (release now i s).0 ≡ err e
    → (release now i s).1.committed ≡ s.committed
unfolding release write_ledger
release-atomic now i s h = ground arith

settle-atomic :
    (now : Now) (i : String) (a p : Decimal) (t : TransactionType) (s : Session) {e : Error}
    → (settle now i a p t s).0 ≡ err e
    → (settle now i a p t s).1.committed ≡ s.committed
unfolding settle settle_reserved write_ledger
settle-atomic now i a p t s h = ground arith

-- A reserve, settle or release that raises commits nothing of its own: what is committed is what was
-- before it, or what the transaction committed that took its key.
pub call-atomic :
    (c : Call) (s : Session) {e : Error}
    → (call c s).0 ≡ err e
    → CommitsNothing (raced_by c) s.committed (call c s).1.committed
unfolding call
call-atomic (Call.reserve req now i j raced) s h = reserve-atomic req now i j raced s h
call-atomic (Call.settle now i a p t) s h = inl (settle-atomic now i a p t s h)
call-atomic (Call.release now i) s h = inl (release-atomic now i s h)
