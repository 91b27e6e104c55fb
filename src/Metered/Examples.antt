-- ===== src/Metered/Examples.antt =====
-- The engine on concrete tables.
use zyntry_backend.Prelude.{
  ◌≡◌, refl, none, some, false, inl, inr, List, [], ◌∷◌, All, arith, length, str_eq, Bool-cases,
}
use zyntry_backend.Prelude.Int.{pos, ◌+ℤ◌, ◌-ℤ◌, sum_of, ◌*ℤ◌}
use zyntry_backend.Rows.{ai_inference, BillingReservation, Wallet, reserved, settled}
use zyntry_backend.Money.{money, round_up, ceil_div}
use zyntry_backend.Limits.{Now, check, limits_of, projected, Scope, scope_id}
use zyntry_backend.Limits.Sound.{WithinScope}
use zyntry_backend.Session.{reservation_by_key}
use zyntry_backend.Metered.Outcomes.{
  reserve_new-within_limits, settle_records, IsSettled, IsCharged,
}
use zyntry_backend.Metered.Expiry.{IsClosed, expire_reservations-closes}
use zyntry_backend.Session.{Db, Session, ok, err, no_result_found, wallet, reservation}
use zyntry_backend.Tables.{replace}
use zyntry_backend.Prelude.Lists.{sort}
use zyntry_backend.Samples.{wallet_row, db, session, now, three, reserve_five}
use zyntry_backend.Metered.{
  reserve, settle, release, new_reservation, write_ledger, add_reservation, reserve_new,
  settle_reserved, reserved_balance, negative_balance, reconcile_wallet, held, expire_reservations,
  expired_ids,
}
use zyntry_backend.Wallets.Operations.{bill_operation}
use zyntry_backend.Metered.Calls.{Call, call, run}
use zyntry_backend.Metered.Keeps.{Holds}
use zyntry_backend.Metered.Consistent.{IsConsistent, IsConsistent-kept}
use zyntry_backend.Metered.Conserved.{Hold, total_funds}
use zyntry_backend.Metered.Solvent.{IsSolvent}
use zyntry_backend.Metered.Trace.{run-IsConsistent, run-conserves, run-IsSolvent}
use zyntry_backend.Metered.Reconcile.{mentions, run-reconciles}
use zyntry_backend.Metered.Atomic.{CommitsNothing, call-atomic}
use zyntry_backend.Metered.Idempotent.{reserve-again, closing-final}

abbrev calls : List Call
calls =
    Call.reserve reserve_five now "r" "w9" none
    ∷ Call.settle now "r" three three ai_inference
    ∷ Call.release now "r"
    ∷ []

consistent : IsConsistent db.wallets db.reservations
unfolding held sum_of
consistent = record {
  wallet_ids = (refl, tt);
  reservation_ids = tt;
  owned = tt;
  backed = λ i w found. elim (Bool-cases (str_eq "w" i)) [
    | inl same ↦ ground arith
    | inr other ↦ absurd (ground arith)
  ];
}

solvent : IsSolvent db.wallets db.reservations
solvent = record { consistent = consistent; balances = (omega arith, tt); amounts = tt }

run-IsConsistent_example : Holds IsConsistent (run calls session)
run-IsConsistent_example =
    run-IsConsistent calls session ((refl, refl), tt, (tt, tt, (tt, tt, tt)))
      (record { working = consistent; committed = consistent })

run-IsSolvent_example : Holds IsSolvent (run calls session)
run-IsSolvent_example =
    run-IsSolvent calls session ((refl, refl), tt, (tt, tt, (tt, tt, tt)))
      (record { working = solvent; committed = solvent })

holds_all : Hold (pos 1000000) db.wallets db.reservations
unfolding total_funds sum_of ◌+ℤ◌
holds_all = record { wallet_ids = (refl, tt); total = refl }

run-conserves_example :
    (total_funds (run calls session).working.wallets ≡ pos 1000000)
    × (total_funds (run calls session).committed.wallets ≡ pos 1000000)
run-conserves_example =
    run-conserves (pos 1000000) calls session ((refl, refl), tt, (tt, tt, (tt, tt, tt)))
      (record { working = holds_all; committed = holds_all })

run-reconciles_example :
    let found = (reconcile_wallet now "u" (run calls session).committed).mismatches in
    (mentions reserved_balance found ≡ false) × (mentions negative_balance found ≡ false)
run-reconciles_example =
    run-reconciles calls session now "u" ((refl, refl), tt, (tt, tt, (tt, tt, tt)))
      (record { working = solvent; committed = solvent })

abbrev made : BillingReservation
made = new_reservation reserve_five now "r" wallet_row

abbrev after_reserve : Session
after_reserve = (reserve reserve_five now "r" "w9" none session).1

reserve_returns : (reserve reserve_five now "r" "w9" none session).0 ≡ ok made
unfolding reserve money round_up ◌*ℤ◌ ceil_div reserve_new check limits_of projected ◌+ℤ◌ sum_of
    add_reservation write_ledger
reserve_returns = refl

reserve-again_example :
    reserve (record reserve_five { amount = three }) now "r2" "w8" none after_reserve
    ≡ (ok made, after_reserve)
reserve-again_example =
    reserve-again reserve_five (record reserve_five { amount = three }) now now "r" "w9" "r2" "w8"
      none none session reserve_returns refl (omega arith)

abbrev settle_three : Call
settle_three = Call.settle now "r" three three ai_inference

abbrev settled_three : BillingReservation
settled_three = record made {
  settled_amount = some (pos 30000);
  released_amount = pos 20000;
  status = settled;
}

settle_returns : (call settle_three after_reserve).0 ≡ ok settled_three
unfolding call settle settle_reserved ◌-ℤ◌ reserve money round_up ◌*ℤ◌ ceil_div reserve_new check
    limits_of projected ◌+ℤ◌ sum_of add_reservation write_ledger replace
settle_returns = refl

closing-final_example :
    call (Call.release now "r") (call settle_three after_reserve).1
    ≡ (ok settled_three, (call settle_three after_reserve).1)
closing-final_example =
    closing-final "r" settle_three (Call.release now "r") after_reserve refl refl settle_returns

found_made : reservation "r" after_reserve.working ≡ some made
unfolding reserve money round_up ◌*ℤ◌ ceil_div reserve_new check limits_of projected ◌+ℤ◌ sum_of
    add_reservation write_ledger
found_made = refl

abbrev left_wallet : Wallet
left_wallet = record wallet_row { balance = pos 950000; reserved_balance = pos 50000 }

left_owner : wallet "w" after_reserve.working ≡ some left_wallet
unfolding ◌-ℤ◌ reserve money round_up ◌*ℤ◌ ceil_div reserve_new check limits_of projected ◌+ℤ◌
    sum_of add_reservation write_ledger replace
left_owner = refl

settle_records_example :
    let after = (settle now "r" three three ai_inference after_reserve).1.committed in
    (reservation "r" after ≡ some settled_three)
    × IsSettled made settled_three (money three)
    × ((w' : Wallet) × (wallet "w" after ≡ some w') × IsCharged made left_wallet w' (money three))
unfolding call
settle_records_example =
    settle_records now "r" three three ai_inference after_reserve {r = made} found_made refl
      {w = left_wallet} left_owner settle_returns

raises : (call (Call.release now "r") session).0 ≡ err no_result_found
unfolding call release
raises = refl

call-atomic_example : CommitsNothing none db (call (Call.release now "r") session).1.committed
call-atomic_example = call-atomic (Call.release now "r") session raises

reserve_new-within_limits_example :
    (made.status ≡ reserved)
    × (made.estimated_amount ≡ money reserve_five.amount)
    × (reservation_by_key reserve_five.idempotency_key after_reserve.committed ≡ some made)
    × ((sc : Scope)
        → WithinScope
            (money reserve_five.amount)
            reserve_five.owner
            now
            none
            db
            sc
            (scope_id sc reserve_five.owner))
reserve_new-within_limits_example =
    reserve_new-within_limits reserve_five now "r" "w9" session refl refl reserve_returns

abbrev raced_db : Db
raced_db = record db { reservations = made ∷ [] }

returns_theirs : (reserve reserve_five now "r2" "w9" (some raced_db) session).0 ≡ ok made
unfolding reserve money round_up ◌*ℤ◌ ceil_div reserve_new check limits_of projected ◌+ℤ◌ sum_of
    add_reservation write_ledger
returns_theirs = refl

abbrev late : Now
late = record { at = 10000000000; month_start = 0 }

abbrev after_expiry : Session
after_expiry = (expire_reservations late 100 after_reserve).1

expiry_returns : (expire_reservations late 100 after_reserve).0 ≡ ok 1
unfolding expire_reservations release reserve money round_up ◌*ℤ◌ ceil_div reserve_new check
    limits_of projected ◌+ℤ◌ sum_of add_reservation write_ledger replace sort
expiry_returns = refl

made-Holds : Holds IsConsistent after_reserve
unfolding run call
made-Holds =
    run-IsConsistent (Call.reserve reserve_five now "r" "w9" none ∷ []) session
      ((refl, refl), tt, tt) (record { working = consistent; committed = consistent })

expire_reservations-closes_example :
    Holds IsConsistent after_expiry
    × (1 ≡ length (expired_ids 100 late.at after_reserve.working))
    × All (λ i. IsClosed i after_expiry) (expired_ids 100 late.at after_reserve.working)
expire_reservations-closes_example =
    expire_reservations-closes IsConsistent-kept late 100 after_reserve made-Holds expiry_returns

bill_returns :
    (bill_operation reserve_five three three ai_inference now "r" "w9" none session).0
    ≡ ok settled_three
unfolding bill_operation settle settle_reserved ◌-ℤ◌ reserve money round_up ◌*ℤ◌ ceil_div
    reserve_new check limits_of projected ◌+ℤ◌ sum_of add_reservation write_ledger replace
bill_returns = refl
