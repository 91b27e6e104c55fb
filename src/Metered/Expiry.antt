-- ===== src/Metered/Expiry.antt =====
-- What the expiry of abandoned reservations does.
use mathlib.Core.Path.{subst}
use zyntry_backend.Prelude.{
  sym, ℕ, ◌+◌, String, ◌≡◌, some, false, inl, inr, List, [], ◌∷◌, All, arith, Option-cases, length,
  eq_iff,
}
use zyntry_backend.Rows.{Wallet, BillingReservation, is_reserved}
use zyntry_backend.Session.{Session, Error, ok, err, Result-cases, reservation}
use zyntry_backend.Tables.{lookup-replace, key_of_lookup}
use zyntry_backend.Limits.{Now}
use zyntry_backend.Metered.{write_ledger, release, release_all, expired_ids, expire_reservations}
use zyntry_backend.Metered.Moves.{IsKept, released_row, reservation_in}
use zyntry_backend.Metered.Keeps.{Holds, release-Holds}
use zyntry_backend.Metered.Idempotent.{release_finds}

-- The reservation is there and no longer open.
abbrev pub IsClosed : String → Session → Type 0
IsClosed i s =
    (r : BillingReservation) × (reservation i s.working ≡ some r) × (is_reserved r.status ≡ false)

module _ {P : List Wallet → List BillingReservation → Type 0} (k : IsKept P) where
  release_all-Holds :
      (now : Now) (n : ℕ) (ids : List String) (s : Session)
      → Holds P s
      → Holds P (release_all now n ids s).1
  unfolding release_all
  release_all-Holds now n [] s h = h
  release_all-Holds now n (i ∷ ids) s h =
      ground
        (arith, release-Holds k now i s h, release_all-Holds now (n + 1) ids (release now i s).1)

-- Releasing another reservation leaves a closed one closed.
release_others :
    (now : Now) (k i : String) (s : Session) (r : BillingReservation)
    → reservation i s.working ≡ some r
    → is_reserved r.status ≡ false
    → reservation i (release now k s).1.working ≡ some r
unfolding release write_ledger
release_others now k i s r found closed = elim (Option-cases (reservation k s.working)) [
  | inl missing ↦ ground arith
  | inr (r', found') ↦
      let key = key_of_lookup (λ x. x.id) k s.working.reservations found' in
      let by_id : reservation_in r'.id s.working.reservations ≡ some r' = simp key found' in
      ground (
        arith,
        lookup-replace (λ x. x.id) (released_row r') s.working.reservations i by_id,
        eq_iff r'.id i,
        key,
      )
]

release_all-closed_stays :
    (now : Now) (n : ℕ) (ids : List String) (i : String) (s : Session) (r : BillingReservation)
    → reservation i s.working ≡ some r
    → is_reserved r.status ≡ false
    → reservation i (release_all now n ids s).1.working ≡ some r
unfolding release_all
release_all-closed_stays now n [] i s r found closed = found
release_all-closed_stays now n (k ∷ ids) i s r found closed = ground (
  arith,
  release_others now k i s r found closed,
  release_all-closed_stays now (n + 1) ids i (release now k s).1 r,
)

release_all_step :
    (now : Now) (n : ℕ) (i : String) (ids : List String) (s : Session) (r : BillingReservation)
    → (release now i s).0 ≡ ok r
    → release_all now n (i ∷ ids) s ≡ release_all now (n + 1) ids (release now i s).1
unfolding release_all
release_all_step now n i ids s r h = ground arith

release_all_raises :
    (now : Now) (n : ℕ) (i : String) (ids : List String) (s : Session) (e : Error)
    → (release now i s).0 ≡ err e
    → (release_all now n (i ∷ ids) s).0 ≡ err e
unfolding release_all
release_all_raises now n i ids s e h = ground arith

release_all-closes :
    (now : Now) (n : ℕ) (ids : List String) (s : Session) {m : ℕ}
    → (release_all now n ids s).0 ≡ ok m
    → (m ≡ n + length ids) × All (λ i. IsClosed i (release_all now n ids s).1) ids
release_all-closes now n [] s h = unfold release_all in (ground arith, tt)
release_all-closes now n (i ∷ ids) s {m = m} h = elim (Result-cases (release now i s).0) [
  | inr (e, raised) ↦ cc (release_all_raises now n i ids s e raised)
  | inl (r, done) ↦
      let step = release_all_step now n i ids s r done in
      let (found, closed) = release_finds now i s done in
      let rest =
        release_all-closes now (n + 1) ids (release now i s).1 {m = m} (ground (arith, step)) in
      (
        omega (arith, rest.0),
        (
          (
            r,
            rw step (release_all-closed_stays now (n + 1) ids i (release now i s).1 r found closed),
            closed,
          ),
          subst (λ x. All (λ k. IsClosed k x.1) ids) (sym step) rest.1,
        ),
      )
]

-- When the expiry succeeds it has closed every reservation that it selected, and returns their number; and it keeps every property of the wallets and
-- reservations that the three moves keep.
pub expire_reservations-closes :
    {P : List Wallet → List BillingReservation → Type 0} (k : IsKept P) (now : Now) (limit : ℕ)
    (s : Session) {m : ℕ}
    → Holds P s
    → (expire_reservations now limit s).0 ≡ ok m
    → Holds P (expire_reservations now limit s).1
      × (m ≡ length (expired_ids limit now.at s.working))
      × All
          (λ i. IsClosed i (expire_reservations now limit s).1)
          (expired_ids limit now.at s.working)
unfolding expire_reservations
expire_reservations-closes k now limit s h done =
    let closes = release_all-closes now 0 (expired_ids limit now.at s.working) s done in
    (
      release_all-Holds k now 0 (expired_ids limit now.at s.working) s h,
      omega (arith, closes.0),
      closes.1,
    )
