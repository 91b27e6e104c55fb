-- ===== src/Context/Trim.antt =====
-- The first loop of `assemble`: what it drops and what it keeps.
use zyntry_backend.Prelude.{
  ℕ, zero, suc, ◌+◌, ◌≤◌, ◌≡◌, refl, Option, none, some, List, [], ◌∷◌, ltb, arith, length, keep,
  Option-cases, Bool-cases, ◌∙◌, inl, inr, ◌⊎◌,
}
use zyntry_backend.Tokens.{Message, estimate_messages}
use zyntry_backend.Context.{is_system, remove_oldest, trim}

-- The latest message.
abbrev pub last : List Message → Option Message
last [] = none
last (m ∷ []) = some m
last (m ∷ n ∷ ms) = last (n ∷ ms)

record Removed (ms rest : List Message) : Type 0 where
  systems : keep is_system rest ≡ keep is_system ms
  latest : last rest ≡ last ms
  one : suc (length rest) ≡ length ms

remove_oldest-Removed :
    (ms : List Message) {rest : List Message} → remove_oldest ms ≡ some rest → Removed ms rest
unfolding remove_oldest
remove_oldest-Removed [] h = absurd (ground arith)
remove_oldest-Removed (m ∷ []) h = absurd (ground arith)
remove_oldest-Removed (m ∷ n ∷ []) {rest = rest} h = ground arith
remove_oldest-Removed (m ∷ n ∷ o ∷ ms) {rest = rest} h =
    elim (Option-cases (remove_oldest (n ∷ o ∷ ms))) [
      | inl stuck ↦ ground arith
      | inr (r, left) ↦
          let next = remove_oldest-Removed (n ∷ o ∷ ms) {rest = r} left in
          ground (arith, next.systems, next.latest, next.one)
    ]

-- Trimming keeps the system messages in their order and the latest message, and counts what it
-- drops; it stops where the rest fits, or where nothing but system messages and the latest is left.
pub record Trimmed (working_input : ℕ) (ms : List Message) (result : List Message × ℕ)
    : Type 0 where
  pub systems : keep is_system result.0 ≡ keep is_system ms
  pub latest : last result.0 ≡ last ms
  pub dropped : result.1 + length result.0 ≡ length ms
  pub ends : (estimate_messages result.0 ≤ working_input) ⊎ (remove_oldest result.0 ≡ none)

trim-Trimmed :
    (fuel working_input : ℕ) (ms : List Message)
    → length ms ≤ fuel
    → Trimmed working_input ms (trim fuel working_input ms)
unfolding trim remove_oldest
trim-Trimmed zero w [] h = record {
  systems = refl;
  latest = refl;
  dropped = omega arith;
  ends = inr refl;
}
trim-Trimmed zero w (m ∷ ms) h = absurd (omega (arith, h))
trim-Trimmed (suc fuel) w ms h = elim (Bool-cases (ltb w (estimate_messages ms))) [
  | inl over ↦ elim (Option-cases (remove_oldest ms)) [
    | inl stuck ↦
        let step : trim (suc fuel) w ms ≡ (ms, 0) = ground arith in
        simp step
          (record { systems = refl; latest = refl; dropped = omega arith; ends = inr stuck })
    | inr (rest, left) ↦
        let removed = remove_oldest-Removed ms left in
        let next = trim-Trimmed fuel w rest (omega (arith, h, removed.one)) in
        let step : trim (suc fuel) w ms ≡ ((trim fuel w rest).0, suc (trim fuel w rest).1) =
          ground arith in
        simp step (record {
          systems = next.systems ∙ removed.systems;
          latest = next.latest ∙ removed.latest;
          dropped = omega (arith, next.dropped, removed.one);
          ends = next.ends;
        })
  ]
  | inr fits ↦
      let step : trim (suc fuel) w ms ≡ (ms, 0) = ground arith in
      simp step
        (record { systems = refl; latest = refl; dropped = omega arith; ends = inl (ground arith) })
]

-- What the trimming loop of `assemble` leaves, with as many turns as there are messages: it ends, and
-- with `Trimmed` keeps each system message in its order and the latest message, reports how many it
-- dropped, and leaves what fits the budget or nothing that it may drop.
pub trim-IsTrimmed :
    (working_input : ℕ) (ms : List Message)
    → Trimmed working_input ms (trim (length ms) working_input ms)
trim-IsTrimmed w ms = trim-Trimmed (length ms) w ms (omega arith)
