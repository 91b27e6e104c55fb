-- ===== src/Routing/Attempts.antt =====
-- What an invocation attempts, and what its caller sees.
use zyntry_backend.Prelude.{
  ℕ, String, ◌≡◌, refl, ap, Option, none, some, Bool, true, false, List, [], ◌∷◌, ◌++◌, All, arith,
  map, Bool-cases, inl, inr, ◌⊎◌,
}
use zyntry_backend.Health.{ProviderHealthState, record_failure}
use zyntry_backend.Routing.{Catalog, ModelCandidate}
use zyntry_backend.Routing.Invoke.{
  Service, Reply, AttemptStatus, started, completed, failed, Attempt, Run, Outcome, skipped,
  answered, broken, outcome, attempt_of, shown_of, is_silent, text_of, attempt_each,
}

Outcome-cases :
    (o : Outcome)
    → (o ≡ skipped)
      ⊎ ((r : Reply) × (o ≡ answered r))
      ⊎ ((r : Reply) × ((e : String) × (o ≡ broken r e)))
Outcome-cases skipped = inl refl
Outcome-cases (answered r) = inr (inl (r, refl))
Outcome-cases (broken r e) = inr (inr (r, (e, refl)))

module _ (s : Service) (k : Catalog) (max_tokens : ℕ) where
  -- The status that a candidate's attempt ends with.
  abbrev pub status_of : Outcome → AttemptStatus
  status_of skipped = started
  status_of (answered r) = completed
  status_of (broken r e) = failed (s.short e)

  -- Whether the next candidate is tried.
  abbrev pub goes_on : Outcome → Bool
  goes_on skipped = true
  goes_on (answered r) = false
  goes_on (broken r e) = is_silent (shown_of s r)

  abbrev pub visible : Outcome → List String
  visible skipped = []
  visible (answered r) = shown_of s r
  visible (broken r e) = shown_of s r

  abbrev pub answer_text : Outcome → Option String
  answer_text skipped = none
  answer_text (answered r) = some (text_of s r)
  answer_text (broken r e) = none

  abbrev pub attempts_of : List ModelCandidate → List Attempt
  attempts_of cs =
      map (λ c. attempt_of c.provider_name c.model_info.id (status_of (outcome s k max_tokens c)))
        cs

  abbrev pub GoesOn : ModelCandidate → Type 0
  GoesOn c = goes_on (outcome s k max_tokens c) ≡ true

  -- The loop over the candidates stops at one of them.
  pub record StopsAt (cs : List ModelCandidate) (run : Run) : Type 0 where
    pub before : List ModelCandidate
    pub last : ModelCandidate
    pub after : List ModelCandidate
    pub split : cs ≡ before ++ last ∷ after
    pub passed : All GoesOn before
    pub stops : goes_on (outcome s k max_tokens last) ≡ false
    pub attempted : run.attempts ≡ attempts_of (before ++ last ∷ [])
    pub seen : run.shown ≡ visible (outcome s k max_tokens last)
    pub text : run.answer.text ≡ answer_text (outcome s k max_tokens last)

  -- The loop tries every candidate in vain.
  pub record Exhausts (cs : List ModelCandidate) (run : Run) : Type 0 where
    pub passed : All GoesOn cs
    pub attempted : run.attempts ≡ attempts_of cs
    pub seen : run.shown ≡ []
    pub text : run.answer.text ≡ none

  abbrev pub Course : List ModelCandidate → Run → Type 0
  Course cs run = StopsAt cs run ⊎ Exhausts cs run

  -- One more candidate that goes on.
  Course-later :
      (c : ModelCandidate) (cs : List ModelCandidate) (run next : Run)
      → GoesOn c
      → next.attempts ≡ attempts_of (c ∷ []) ++ run.attempts
      → next.shown ≡ run.shown
      → next.answer.text ≡ run.answer.text
      → Course cs run
      → Course (c ∷ cs) next
  Course-later c cs run next on a v t (inl h) = inl (record {
    before = c ∷ h.before;
    last = h.last;
    after = h.after;
    split = ap (λ xs. c ∷ xs) h.split;
    passed = (on, h.passed);
    stops = h.stops;
    attempted = ground (arith, h.attempted);
    seen = ground (arith, h.seen);
    text = ground (arith, h.text);
  })
  Course-later c cs run next on a v t (inr h) = inr (record {
    passed = (on, h.passed);
    attempted = ground (arith, h.attempted);
    seen = ground (arith, h.seen);
    text = ground (arith, h.text);
  })

  -- Each attempt of an invocation but the last goes on: it is of a provider that is not supported, or
  -- fails before it shows any text. The loop appends one attempt for each candidate up to the last one
  -- it tries, in order, with the status that candidate ends with; the caller sees the text of that last
  -- candidate only, and receives its answer. Where all candidates go on, no text is shown and none
  -- is returned.
  pub attempt_each-Course :
      (cs : List ModelCandidate) (health : List ProviderHealthState) (last_error : String)
      → Course cs (attempt_each s k max_tokens cs health last_error)
  unfolding attempt_each
  attempt_each-Course [] health last_error =
      inr (record { passed = tt; attempted = refl; seen = refl; text = refl })
  attempt_each-Course (c ∷ cs) health last_error = elim (Outcome-cases (outcome s k max_tokens c)) [
    | inl e ↦
        Course-later c cs (attempt_each s k max_tokens cs health last_error) _ (ground (arith, e))
          (ground (arith, e)) (ground (arith, e)) (ground (arith, e))
          (attempt_each-Course cs health last_error)
    | inr (inl (r, e)) ↦ inl (record {
      before = [];
      last = c;
      after = cs;
      split = refl;
      passed = tt;
      stops = ground (arith, e);
      attempted = ground (arith, e);
      seen = ground (arith, e);
      text = ground (arith, e);
    })
    | inr (inr (r, (x, e))) ↦ elim (Bool-cases (is_silent (shown_of s r))) [
      | inl quiet ↦
          let after = record_failure s.normal s.config s.now c.provider_name (s.short x) health in
          Course-later c cs (attempt_each s k max_tokens cs after x) _ (ground (arith, e, quiet))
            (ground (arith, e, quiet)) (ground (arith, e, quiet)) (ground (arith, e, quiet))
            (attempt_each-Course cs after x)
      | inr loud ↦ inl (record {
        before = [];
        last = c;
        after = cs;
        split = refl;
        passed = tt;
        stops = ground (arith, e, loud);
        attempted = ground (arith, e, loud);
        seen = ground (arith, e, loud);
        text = ground (arith, e, loud);
      })
    ]
  ]
