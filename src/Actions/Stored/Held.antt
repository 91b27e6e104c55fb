-- ===== src/Actions/Stored/Held.antt =====
-- What the run of a stored workflow holds back, and what it asks for.
use zyntry_backend.Prelude.{
  suc, ◌+◌, String, ◌≡◌, refl, ◌∙◌, none, Bool, true, false, ◌&&◌, not, sym, List, [], ◌∷◌, ◌++◌,
  map, keep, All, arith, length, Bool-cases, inl, inr, ◌⊎◌,
}
use zyntry_backend.Json.{Json}
use zyntry_backend.Session.{ok, Result-cases}
use zyntry_backend.Actions.{ActionConfirmation}
use zyntry_backend.Actions.Confirmations.{confirmation, request, confirmation_row}
use zyntry_backend.Actions.Executor.{Performed, returned, raised, needs_confirmation}
use zyntry_backend.Actions.Gateway.{detail}
use zyntry_backend.Actions.Approvals.Rows.{approved, approved-request}
use zyntry_backend.Actions.Stored.{
  StoredStep, StoredRun, Runner, stored_request, stopped, is_blank_step, action_name, run_stored,
}

append_assoc : (xs ys zs : List ActionConfirmation) → (xs ++ ys) ++ zs ≡ xs ++ (ys ++ zs)
append_assoc [] ys zs = refl
append_assoc (x ∷ xs) ys zs = ground (arith, append_assoc xs ys zs)

append_nil : (xs : List ActionConfirmation) → xs ++ [] ≡ xs
append_nil [] = refl
append_nil (x ∷ xs) = ground (arith, append_nil xs)

Performed-cases :
    (p : Performed) → ((j : Json) × (p ≡ returned j)) ⊎ ((x : String) × (p ≡ raised x))
Performed-cases (returned j) = inl (j, refl)
Performed-cases (raised x) = inr (x, refl)

module _ (w : Runner) where
  abbrev pub IsRead : StoredStep → Type 0
  IsRead s = needs_confirmation w.registry s.provider s.action ≡ false

  -- The steps that name an action, and are a write or not.
  abbrev pub is_held_step : StoredStep → Bool
  is_held_step s = not (is_blank_step s) && needs_confirmation w.registry s.provider s.action

  abbrev pub is_read_step : StoredStep → Bool
  is_read_step s = not (is_blank_step s) && not (needs_confirmation w.registry s.provider s.action)

  -- The pending row that is asked for a step.
  abbrev pub held_row : StoredStep → ActionConfirmation
  held_row s = confirmation_row w.now s.drawn (stored_request w s)

  -- What a run that does not fail has asked for: a new row for each write, in order.
  pub record Asks (ss : List StoredStep) (rows after : List ActionConfirmation)
      (confirmation_ids blocked_actions : List String) : Type 0 where
    pub inserted : after ≡ rows ++ map held_row (keep is_held_step ss)
    pub ids : confirmation_ids ≡ map (λ s. s.drawn) (keep is_held_step ss)
    pub names : blocked_actions ≡ map action_name (keep is_held_step ss)

  pub record IsHeld (ss : List StoredStep) (rows : List ActionConfirmation) (run : StoredRun)
      : Type 0 where
    pub reads : All IsRead run.performed
    pub approves_nothing :
        (i : String)
        → approved i (confirmation i run.confirmations) ≡ approved i (confirmation i rows)
    pub accounts : run.error ≡ none → run.steps_completed + length run.blocked_actions ≡ length ss
    pub asks :
        run.error ≡ none → Asks ss rows run.confirmations run.confirmation_ids run.blocked_actions
    pub performs : run.error ≡ none → run.performed ≡ keep is_read_step ss

  -- A step that is not held adds nothing.
  passes :
      (s : StoredStep) (ss : List StoredStep) {rows after : List ActionConfirmation}
      {ids names : List String}
      → is_held_step s ≡ false
      → Asks ss rows after ids names
      → Asks (s ∷ ss) rows after ids names
  passes s ss free h = record {
    inserted = ground (arith, free, h.inserted);
    ids = ground (arith, free, h.ids);
    names = ground (arith, free, h.names);
  }

  -- A step that is held adds its row, its id and its name.
  asks_more :
      (s : StoredStep) (ss : List StoredStep) (rows : List ActionConfirmation)
      {after : List ActionConfirmation} {ids names : List String} {c : ActionConfirmation}
      → is_held_step s ≡ true
      → (request w.now s.drawn (stored_request w s) rows).0 ≡ ok c
      → Asks ss (request w.now s.drawn (stored_request w s) rows).1 after ids names
      → Asks (s ∷ ss) rows after (c.id ∷ ids) (action_name s ∷ names)
  unfolding request
  asks_more s ss rows {c = c} held good h =
      let id_is : c.id ≡ s.drawn = ground arith in
      let next : (request w.now s.drawn (stored_request w s) rows).1 ≡ rows ++ held_row s ∷ [] =
        ground arith in
      let grown = append_assoc rows (held_row s ∷ []) (map held_row (keep is_held_step ss)) in
      record {
        inserted = ground (arith, held, h.inserted, next, grown);
        ids = ground (arith, held, id_is, h.ids);
        names = ground (arith, held, h.names);
      }

  -- A stored workflow performs no write action, and approves no confirmation. Where it does not fail, it
  -- performs the steps that are no writes, each of its steps is completed or blocked, those
  -- blocked are the writes, in order, and for each of them a pending confirmation with the step's
  -- action and arguments is added to the table, under the id that the run gives for it.
  pub run_stored-IsHeld :
      (ss : List StoredStep) (rows : List ActionConfirmation)
      → IsHeld ss rows (run_stored w ss rows)
  unfolding run_stored
  run_stored-IsHeld [] rows = record {
    reads = tt;
    approves_nothing = λ i. refl;
    accounts = λ e. refl;
    asks = λ e. record { inserted = sym (append_nil rows); ids = refl; names = refl };
    performs = λ e. refl;
  }
  run_stored-IsHeld (s ∷ ss) rows = elim (Bool-cases (is_blank_step s)) [
    | inl blank ↦
        let rest = run_stored-IsHeld ss rows in
        let run = run_stored w ss rows in
        let step : run_stored w (s ∷ ss) rows
            ≡ record run { steps_completed = suc run.steps_completed } =
          ground (arith, blank) in
        simp step (record {
          reads = rest.reads;
          approves_nothing = rest.approves_nothing;
          accounts = λ e. omega (arith, rest.accounts e);
          asks = λ e. passes s ss (ground (arith, blank)) (rest.asks e);
          performs = λ e. ground (arith, blank, rest.performs e);
        })
    | inr named ↦ elim (Bool-cases (needs_confirmation w.registry s.provider s.action)) [
      | inl writes ↦
          let made = request w.now s.drawn (stored_request w s) rows in
          let kept : (i : String)
              → approved i (confirmation i made.1) ≡ approved i (confirmation i rows) =
            λ i. approved-request w.now s.drawn (stored_request w s) rows i in
          elim (Result-cases made.0) [
            | inr (x, bad) ↦
                let step : run_stored w (s ∷ ss) rows
                    ≡ record (stopped (detail x) made.1) { blocked_actions = action_name s ∷ [] } =
                  ground (arith, named, writes, bad) in
                simp step (record {
                  reads = tt;
                  approves_nothing = kept;
                  accounts = λ e. absurd (ground arith);
                  asks = λ e. absurd (ground arith);
                  performs = λ e. absurd (ground arith);
                })
            | inl (c, good) ↦
                let rest = run_stored-IsHeld ss made.1 in
                let run = run_stored w ss made.1 in
                let step : run_stored w (s ∷ ss) rows ≡ record run {
                  blocked_actions = action_name s ∷ run.blocked_actions;
                  confirmation_ids = c.id ∷ run.confirmation_ids;
                } =
                  ground (arith, named, writes, good) in
                simp step (record {
                  reads = rest.reads;
                  approves_nothing = λ i. rest.approves_nothing i ∙ kept i;
                  accounts = λ e. omega (arith, rest.accounts e);
                  asks =
                      λ e. asks_more s ss rows (ground (arith, named, writes)) good (rest.asks e);
                  performs = λ e. ground (arith, named, writes, rest.performs e);
                })
          ]
      | inr reads ↦ elim (Performed-cases (w.perform s)) [
        | inr (x, fails) ↦
            let step : run_stored w (s ∷ ss) rows ≡ record (stopped x rows) { performed = s ∷ [] } =
              ground (arith, named, reads, fails) in
            simp step (record {
              reads = (reads, tt);
              approves_nothing = λ i. refl;
              accounts = λ e. absurd (ground arith);
              asks = λ e. absurd (ground arith);
              performs = λ e. absurd (ground arith);
            })
        | inl (j, done) ↦
            let rest = run_stored-IsHeld ss rows in
            let run = run_stored w ss rows in
            let step : run_stored w (s ∷ ss) rows ≡ record run {
              steps_completed = suc run.steps_completed;
              performed = s ∷ run.performed;
            } =
              ground (arith, named, reads, done) in
            simp step (record {
              reads = (reads, rest.reads);
              approves_nothing = rest.approves_nothing;
              accounts = λ e. omega (arith, rest.accounts e);
              asks = λ e. passes s ss (ground (arith, named, reads)) (rest.asks e);
              performs = λ e. ground (arith, named, reads, rest.performs e);
            })
      ]
    ]
  ]
