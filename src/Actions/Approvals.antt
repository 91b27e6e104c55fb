-- ===== src/Actions/Approvals.antt =====
-- What approvals allow.
pub mod Rows
use zyntry_backend.Prelude.{
  ℕ, String, ◌≡◌, refl, sym, ◌∙◌, Option, none, some, Bool, true, false, not, ◌&&◌, List, [], ◌∷◌,
  ◌++◌, All, arith, keep, Bool-cases, Option-cases, inl, inr, str_eq, eq_iff, leb, if◌then◌else◌,
  ◌⊎◌,
}
use mathlib.Core.Path.{subst}
use zyntry_backend.Tables.{lookup-append, lookup-replace, key_of_lookup}
use zyntry_backend.Session.{Result-cases, ok, err, Error}
use zyntry_backend.Actions.{
  ActionConfirmation, validate_action_arguments, ActionStatus, succeeded, failed, cancelled,
}
use zyntry_backend.Actions.Confirmations.{
  confirmation, request, resolve, is_pending, with_status, ConfirmationRequest, confirmation_row,
  put_confirmation,
}
use zyntry_backend.Actions.Executor.{ActionRequest, needs_confirmation}
use zyntry_backend.Actions.Gateway.{
  Store, Environment, Call, Performance, performance, confirmed_request, hold, execute_action,
  approve_confirmation, reject_confirmation, reject_only, approve_and_perform, perform_action,
  with_confirmation, find_confirmation, can_write, or_project, is_other_project, Response,
  Membership, granted, denied, Project, require_project_membership,
}
use zyntry_backend.Actions.Approvals.Rows.{
  approved, approved-request, approved-resolve, approve-IsApproval, approve-refused,
}

abbrev pub is_via : String → Performance → Bool
is_via i p = elim p.via [ none ↦ false | some j ↦ str_eq j i ]

keep-snoc :
    {A : Type 0} (p : A → Bool) (xs : List A) (y : A)
    → keep p (xs ++ y ∷ []) ≡ keep p xs ++ (if p y then y ∷ [] else [])
keep-snoc p [] y = ground arith
keep-snoc p (x ∷ xs) y = ground (arith, keep-snoc p xs y)

All-snoc :
    {A : Type 0} (P : A → Type 0) (xs : List A) (y : A) → All P xs → P y → All P (xs ++ y ∷ [])
All-snoc P [] y h k = (k, tt)
All-snoc P (x ∷ xs) y h k = (h.0, All-snoc P xs y h.1 k)

Membership-cases :
    (m : Membership)
    → ((p : Project) × (m ≡ granted p)) ⊎ ((n : ℕ) × (t : String) × (m ≡ denied n t))
Membership-cases (granted p) = inl (p, refl)
Membership-cases (denied n t) = inr (n, t, refl)

module _ (e : Environment) where
  -- An action that follows no confirmation is no write, or its request says that it is confirmed.
  abbrev pub IsPermitted : Performance → Type 0
  IsPermitted p = (needs_confirmation e.registry p.provider p.action && not p.confirmed) ≡ false

  -- The actions performed by way of a confirmation are the one of that row, once, where the row is
  -- approved, and none elsewhere.
  pub record IsApproved (s : Store) : Type 0 where
    pub by_confirmation :
        (i : String) → keep (is_via i) s.performed ≡ approved i (confirmation i s.confirmations)
    pub permitted : All IsPermitted s.performed

  abbrev pub empty_store : Store
  empty_store = record { confirmations = []; executions = []; performed = [] }

  -- The stores that calls of the endpoints lead to.
  pub data Reach : Store → Type 0 where
    start : Reach empty_store
    executes :
        {s : Store} (call : Call) (body : ActionRequest)
        → Reach s
        → Reach (execute_action e call body s).1
    approves :
        {s : Store} (call : Call) (raw : String)
        → Reach s
        → Reach (approve_confirmation e call raw s).1
    rejects :
        {s : Store} (call : Call) (raw : String)
        → Reach s
        → Reach (reject_confirmation e call raw s).1

  hold-IsApproved :
      (call : Call) (body : ActionRequest) (p : String) (s : Store)
      → IsApproved s
      → IsApproved (hold e call body p s).1
  unfolding hold
  hold-IsApproved call body p s h = record {
    by_confirmation = λ i. h.by_confirmation i ∙ sym (approved-request _ _ _ s.confirmations i);
    permitted = h.permitted;
  }

  -- An action that is performed without a confirmation.
  perform-IsApproved :
      (call : Call) (body : ActionRequest) (p : String) (s : Store)
      → IsPermitted (performance none body)
      → IsApproved s
      → IsApproved (perform_action e call none body p s).1
  perform-IsApproved call body p s free h = record {
    by_confirmation = λ i.
        ground
          (arith, keep-snoc (is_via i) s.performed (performance none body), h.by_confirmation i);
    permitted = All-snoc IsPermitted s.performed (performance none body) h.permitted free;
  }

  execute_action-cases :
      (call : Call) (body : ActionRequest) (s : Store)
      → (((execute_action e call body s).1 ≡ s)
          ⊎ ((p : String) × ((execute_action e call body s).1 ≡ (hold e call body p s).1)))
        ⊎ ((p : String) × (((execute_action e call body s).1
                ≡ (perform_action e call none body p s).1)
              × IsPermitted (performance none body)))
  unfolding execute_action
  execute_action-cases call body s =
      let p = or_project call.caller.project_id body.project_id in
      elim (Bool-cases (can_write call.caller)) [
        | inr no_scope ↦ inl (inl (ground (arith, no_scope)))
        | inl writes ↦
            elim (Option-cases (validate_action_arguments e.is_suspicious body.arguments)) [
              | inr (reason, bad) ↦ inl (inl (ground (arith, bad)))
              | inl fine ↦ elim (Membership-cases (require_project_membership e call.caller p)) [
                | inr (code, reason, outsider) ↦ inl (inl (ground (arith, fine, outsider)))
                | inl (project, member) ↦
                    elim (Bool-cases (is_other_project call.caller.project_id project.id)) [
                      | inl other ↦ inl (inl (ground (arith, fine, member, other)))
                      | inr same ↦
                          elim (Bool-cases (
                            needs_confirmation e.registry body.provider body.action
                            && not body.confirm)) [
                              | inl held ↦
                                  inl (inr (p, ground (arith, writes, fine, member, same, held)))
                              | inr free ↦
                                  inr (p, (ground (arith, writes, fine, member, same, free), free))
                            ]
                    ]
              ]
            ]
      ]

  execute_action-IsApproved :
      (call : Call) (body : ActionRequest) (s : Store)
      → IsApproved s
      → IsApproved (execute_action e call body s).1
  unfolding execute_action
  execute_action-IsApproved call body s h = elim (execute_action-cases call body s) [
    | inl (inl same) ↦ simp same h
    | inl (inr (p, held)) ↦ simp held (hold-IsApproved call body p s h)
    | inr (p, (done, free)) ↦ simp done (perform-IsApproved call body p s free h)
  ]

  reject-IsApproved :
      (call : Call) (id : String) (s : Store) → IsApproved s → IsApproved (reject_only call id s).1
  unfolding reject_only
  reject-IsApproved call id s h = record {
    by_confirmation =
        λ i. h.by_confirmation i ∙ sym (approved-resolve failed call.now id s.confirmations i refl);
    permitted = h.permitted;
  }

  approve-IsApproved :
      (call : Call) (id : String) (s : Store)
      → IsApproved s
      → IsApproved (approve_and_perform e call id s).1
  unfolding approve_and_perform
  approve-IsApproved call id s h =
      elim (Result-cases (resolve succeeded call.now id s.confirmations).0) [
        | inr (x, refused) ↦
            let step : (approve_and_perform e call id s).1
                ≡ record s { confirmations = (resolve succeeded call.now id s.confirmations).1 } =
              ground (arith, refused) in
            simp step (record {
              by_confirmation = λ i.
                  h.by_confirmation i
                  ∙ sym (approve-refused call.now id s.confirmations i {x = x} refused);
              permitted = h.permitted;
            })
        | inl (c, made) ↦
            let rows = (resolve succeeded call.now id s.confirmations).1 in
            let next : Store = record s { confirmations = rows } in
            let told = performance (some id) (confirmed_request c) in
            let approval = approve-IsApproval call.now id s.confirmations {r = c} made in
            let step : (approve_and_perform e call id s).1
                ≡ (perform_action e call (some id) (confirmed_request c) c.project_id next).1 =
              ground (arith, made) in
            simp step (record {
              by_confirmation = λ i.
                  let grown = keep-snoc (is_via i) s.performed told in
                  elim (Bool-cases (str_eq id i)) [
                    | inr other ↦
                        ground (arith, grown, h.by_confirmation i, approval.others i other)
                    | inl same ↦
                        let it : id ≡ i = ground (arith, eq_iff id i) in
                        let goal : keep (is_via id) (s.performed ++ told ∷ [])
                            ≡ approved id (confirmation id rows) =
                          ground (
                            arith,
                            keep-snoc (is_via id) s.performed told,
                            h.by_confirmation id,
                            approval.was_open,
                            approval.now_approved,
                            eq_iff id id,
                          ) in
                        subst
                          (λ j.
                            keep (is_via j) (s.performed ++ told ∷ [])
                            ≡ approved j (confirmation j rows))
                          it goal
                  ];
              permitted = All-snoc IsPermitted s.performed told h.permitted (ground arith);
            })
      ]

  with_confirmation-cases :
      (call : Call) (raw : String) (f : String → Store → Response × Store) (s : Store)
      → ((with_confirmation e call raw f s).1 ≡ s)
        ⊎ ((id : String) × ((with_confirmation e call raw f s).1 ≡ (f id s).1))
  with_confirmation-cases call raw f s = elim (Bool-cases (can_write call.caller)) [
    | inr no_scope ↦ inl (ground (arith, no_scope))
    | inl writes ↦ elim (Option-cases (e.parse_uuid raw)) [
      | inl bad ↦ inl (ground (arith, bad))
      | inr (id, parsed) ↦ elim (Option-cases (find_confirmation e call id s)) [
        | inr (refusal, refused) ↦ inl (ground (arith, parsed, refused))
        | inl free ↦ inr (id, ground (arith, writes, parsed, free))
      ]
    ]
  ]

  -- Whatever calls of `execute_action`, `approve_confirmation` and `reject_confirmation` run, one after
  -- another, in any order and at any times, what was performed by way of a confirmation is the action
  -- of that confirmation's row, with the arguments of the row, once, and only if the row is approved;
  -- and every other action that was performed is no write, or its request says that it is confirmed.
  pub Reach-IsApproved : {s : Store} → Reach s → IsApproved s
  unfolding approve_confirmation reject_confirmation
  Reach-IsApproved start = record { by_confirmation = λ i. refl; permitted = tt }
  Reach-IsApproved (executes {s} call body r) =
      execute_action-IsApproved call body s (Reach-IsApproved r)
  Reach-IsApproved (approves {s} call raw r) =
      let before = Reach-IsApproved r in
      elim (with_confirmation-cases call raw (approve_and_perform e call) s) [
        | inl same ↦ simp same before
        | inr (id, done) ↦ simp done (approve-IsApproved call id s before)
      ]
  Reach-IsApproved (rejects {s} call raw r) =
      let before = Reach-IsApproved r in
      elim (with_confirmation-cases call raw (reject_only call) s) [
        | inl same ↦ simp same before
        | inr (id, done) ↦ simp done (reject-IsApproved call id s before)
      ]
