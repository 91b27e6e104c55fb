-- ===== src/Context/Compress.antt =====
-- The compression of a request that is over its budget.
use Prim.Native.Char.{Char}
use zyntry_backend.Prelude.{
  ℕ, zero, suc, ◌+◌, ◌-◌, ◌*◌, ◌≤◌, ◌<◌, min, max, ◌≡◌, refl, none, some, true, false, List, [],
  ◌∷◌, ◌++◌, All, leb, arith, length, length-append, length-take, take, if◌then◌else◌,
}
use zyntry_backend.Tokens.{Message, estimate_length, estimate_text, estimate_messages}
use zyntry_backend.Context.{
  ContextBudget, RawMessage, Selection, is_system, cut, truncate, truncated_marker, truncated_note,
  cut_first, longest, compress_oldest, compress, cut_longest, final_pass, remove_oldest, trim,
  assemble, normalize,
}

abbrev IsSystem : Message → Type 0
IsSystem m = is_system m ≡ true

-- A text is longer than four times a number of tokens exactly where its estimate is above it.
estimate_iff : (n t : ℕ) → (t < estimate_length n → 4 * t < n) × (4 * t < n → t < estimate_length n)
unfolding estimate_length
estimate_iff zero t = (λ h. omega (arith, h), λ h. omega (arith, h))
estimate_iff (suc n) t = (λ h. omega (arith, h), λ h. omega (arith, h))

estimate_close : (n : ℕ) → 4 * estimate_length n < n + 4
unfolding estimate_length
estimate_close zero = omega arith
estimate_close (suc n) = omega arith

-- The number of characters that the final pass removes.
abbrev removed : ℕ → ℕ → ℕ
removed excess n = min (max (excess * 4) 16) (max 1 (n - 1))

length-cut :
    (excess : ℕ) (content : List Char)
    → let n = length content in
      length (cut excess content)
      ≡ (if leb n (removed excess n + 21) then 0 else (min (n - removed excess n) n + 21))
unfolding cut
length-cut excess content =
    let r = removed excess (length content) in
    ground (
      arith,
      length-take (length content - r) content,
      length-append (take (length content - r) content) truncated_marker,
    )

remains-long :
    (t n e : ℕ)
    → 10 ≤ t
    → 4 * (t + e) < n + 4
    → 1 ≤ e
    → 4 * t < (if leb n (removed e n + 21) then 0 else (min (n - removed e n) n + 21))
remains-long t n e room over some_over = ground arith

-- What a cut leaves of a text that is over its budget of `t` tokens is over it again.
cut-over :
    (t : ℕ) (content : List Char)
    → 10 ≤ t
    → t < estimate_length (length content)
    → t < estimate_length (length (cut (estimate_length (length content) - t) content))
cut-over t content room over =
    let n = length content in
    let e = estimate_length n - t in
    let long = (estimate_iff (length (cut e content)) t).1 in
    long (
      simp (length-cut e content)
        (remains-long t n e room (omega (arith, over, estimate_close n)) (omega (arith, over))))

estimate-request :
    (systems : List Message) (m : Message)
    → estimate_messages (systems ++ m ∷ [])
      ≡ estimate_messages systems + (estimate_text m.content + 4)
unfolding estimate_messages
estimate-request [] m = omega arith
estimate-request (s ∷ ss) m = ground (arith, estimate-request ss m)

longest-request :
    (systems : List Message) (m : Message)
    → All IsSystem systems
    → is_system m ≡ false
    → longest (systems ++ m ∷ []) ≡ length m.content
unfolding longest
longest-request [] m only user = ground arith
longest-request (s ∷ ss) m only user = ground (arith, longest-request ss m)

cut_first-request :
    (excess : ℕ) (systems : List Message) (m : Message)
    → All IsSystem systems
    → is_system m ≡ false
    → 1 ≤ length m.content
    → cut_first excess (length m.content) (systems ++ m ∷ [])
      ≡ systems ++ record m { content = cut excess m.content } ∷ []
unfolding cut_first
cut_first-request excess [] m only user some_text = ground arith
cut_first-request excess (s ∷ ss) m only user some_text =
    ground (arith, cut_first-request excess ss m)

remove_oldest-request :
    (systems : List Message) (m : Message)
    → All IsSystem systems
    → remove_oldest (systems ++ m ∷ []) ≡ none
unfolding remove_oldest
remove_oldest-request [] m only = refl
remove_oldest-request (s ∷ []) m only = ground arith
remove_oldest-request (s ∷ r ∷ ss) m only = ground (arith, remove_oldest-request (r ∷ ss) m)

compress_oldest-request :
    (excess : ℕ) (systems : List Message) (m : Message)
    → All IsSystem systems
    → is_system m ≡ false
    → compress_oldest excess (systems ++ m ∷ []) ≡ some (systems ++ truncate excess m ∷ [])
unfolding compress_oldest
compress_oldest-request excess [] m only user = ground arith
compress_oldest-request excess (s ∷ ss) m only user =
    ground (arith, compress_oldest-request excess ss m)

-- A message over the budget that the system messages leave it.
record IsOver (working_input : ℕ) (systems : List Message) (m : Message) : Type 0 where
  user : is_system m ≡ false
  room : estimate_messages systems + 14 ≤ working_input
  over : working_input < estimate_messages systems + (estimate_text m.content + 4)

text_over :
    (w : ℕ) (systems : List Message) (m : Message)
    → IsOver w systems m
    → let t = w - (estimate_messages systems + 4) in
      (10 ≤ t)
      × (t < estimate_length (length m.content))
      × (estimate_messages (systems ++ m ∷ []) - w ≡ estimate_length (length m.content) - t)
unfolding estimate_text
text_over w systems m h = (
  omega (arith, h.room),
  omega (arith, h.room, h.over),
  simp (estimate-request systems m) (omega (arith, h.room, h.over)),
)

has_text : (n t : ℕ) → t < estimate_length n → 1 ≤ n
unfolding estimate_length
has_text zero t h = absurd (omega (arith, h))
has_text (suc n) t h = omega arith

-- One turn of the final loop leaves the request over its budget.
cut_longest-IsOver :
    (w : ℕ) (systems : List Message) (only : All IsSystem systems) (m : Message) (s : Selection)
    → s.selected ≡ systems ++ m ∷ []
    → IsOver w systems m
    → (next : Message) × ((cut_longest w s).selected ≡ systems ++ next ∷ []) × IsOver w systems next
unfolding cut_longest estimate_text
cut_longest-IsOver w systems only m s same h =
    let (room, over, excess) = text_over w systems m h in
    let e = estimate_messages (systems ++ m ∷ []) - w in
    let t = w - (estimate_messages systems + 4) in
    let next = record m { content = cut e m.content } in
    let again : t < estimate_length (length (cut e m.content)) =
      simp excess (cut-over t m.content room over) in
    (
      next,
      simp same (
          simp (longest-request systems m only h.user)
            (cut_first-request e systems m only h.user (has_text (length m.content) t over))),
      record { user = h.user; room = h.room; over = omega (arith, again, h.room) },
    )

final_pass-never :
    (fuel w : ℕ) (systems : List Message) (only : All IsSystem systems) (m : Message)
    (s : Selection)
    → s.selected ≡ systems ++ m ∷ []
    → IsOver w systems m
    → final_pass fuel w s ≡ none
unfolding final_pass
final_pass-never zero w systems only m s same h = refl
final_pass-never (suc fuel) w systems only m s same h =
    let (next, same', over') = cut_longest-IsOver w systems only m s same h in
    let rest = final_pass-never fuel w systems only next (cut_longest w s) same' over' in
    let (room, over, excess) = text_over w systems m h in
    let some_text = has_text (length m.content) (w - (estimate_messages systems + 4)) over in
    ground (arith, longest-request systems m only h.user, estimate-request systems m, h.over)

length-truncate :
    (excess : ℕ) (m : Message)
    → length (truncate excess m).content
      ≡ min (max 128 (length m.content - excess * 4)) (length m.content) + 47
length-truncate excess m =
    let kept = max 128 (length m.content - excess * 4) in
    ground (arith, length-take kept m.content, length-append (take kept m.content) truncated_note)

stays-long : (t n e : ℕ) → 4 * (t + e) < n + 4 → 1 ≤ e → 4 * t < min (max 128 (n - e * 4)) n + 47
stays-long t n e over some_over = ground arith

truncate-IsOver :
    (w : ℕ) (systems : List Message) (m : Message)
    → IsOver w systems m
    → IsOver w systems (truncate (estimate_messages (systems ++ m ∷ []) - w) m)
unfolding estimate_text
truncate-IsOver w systems m h =
    let (room, over, excess) = text_over w systems m h in
    let n = length m.content in
    let e = estimate_messages (systems ++ m ∷ []) - w in
    let t = w - (estimate_messages systems + 4) in
    let long : 4 * t < length (truncate e m).content = simp (length-truncate e m) (
      stays-long t n e (omega (arith, over, estimate_close n, excess))
        (omega (arith, over, excess))) in
    let again = (estimate_iff (length (truncate e m).content) t).1 long in
    record { user = h.user; room = h.room; over = omega (arith, again, h.room) }

trim-stuck : (fuel w : ℕ) (ms : List Message) → remove_oldest ms ≡ none → (trim fuel w ms).0 ≡ ms
unfolding trim
trim-stuck zero w ms stuck = refl
trim-stuck (suc fuel) w ms stuck = ground arith

compress-request :
    (w : ℕ) (systems : List Message) (m : Message)
    → All IsSystem systems
    → is_system m ≡ false
    → w < estimate_messages (systems ++ m ∷ [])
    → (compress w (systems ++ m ∷ [])).selected
      ≡ systems ++ truncate (estimate_messages (systems ++ m ∷ []) - w) m ∷ []
unfolding compress
compress-request w systems m only user over =
    ground (
      arith,
      compress_oldest-request (estimate_messages (systems ++ m ∷ []) - w) systems m only user,
    )

assemble-none :
    (fuel : ℕ) (budget : ContextBudget) (messages : List RawMessage) (ms : List Message)
    → normalize messages ≡ ms
    → final_pass fuel budget.working_input
        (compress budget.working_input (trim (length ms) budget.working_input ms).0)
      ≡ none
    → assemble fuel budget messages ≡ none
unfolding assemble
assemble-none fuel budget messages ms normal never = ground arith

-- No fuel is enough for `assemble` where the request is system messages and one message that is not
-- the system's, which is over the budget although the system messages leave at least fourteen tokens
-- for it: the second step and each turn of the final loop append a note to what they cut, and the
-- loop does not end.
pub assemble-never_ends :
    (fuel : ℕ) (budget : ContextBudget) (messages : List RawMessage) (systems : List Message)
    (m : Message)
    → normalize messages ≡ systems ++ m ∷ []
    → All IsSystem systems
    → is_system m ≡ false
    → estimate_messages systems + 14 ≤ budget.working_input
    → budget.working_input < estimate_messages (systems ++ m ∷ [])
    → assemble fuel budget messages ≡ none
assemble-never_ends fuel budget messages systems m normal only user room over =
    let w = budget.working_input in
    let h : IsOver w systems m = record {
      user = user;
      room = room;
      over = omega (arith, over, estimate-request systems m);
    } in
    let e = estimate_messages (systems ++ m ∷ []) - w in
    let never =
      final_pass-never fuel w systems only (truncate e m) (compress w (systems ++ m ∷ []))
        (compress-request w systems m only user over) (truncate-IsOver w systems m h) in
    let kept =
      trim-stuck (length (systems ++ m ∷ [])) w (systems ++ m ∷ [])
        (remove_oldest-request systems m only) in
    assemble-none fuel budget messages (systems ++ m ∷ []) normal (simp kept never)
