-- ===== src/Hidraw/Writes.antt =====
-- The outcome of a write, against the first node that takes the whole report.
use mathlib.Core.Bool.{false≢true}
use home_assistant_bluetooth.Prelude.{
  ℕ, ◌+◌, ◌≡◌, refl, sym, ◌∙◌, ap, inl, inr, Bool, true, false, Option, none, some, List, [], ◌∷◌,
  ◌++◌, ◌==◌, nat_eq, text_eq, arith, Text, Bool-cases, Option-cases, if◌then◌else◌, Result, ok,
  err, leb, length,
}
use home_assistant_bluetooth.Prelude.Bytes.{Bytes}
use home_assistant_bluetooth.Prelude.Dict.{Dict}
use home_assistant_bluetooth.Grab.Dicts.{bit}
use home_assistant_bluetooth.Hidraw.{
  Event, opened, written, closed, Kernel, WriteError, bad_report_id, no_node, failed, Outcome,
  write_nodes, write_paths, write_sync, matching_devices_sync, node_paths,
}

-- The node can be opened and takes the whole report.
unfoldable pub accepts : Kernel → Bytes → Text → Bool
accepts kernel report path = elim (kernel.opens path) [
  | none ↦ false
  | some fd ↦ elim (kernel.writes fd report) [ none ↦ false | some count ↦ count == length report ]
]

unfoldable pub first_accepting : Kernel → Bytes → List Text → Option Text
first_accepting kernel report [] = none
first_accepting kernel report (path ∷ nodes) =
    let rest = first_accepting kernel report nodes in
    if accepts kernel report path then some path else rest

abbrev pub found_or : List Text → Option Text → Result WriteError Text
found_or all none = err (failed all)
found_or all (some path) = ok path

-- What `_write_sync` is to give for the matching nodes.
unfoldable pub expected : Kernel → Bytes → List Text → Result WriteError Text
expected kernel report [] = err no_node
expected kernel report (path ∷ nodes) =
    found_or (path ∷ nodes) (first_accepting kernel report (path ∷ nodes))

append_assoc : (xs ys zs : List Text) → (xs ++ ys) ++ zs ≡ xs ++ (ys ++ zs)
append_assoc [] ys zs = refl
append_assoc (x ∷ xs) ys zs = ap (λ t. x ∷ t) (append_assoc xs ys zs)

append_nil : (xs : List Text) → xs ++ [] ≡ xs
append_nil [] = refl
append_nil (x ∷ xs) = ap (λ t. x ∷ t) (append_nil xs)

-- The rest of the loop, where the node at hand is refused.
abbrev Refused : Kernel → Bytes → Text → List Text → List Text → List Event → Type 0
Refused kernel report path nodes errors events =
    (later : List Event) × (write_nodes kernel report (path ∷ nodes) errors events
      ≡ write_nodes kernel report nodes (errors ++ path ∷ []) later)

write_nodes-Refused :
    (kernel : Kernel) (report : Bytes) (path : Text) (nodes errors : List Text)
    (events : List Event)
    → accepts kernel report path ≡ false
    → Refused kernel report path nodes errors events
unfolding write_nodes accepts
write_nodes-Refused kernel report path nodes errors events miss =
    elim (Option-cases (kernel.opens path)) [
      | inl e ↦ (events, rw (e, write_nodes) refl)
      | inr (fd, e) ↦ elim (Option-cases (kernel.writes fd report)) [
        | inl w ↦ (closed fd ∷ opened path fd ∷ events, rw (e, w, write_nodes) refl)
        | inr (count, w) ↦
            let short : (count == length report) ≡ false = rw (e, w, accepts) at miss in
            (
              closed fd ∷ written fd count ∷ opened path fd ∷ events,
              rw (e, w, short, write_nodes) refl,
            )
      ]
    ]

write_nodes-accepted :
    (kernel : Kernel) (report : Bytes) (path : Text) (nodes errors : List Text)
    (events : List Event)
    → accepts kernel report path ≡ true
    → (write_nodes kernel report (path ∷ nodes) errors events).0 ≡ ok path
unfolding write_nodes accepts
write_nodes-accepted kernel report path nodes errors events hit =
    elim (Option-cases (kernel.opens path)) [
      | inl e ↦ absurd (false≢true (rw (e, accepts) at hit))
      | inr (fd, e) ↦ elim (Option-cases (kernel.writes fd report)) [
        | inl w ↦ absurd (false≢true (rw (e, w, accepts) at hit))
        | inr (count, w) ↦
            let whole : (count == length report) ≡ true = rw (e, w, accepts) at hit in
            rw (e, w, whole, write_nodes) refl
      ]
    ]

write_nodes-first :
    (kernel : Kernel) (report : Bytes) (nodes errors : List Text) (events : List Event)
    → (write_nodes kernel report nodes errors events).0
      ≡ found_or (errors ++ nodes) (first_accepting kernel report nodes)
unfolding first_accepting
write_nodes-first kernel report [] errors events =
    unfold write_nodes in ap (λ es. err (failed es)) (sym (append_nil errors))
write_nodes-first kernel report (path ∷ nodes) errors events =
    elim (Bool-cases (accepts kernel report path)) [
      | inl hit ↦
          rw (hit, first_accepting)
            (write_nodes-accepted kernel report path nodes errors events hit)
      | inr miss ↦
          let (later, e) = write_nodes-Refused kernel report path nodes errors events miss in
          rw (miss, first_accepting)
            (ap (λ o. o.0) e
              ∙ (write_nodes-first kernel report nodes (errors ++ path ∷ []) later
                  ∙ ap (λ es. found_or es (first_accepting kernel report nodes))
                      (append_assoc errors (path ∷ []) nodes)))
    ]

-- How often a descriptor was opened and closed, and how often the kernel took the
-- whole report.
unfoldable pub opens_of : ℕ → List Event → ℕ
opens_of fd [] = 0
opens_of fd (opened path other ∷ es) = bit (other == fd) + opens_of fd es
opens_of fd (e ∷ es) = opens_of fd es

unfoldable pub closes_of : ℕ → List Event → ℕ
closes_of fd [] = 0
closes_of fd (closed other ∷ es) = bit (other == fd) + closes_of fd es
closes_of fd (e ∷ es) = closes_of fd es

unfoldable pub writes_of : Bytes → List Event → ℕ
writes_of report [] = 0
writes_of report (written fd count ∷ es) = bit (count == length report) + writes_of report es
writes_of report (e ∷ es) = writes_of report es

abbrev pub successes : Result WriteError Text → ℕ
successes (ok path) = 1
successes (err e) = 0

-- Every descriptor is closed, and the kernel took the whole report once where a path is returned, else
-- never.
pub record IsSettled (report : Bytes) (outcome : Outcome) : Type 0 where
  pub all_closed : (fd : ℕ) → opens_of fd outcome.1 ≡ closes_of fd outcome.1
  pub complete : writes_of report outcome.1 ≡ successes outcome.0

record IsBalanced (report : Bytes) (events : List Event) : Type 0 where
  closed_all : (fd : ℕ) → opens_of fd events ≡ closes_of fd events
  unwritten : writes_of report events ≡ 0

unwritten-IsBalanced :
    (path : Text) (fd : ℕ) (report : Bytes) (events : List Event)
    → IsBalanced report events
    → IsBalanced report (closed fd ∷ opened path fd ∷ events)
unwritten-IsBalanced path fd report events b = record {
  closed_all = λ x. unfold opens_of closes_of in ground (arith, b.closed_all x);
  unwritten = unfold writes_of in b.unwritten;
}

short-IsBalanced :
    (path : Text) (fd count : ℕ) (report : Bytes) (events : List Event)
    → (count == length report) ≡ false
    → IsBalanced report events
    → IsBalanced report (closed fd ∷ written fd count ∷ opened path fd ∷ events)
short-IsBalanced path fd count report events c b = record {
  closed_all = λ x. unfold opens_of closes_of in ground (arith, b.closed_all x);
  unwritten = unfold writes_of in rw c (ap (λ n. 0 + n) b.unwritten);
}

done-IsSettled :
    (path : Text) (fd count : ℕ) (report : Bytes) (events : List Event)
    → (count == length report) ≡ true
    → IsBalanced report events
    → IsSettled report (ok path, closed fd ∷ written fd count ∷ opened path fd ∷ events)
done-IsSettled path fd count report events c b = record {
  all_closed = λ x. unfold opens_of closes_of in ground (arith, b.closed_all x);
  complete = unfold writes_of in rw c (ap (λ n. 1 + n) b.unwritten);
}

write_nodes-IsSettled :
    (kernel : Kernel) (report : Bytes) (nodes errors : List Text) (events : List Event)
    → IsBalanced report events
    → IsSettled report (write_nodes kernel report nodes errors events)
unfolding write_nodes
write_nodes-IsSettled kernel report [] errors events b = record {
  all_closed = b.closed_all;
  complete = b.unwritten;
}
write_nodes-IsSettled kernel report (path ∷ nodes) errors events b =
    let again = λ (later : List Event) (l : IsBalanced report later).
      write_nodes-IsSettled kernel report nodes (errors ++ path ∷ []) later l in
    elim (Option-cases (kernel.opens path)) [
      | inl e ↦ rw (e, write_nodes) (again events b)
      | inr (fd, e) ↦ elim (Option-cases (kernel.writes fd report)) [
        | inl w ↦ rw (e, w, write_nodes) (again _ (unwritten-IsBalanced path fd report events b))
        | inr (count, w) ↦ elim (Bool-cases (count == length report)) [
          | inl c ↦ rw (e, w, c, write_nodes) (done-IsSettled path fd count report events c b)
          | inr c ↦
              rw (e, w, c, write_nodes) (again _ (short-IsBalanced path fd count report events c b))
        ]
      ]
    ]

nothing-IsBalanced : (report : Bytes) → IsBalanced report []
nothing-IsBalanced report = record {
  closed_all = λ fd. unfold opens_of closes_of in refl;
  unwritten = unfold writes_of in refl;
}

nothing-IsSettled : (report : Bytes) (e : WriteError) → IsSettled report (err e, [])
nothing-IsSettled report e = record {
  all_closed = (nothing-IsBalanced report).closed_all;
  complete = (nothing-IsBalanced report).unwritten;
}

write_paths-IsSettled :
    (kernel : Kernel) (report : Bytes) (nodes : List Text)
    → IsSettled report (write_paths kernel report nodes)
unfolding write_paths
write_paths-IsSettled kernel report [] = nothing-IsSettled report no_node
write_paths-IsSettled kernel report (path ∷ nodes) =
    write_nodes-IsSettled kernel report (path ∷ nodes) [] [] (nothing-IsBalanced report)

pub write_sync-IsSettled :
    (address : Text) (entries : Option (Dict Text (Option Text))) (kernel : Kernel) (report_id : ℕ)
    (payload : Bytes)
    → IsSettled (report_id ∷ payload) (write_sync address entries kernel report_id payload)
unfolding write_sync
write_sync-IsSettled address entries kernel report_id payload =
    elim (Bool-cases (leb report_id 255)) [
      | inl e ↦ rw (e, write_sync) (write_paths-IsSettled kernel (report_id ∷ payload) _)
      | inr e ↦ rw (e, write_sync) (nothing-IsSettled (report_id ∷ payload) bad_report_id)
    ]

write_paths-expected :
    (kernel : Kernel) (report : Bytes) (nodes : List Text)
    → (write_paths kernel report nodes).0 ≡ expected kernel report nodes
unfolding write_paths expected
write_paths-expected kernel report [] = refl
write_paths-expected kernel report (path ∷ nodes) =
    write_nodes-first kernel report (path ∷ nodes) [] []

pub write_sync-expected :
    (address : Text) (entries : Option (Dict Text (Option Text))) (kernel : Kernel) (report_id : ℕ)
    (payload : Bytes)
    → leb report_id 255 ≡ true
    → (write_sync address entries kernel report_id payload).0
      ≡ expected kernel (report_id ∷ payload) (node_paths (matching_devices_sync address entries))
unfolding write_sync
write_sync-expected address entries kernel report_id payload h =
    rw (h, write_sync)
      (write_paths-expected kernel (report_id ∷ payload)
        (node_paths (matching_devices_sync address entries)))
