-- ===== src/Grab/Status.antt =====
-- What a reconciliation holds and reports, node by node.
use mathlib.Core.Path.{subst}
use mathlib.Core.Bool.{false≢true}
use home_assistant_bluetooth.Prelude.{
  ◌≡◌, refl, sym, ◌∙◌, ap, inl, inr, Bool, true, false, ◌&&◌, ◌||◌, not, none, some, List, [], ◌∷◌,
  ◌==◌, nat_eq, text_eq, text_beq_iff, arith, Text, Bool-cases, Option-cases, Result-cases,
  List-cases, ok, err,
}
use home_assistant_bluetooth.Prelude.Dict.{Dict, get, put, has, contains, get-put}
use home_assistant_bluetooth.Grab.{
  Grabber, Kernel, InputGrabStatus, paths, release_stale, grab_error, Held, acquire, acquire_all,
  reconciled, reconcile_sync, matching_nodes_sync, sorted, texts_eq, active, insert_entry,
  sorted_items,
}
use home_assistant_bluetooth.Grab.Dicts.{has-put}
use home_assistant_bluetooth.Grab.Account.{reconcile_sync-running}
use home_assistant_bluetooth.Grab.Nodes.{has-release_stale, contains-sorted, contains-paths}

-- Opening the node or grabbing its descriptor fails.
unfoldable pub refuses : Kernel → Text → Bool
refuses kernel path = elim (kernel.opens path) [
  | err error ↦ true
  | ok fd ↦ elim (kernel.grabs fd) [ none ↦ false | some error ↦ true ]
]

has_text-put : (d : Dict Text Text) (k j v : Text) → has (put d k v) j ≡ (k == j || has d j)
unfolding has
has_text-put d k j v = ground (arith, get-put d k j v)

-- What is held of a node, and whether it has an error.
abbrev marks : Text → Held → Bool × Bool
marks p held = (has held.0.fds p, has held.1 p)

abbrev joined : Bool → Bool → Bool → Bool × Bool → Bool × Bool
joined here refused held (h, e) = (h || (here && not refused), e || (here && not held && refused))

acquire-marks_here :
    (kernel : Kernel) (path : Text) (g : Grabber) (errors : Dict Text Text)
    → marks path (acquire kernel path (g, errors))
      ≡ joined
          (path == path)
          (refuses kernel path)
          (has g.fds path)
          (has g.fds path, has errors path)
unfolding acquire refuses
acquire-marks_here kernel path g errors =
    let here : (path == path) ≡ true = (text_beq_iff path path).1 refl in
    elim (Bool-cases (has g.fds path)) [
      | inl e ↦ rw (e, here, acquire) (ground arith)
      | inr e ↦ elim (Result-cases (kernel.opens path)) [
        | inr (error, o) ↦
            rw (e, o, acquire) (ground (arith, e, here, has_text-put errors path path error))
        | inl (fd, o) ↦ elim (Option-cases (kernel.grabs fd)) [
          | inl n ↦ rw (e, o, n, acquire) (ground (arith, e, here, has-put g.fds path path fd))
          | inr (error, n) ↦
              rw (e, o, n, acquire)
                (ground (
                  arith,
                  e,
                  here,
                  has_text-put errors path path (grab_error error (kernel.closes fd)),
                ))
        ]
      ]
    ]

acquire-marks :
    (kernel : Kernel) (path p : Text) (g : Grabber) (errors : Dict Text Text)
    → marks p (acquire kernel path (g, errors))
      ≡ joined (path == p) (refuses kernel p) (has g.fds p) (has g.fds p, has errors p)
unfolding acquire refuses
acquire-marks kernel path p g errors = elim (Bool-cases (path == p)) [
  | inr miss ↦ elim (Bool-cases (has g.fds path)) [
    | inl e ↦ rw (e, miss, acquire) (ground arith)
    | inr e ↦ elim (Result-cases (kernel.opens path)) [
      | inr (error, o) ↦ rw (e, o, acquire) (ground (arith, has_text-put errors path p error))
      | inl (fd, o) ↦ elim (Option-cases (kernel.grabs fd)) [
        | inl n ↦ rw (e, o, n, acquire) (ground (arith, has-put g.fds path p fd))
        | inr (error, n) ↦
            rw (e, o, n, acquire)
              (ground (arith, has_text-put errors path p (grab_error error (kernel.closes fd))))
      ]
    ]
  ]
  | inl hit ↦
      subst
        (λ q.
          marks q (acquire kernel path (g, errors))
          ≡ joined (path == q) (refuses kernel q) (has g.fds q) (has g.fds q, has errors q))
        ((text_beq_iff path p).0 hit) (acquire-marks_here kernel path g errors)
]

acquire_all-marks :
    (kernel : Kernel) (nodes : List Text) (p : Text) (g : Grabber) (errors : Dict Text Text)
    → marks p (acquire_all kernel nodes (g, errors))
      ≡ joined (contains nodes p) (refuses kernel p) (has g.fds p) (has g.fds p, has errors p)
unfolding acquire_all contains
acquire_all-marks kernel [] p g errors = ground arith
acquire_all-marks kernel (path ∷ nodes) p g errors =
    let step = acquire kernel path (g, errors) in
    ground
      (arith, acquire_all-marks kernel nodes p step.0 step.1, acquire-marks kernel path p g errors)

has-insert_entry :
    (x : Text × Text) (d : Dict Text Text) (p : Text)
    → has (insert_entry x d) p ≡ (x.0 == p || has d p)
unfolding insert_entry has get
has-insert_entry x [] p = ground arith
has-insert_entry x (y ∷ d) p = ground (arith, has-insert_entry x d p)

has_entry :
    (x : Text × Text) (d : Dict Text Text) (p : Text) → has (x ∷ d) p ≡ (x.0 == p || has d p)
unfolding has get
has_entry x d p = ground arith

has-sorted_items : (d : Dict Text Text) (p : Text) → has (sorted_items d) p ≡ has d p
unfolding sorted_items
has-sorted_items [] p = refl
has-sorted_items (x ∷ d) p =
    has-insert_entry x (sorted_items d) p
    ∙ (ap (λ b. x.0 == p || b) (has-sorted_items d p) ∙ sym (has_entry x d p))

-- What a reconciliation makes of one node.
pub record Treats (kernel : Kernel) (g : Grabber) (p : Text) (after : Grabber × InputGrabStatus)
    : Type 0 where
  pub held : has after.0.fds p ≡ (
      contains (matching_nodes_sync g.address kernel) p && (has g.fds p || not (refuses kernel p)))
  pub failed :
      has after.1.errors p
      ≡ (contains (matching_nodes_sync g.address kernel) p && not (has g.fds p) && refuses kernel p)
  pub matched :
      contains after.1.matching_nodes p ≡ contains (matching_nodes_sync g.address kernel) p
  pub reported : contains after.1.grabbed_nodes p ≡ has after.0.fds p

pub reconcile_sync-Treats :
    (kernel : Kernel) (g : Grabber) (p : Text)
    → g.stopping ≡ false
    → Treats kernel g p (reconcile_sync kernel g)
unfolding reconciled contains has
reconcile_sync-Treats kernel g p running =
    let nodes = matching_nodes_sync g.address kernel in
    let stale = release_stale nodes (paths g.fds) g in
    let all = acquire_all kernel (sorted nodes) (stale, []) in
    let m : marks p all
        ≡ joined (contains (sorted nodes) p) (refuses kernel p) (has stale.fds p)
            (has stale.fds p, false) =
      acquire_all-marks kernel (sorted nodes) p stale [] in
    let kept = has-release_stale nodes (paths g.fds) p g in
    rw (reconcile_sync-running kernel g running) record {
      held =
          ap (λ x. x.0) m ∙ ground (arith, kept, contains-sorted nodes p, contains-paths g.fds p);
      failed =
          has-sorted_items all.1 p
          ∙ (ap (λ x. x.1) m
              ∙ ground (arith, kept, contains-sorted nodes p, contains-paths g.fds p));
      matched = contains-sorted nodes p;
      reported = contains-sorted (paths all.0.fds) p ∙ contains-paths all.0.fds p;
    }

texts_eq_sound : (xs ys : List Text) → texts_eq xs ys ≡ true → xs ≡ ys
unfolding texts_eq
texts_eq_sound [] [] h = refl
texts_eq_sound [] (y ∷ ys) h = ground arith
texts_eq_sound (x ∷ xs) [] h = ground arith
texts_eq_sound (x ∷ xs) (y ∷ ys) h =
    let heads : x ≡ y = (text_beq_iff x y).0 (ground arith) in
    let tails : xs ≡ ys = texts_eq_sound xs ys (ground arith) in rw (heads, tails) refl

active-same :
    (status : InputGrabStatus) → active status ≡ true → status.matching_nodes ≡ status.grabbed_nodes
unfolding active
active-same status h = elim (List-cases status.matching_nodes) [
  | inl e ↦ absurd (false≢true (rw (e, active) at h))
  | inr (x, xs, e) ↦ e ∙ texts_eq_sound (x ∷ xs) status.grabbed_nodes (rw (e, active) at h)
]

-- Where a reconciliation reports an active protection, the nodes that match the address are the nodes
-- that are held, and no node has an error.
pub reconcile_sync-active :
    (kernel : Kernel) (g : Grabber) (p : Text)
    → g.stopping ≡ false
    → active (reconcile_sync kernel g).1 ≡ true
    → (contains (matching_nodes_sync g.address kernel) p ≡ has (reconcile_sync kernel g).0.fds p)
      × (has (reconcile_sync kernel g).1.errors p ≡ false)
reconcile_sync-active kernel g p running on =
    let r = reconcile_sync-Treats kernel g p running in
    let same : contains (matching_nodes_sync g.address kernel) p
        ≡ has (reconcile_sync kernel g).0.fds p =
      sym r.matched ∙ (ap (λ xs. contains xs p) (active-same _ on) ∙ r.reported) in
    (same, ground (arith, same, r.held, r.failed))
