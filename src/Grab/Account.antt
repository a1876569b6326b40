-- ===== src/Grab/Account.antt =====
-- Every descriptor that was opened is closed, or held for a node; the same for every exclusive grab.
use home_assistant_bluetooth.Prelude.{
  ℕ, ◌+◌, ◌≡◌, inl, inr, true, false, List, [], ◌∷◌, ◌==◌, nat_eq, text_eq, arith, Text, Bool-cases,
  Option-cases, Result-cases,
}
use home_assistant_bluetooth.Prelude.Dict.{Dict, get, put, has, contains}
use home_assistant_bluetooth.Grab.{
  Event, opened, grabbed, ungrabbed, closed, Grabber, Kernel, paths, release_sync, release_stale,
  Held, acquire, acquire_all, reconciled, reconcile_sync, release_each, matching_nodes_sync, sorted,
}
use home_assistant_bluetooth.Grab.Dicts.{
  bit, owners, Distinct, put-Distinct, pop-Distinct, owners-put, owners-pop,
}

-- How often a descriptor was opened, closed, grabbed and ungrabbed.
unfoldable pub opens_of : ℕ → List Event → ℕ
opens_of fd [] = 0
opens_of fd (opened path other ∷ es) = bit (other == fd) + opens_of fd es
opens_of fd (e ∷ es) = opens_of fd es

unfoldable pub closes_of : ℕ → List Event → ℕ
closes_of fd [] = 0
closes_of fd (closed other ∷ es) = bit (other == fd) + closes_of fd es
closes_of fd (e ∷ es) = closes_of fd es

unfoldable pub grabs_of : ℕ → List Event → ℕ
grabs_of fd [] = 0
grabs_of fd (grabbed other ∷ es) = bit (other == fd) + grabs_of fd es
grabs_of fd (e ∷ es) = grabs_of fd es

unfoldable pub ungrabs_of : ℕ → List Event → ℕ
ungrabs_of fd [] = 0
ungrabs_of fd (ungrabbed other ∷ es) = bit (other == fd) + ungrabs_of fd es
ungrabs_of fd (e ∷ es) = ungrabs_of fd es

pub record IsAccounted (g : Grabber) : Type 0 where
  pub distinct : Distinct g.fds
  pub opens : (fd : ℕ) → opens_of fd g.events ≡ closes_of fd g.events + owners fd g.fds
  pub grabs : (fd : ℕ) → grabs_of fd g.events ≡ ungrabs_of fd g.events + owners fd g.fds

pub release_sync-IsAccounted :
    (path : Text) (g : Grabber) → IsAccounted g → IsAccounted (release_sync path g)
unfolding release_sync
release_sync-IsAccounted path g h = elim (Option-cases (get g.fds path)) [
  | inl e ↦ rw (e, release_sync) h
  | inr (fd, e) ↦
      rw (e, release_sync)
        record {
          distinct = pop-Distinct g.fds path h.distinct;
          opens = λ x.
              unfold opens_of closes_of in
              ground (arith, owners-pop x fd g.fds path h.distinct e, h.opens x);
          grabs = λ x.
              unfold grabs_of ungrabs_of in
              ground (arith, owners-pop x fd g.fds path h.distinct e, h.grabs x);
        }
]

release_stale-IsAccounted :
    (nodes held : List Text) (g : Grabber)
    → IsAccounted g
    → IsAccounted (release_stale nodes held g)
unfolding release_stale
release_stale-IsAccounted nodes [] g h = h
release_stale-IsAccounted nodes (path ∷ held) g h = elim (Bool-cases (contains nodes path)) [
  | inl e ↦ rw (e, release_stale) (release_stale-IsAccounted nodes held g h)
  | inr e ↦
      rw (e, release_stale)
        (release_stale-IsAccounted nodes held _ (release_sync-IsAccounted path g h))
]

grabbed-IsAccounted :
    (path : Text) (fd : ℕ) (g : Grabber)
    → has g.fds path ≡ false
    → IsAccounted g
    → IsAccounted
        (record g { fds = put g.fds path fd; events = grabbed fd ∷ opened path fd ∷ g.events })
grabbed-IsAccounted path fd g n h = record {
  distinct = put-Distinct g.fds path fd n h.distinct;
  opens = λ x. unfold opens_of closes_of in ground (arith, owners-put x fd g.fds path n, h.opens x);
  grabs =
      λ x. unfold grabs_of ungrabs_of in ground (arith, owners-put x fd g.fds path n, h.grabs x);
}

refused-IsAccounted :
    (path : Text) (fd : ℕ) (g : Grabber)
    → IsAccounted g
    → IsAccounted (record g { events = closed fd ∷ opened path fd ∷ g.events })
refused-IsAccounted path fd g h = record {
  distinct = h.distinct;
  opens = λ x. unfold opens_of closes_of in ground (arith, h.opens x);
  grabs = λ x. unfold grabs_of ungrabs_of in ground (arith, h.grabs x);
}

acquire-IsAccounted :
    (kernel : Kernel) (path : Text) (held : Held)
    → IsAccounted held.0
    → IsAccounted (acquire kernel path held).0
unfolding acquire
acquire-IsAccounted kernel path (g, errors) h = elim (Bool-cases (has g.fds path)) [
  | inl e ↦ rw (e, acquire) h
  | inr e ↦ elim (Result-cases (kernel.opens path)) [
    | inr (error, o) ↦ rw (e, o, acquire) h
    | inl (fd, o) ↦ elim (Option-cases (kernel.grabs fd)) [
      | inl n ↦ rw (e, o, n, acquire) (grabbed-IsAccounted path fd g e h)
      | inr (error, n) ↦ rw (e, o, n, acquire) (refused-IsAccounted path fd g h)
    ]
  ]
]

acquire_all-IsAccounted :
    (kernel : Kernel) (nodes : List Text) (held : Held)
    → IsAccounted held.0
    → IsAccounted (acquire_all kernel nodes held).0
unfolding acquire_all
acquire_all-IsAccounted kernel [] held h = h
acquire_all-IsAccounted kernel (path ∷ nodes) held h =
    acquire_all-IsAccounted kernel nodes (acquire kernel path held)
      (acquire-IsAccounted kernel path held h)

renewed-IsAccounted :
    (g : Grabber) (errors : Dict Text Text)
    → IsAccounted g
    → IsAccounted (record g { last_errors = errors })
renewed-IsAccounted g errors h = record { distinct = h.distinct; opens = h.opens; grabs = h.grabs }

pub reconcile_sync-stopping :
    (kernel : Kernel) (g : Grabber) → g.stopping ≡ true → reconcile_sync kernel g ≡ (g, g.status)
unfolding reconcile_sync
reconcile_sync-stopping kernel g e = ground arith

pub reconcile_sync-running :
    (kernel : Kernel) (g : Grabber)
    → g.stopping ≡ false
    → reconcile_sync kernel g
      ≡ reconciled (matching_nodes_sync g.address kernel) (
          acquire_all kernel
            (sorted (matching_nodes_sync g.address kernel))
            (release_stale (matching_nodes_sync g.address kernel) (paths g.fds) g, []))
unfolding reconcile_sync
reconcile_sync-running kernel g e = ground arith

-- A reconciliation keeps the account: whatever the calls of the kernel answer, every descriptor was
-- opened as often as it was closed, once more for each node that holds it; and grabbed as often as it
-- was released, once more for each node that holds it.
pub reconcile_sync-IsAccounted :
    (kernel : Kernel) (g : Grabber) → IsAccounted g → IsAccounted (reconcile_sync kernel g).0
unfolding reconciled
reconcile_sync-IsAccounted kernel g h = elim (Bool-cases g.stopping) [
  | inl e ↦ rw (reconcile_sync-stopping kernel g e) h
  | inr e ↦
      let nodes = matching_nodes_sync g.address kernel in
      rw (reconcile_sync-running kernel g e) (
        renewed-IsAccounted _ _ (
          acquire_all-IsAccounted kernel (sorted nodes) (release_stale nodes (paths g.fds) g, [])
            (release_stale-IsAccounted nodes (paths g.fds) g h)))
]

pub release_each-IsAccounted :
    (held : List Text) (g : Grabber) → IsAccounted g → IsAccounted (release_each held g)
unfolding release_each
release_each-IsAccounted [] g h = h
release_each-IsAccounted (path ∷ held) g h =
    release_each-IsAccounted held _ (release_sync-IsAccounted path g h)

-- Nothing is held any more.
pub record IsReleasedAll (g : Grabber) : Type 0 where
  pub none_held : g.fds ≡ []
  pub all_closed : (fd : ℕ) → opens_of fd g.events ≡ closes_of fd g.events
  pub all_ungrabbed : (fd : ℕ) → grabs_of fd g.events ≡ ungrabs_of fd g.events
