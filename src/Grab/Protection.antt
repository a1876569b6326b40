-- ===== src/Grab/Protection.antt =====
-- What a reconciliation makes of every node, for the nodes as the kernel lists them.
use home_assistant_bluetooth.Prelude.{
  ◌≡◌, ◌↔◌, ◌⊎◌, ◌∙◌, sym, inl, inr, Bool, true, false, ◌||◌, not, text_eq, arith, Text,
}
use home_assistant_bluetooth.Prelude.Dict.{has, contains}
use home_assistant_bluetooth.Grab.{Grabber, Kernel, InputGrabStatus, reconcile_sync}
use home_assistant_bluetooth.Grab.Matches.{IsMatch, contains-matching_nodes_sync_iff}
use home_assistant_bluetooth.Grab.Status.{refuses, reconcile_sync-Treats}

-- What a reconciliation makes of one node.
pub record Reconciles (kernel : Kernel) (g : Grabber) (p : Text) (after : Grabber × InputGrabStatus)
    : Type 0 where
  pub held :
      (has after.0.fds p ≡ true)
      ↔ (IsMatch g.address kernel p × ((has g.fds p ≡ true) ⊎ (refuses kernel p ≡ false)))
  pub failed :
      (has after.1.errors p ≡ true)
      ↔ (IsMatch g.address kernel p × (has g.fds p ≡ false) × (refuses kernel p ≡ true))
  pub matched : (contains after.1.matching_nodes p ≡ true) ↔ IsMatch g.address kernel p
  pub reported : contains after.1.grabbed_nodes p ≡ has after.0.fds p

held_or : (b c : Bool) → (b || not c) ≡ true → (b ≡ true) ⊎ (c ≡ false)
held_or true c h = inl h
held_or false c h = inr (ground arith)

-- A reconciliation that is not stopped treats every node by itself. A node matches where the kernel lists
-- it under "event" and a decimal number with the grabber's address as its unique ID, stripped and in
-- lower case. A node is held afterwards exactly when it matches and was held before or can be opened and
-- grabbed; it has an error exactly when it matches, was not held and cannot be opened or grabbed; and the
-- status names the nodes that match and the nodes that are held.
pub reconcile_sync-Reconciles :
    (kernel : Kernel) (g : Grabber) (p : Text)
    → g.stopping ≡ false
    → Reconciles kernel g p (reconcile_sync kernel g)
reconcile_sync-Reconciles kernel g p running =
    let r = reconcile_sync-Treats kernel g p running in
    let m = contains-matching_nodes_sync_iff g.address kernel p in
    record {
      held = (
        λ h.
            let both = sym r.held ∙ h in
            (
              m.0 (ground (arith, both)),
              held_or (has g.fds p) (refuses kernel p) (ground (arith, both)),
            ),
        λ (k, can). r.held ∙ ground (arith, m.1 k, can),
      );
      failed = (
        λ h.
            let all = sym r.failed ∙ h in
            (m.0 (ground (arith, all)), ground (arith, all), ground (arith, all)),
        λ (k, free, refused). r.failed ∙ ground (arith, m.1 k, free, refused),
      );
      matched = (λ h. m.0 (sym r.matched ∙ h), λ k. r.matched ∙ m.1 k);
      reported = r.reported;
    }
