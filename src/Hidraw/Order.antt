-- ===== src/Hidraw/Order.antt =====
-- The node that a write takes: the first in the order of the paths that accepts the report.
use mathlib.Core.Path.{subst}
use mathlib.Core.Bool.{false≢true}
use home_assistant_bluetooth.Prelude.{
  ℕ, ◌<◌, ◌≡◌, ◌↔◌, ◌⊎◌, refl, sym, ◌∙◌, ap, inl, inr, true, false, ◌||◌, Option, none, some, List,
  [], ◌∷◌, ◌==◌, text_eq, text_beq_iff, arith, Text, leb, Bool-cases, Option-cases, Result, ok, err,
}
use home_assistant_bluetooth.Prelude.Bytes.{Bytes}
use home_assistant_bluetooth.Prelude.Dict.{Dict, contains}
use home_assistant_bluetooth.Grab.{text_leb}
use home_assistant_bluetooth.Hidraw.{
  Node, Kernel, WriteError, bad_report_id, no_node, failed, insert_node, sorted_nodes,
  matching_devices_sync, matches, node_paths, write_sync,
}
use home_assistant_bluetooth.Hidraw.Nodes.{
  IsNode, contains-insert_node, contains-matching_devices_sync_iff,
}
use home_assistant_bluetooth.Hidraw.Writes.{accepts, first_accepting, expected, write_sync-expected}

-- The order of texts: at the first difference the smaller character, or the end, comes first.
abbrev pub Precedes : Text → Text → Type 0
Precedes [] t = Unit
Precedes (a ∷ s) [] = ⊥
Precedes (a ∷ s) (b ∷ t) = (a < b) ⊎ ((a ≡ b) × Precedes s t)

text_leb-Precedes : (s t : Text) → text_leb s t ≡ true → Precedes s t
unfolding text_leb
text_leb-Precedes [] t h = tt
text_leb-Precedes (a ∷ s) [] h = false≢true h
text_leb-Precedes (a ∷ s) (b ∷ t) h = ground (arith, text_leb-Precedes s t)

text_leb_total : (s t : Text) → text_leb s t ≡ false → text_leb t s ≡ true
unfolding text_leb
text_leb_total [] t h = ground arith
text_leb_total (a ∷ s) [] h = refl
text_leb_total (a ∷ s) (b ∷ t) h = ground (arith, text_leb_total s t)

text_leb_refl : (s : Text) → text_leb s s ≡ true
text_leb_refl s = elim (Bool-cases (text_leb s s)) [ inl h ↦ h | inr h ↦ text_leb_total s s h ]

text_leb_trans : (s t u : Text) → text_leb s t ≡ true → text_leb t u ≡ true → text_leb s u ≡ true
unfolding text_leb
text_leb_trans [] t u h k = refl
text_leb_trans (a ∷ s) [] u h k = absurd (false≢true h)
text_leb_trans (a ∷ s) (b ∷ t) [] h k = absurd (false≢true k)
text_leb_trans (a ∷ s) (b ∷ t) (c ∷ u) h k = ground (arith, text_leb_trans s t u)

-- The path comes before all of the nodes, and the nodes are in order.
abbrev Below : Text → List Node → Type 0
Below p xs = (q : Text) → contains (node_paths xs) q ≡ true → text_leb p q ≡ true

abbrev Ordered : List Node → Type 0
Ordered [] = Unit
Ordered ((p, properties) ∷ xs) = Below p xs × Ordered xs

head_or_tail :
    (x : Node) (p q : Text) (ys : List Node)
    → text_leb p x.0 ≡ true
    → Below p ys
    → (x.0 == q || contains (node_paths ys) q) ≡ true
    → text_leb p q ≡ true
head_or_tail x p q ys first rest h = elim (Bool-cases (x.0 == q)) [
  | inl hit ↦ subst (λ t. text_leb p t ≡ true) ((text_beq_iff x.0 q).0 hit) first
  | inr miss ↦ rest q (ground (arith, h, miss))
]

insert_node-Ordered : (x : Node) (ys : List Node) → Ordered ys → Ordered (insert_node x ys)
unfolding insert_node contains
insert_node-Ordered x [] o = (λ q h. absurd (false≢true h), tt)
insert_node-Ordered (p, a) ((r, b) ∷ ys) (low, o) = elim (Bool-cases (text_leb p r)) [
  | inl first ↦ rw first (
    λ q h. head_or_tail (r, b) p q ys first (λ t k. text_leb_trans p r t first (low t k)) h,
    (low, o),
  )
  | inr later ↦ rw later (
    λ q h.
        head_or_tail (p, a) r q ys (text_leb_total p r later) low
          (sym (contains-insert_node (p, a) ys q) ∙ h),
    insert_node-Ordered (p, a) ys o,
  )
]

sorted_nodes-Ordered : (xs : List Node) → Ordered (sorted_nodes xs)
unfolding sorted_nodes
sorted_nodes-Ordered [] = tt
sorted_nodes-Ordered (x ∷ xs) = insert_node-Ordered x (sorted_nodes xs) (sorted_nodes-Ordered xs)

matching-Ordered :
    (address : Text) (entries : Option (Dict Text (Option Text)))
    → Ordered (matching_devices_sync address entries)
unfolding matching_devices_sync
matching-Ordered address none = tt
matching-Ordered address (some entries) = sorted_nodes-Ordered (matches address entries)

module _ (kernel : Kernel) (report : Bytes) where
  -- The node takes the report, and no node before it does.
  record Found (nodes : List Node) (path : Text) : Type 0 where
    member : contains (node_paths nodes) path ≡ true
    takes : accepts kernel report path ≡ true
    least :
        (q : Text)
        → contains (node_paths nodes) q ≡ true
        → accepts kernel report q ≡ true
        → text_leb path q ≡ true

  first_accepting-Found :
      (nodes : List Node) (path : Text)
      → Ordered nodes
      → first_accepting kernel report (node_paths nodes) ≡ some path
      → Found nodes path
  unfolding first_accepting contains
  first_accepting-Found [] path o e = cc
  first_accepting-Found ((p, a) ∷ nodes) path (low, o) e =
      elim (Bool-cases (accepts kernel report p)) [
        | inl hit ↦
            let same : p ≡ path = ground (arith, e, hit) in
            subst (Found ((p, a) ∷ nodes)) same record {
              member = ground (arith, (text_beq_iff p p).1 refl);
              takes = hit;
              least = λ q m k. head_or_tail (p, a) p q nodes (text_leb_refl p) low m;
            }
        | inr miss ↦
            let later = first_accepting-Found nodes path o (ground (arith, e, miss)) in
            record {
              member = ground (arith, later.member);
              takes = later.takes;
              least = λ q m k. elim (Bool-cases (text_eq.beq p q)) [
                | inl same ↦ absurd (
                    false≢true
                      (sym miss ∙ (ap (accepts kernel report) ((text_beq_iff p q).0 same) ∙ k)))
                | inr other ↦ later.least q (ground (arith, m, other)) k
              ];
            }
      ]

  first_accepting-none :
      (nodes : List Node) (q : Text)
      → first_accepting kernel report (node_paths nodes) ≡ none
      → contains (node_paths nodes) q ≡ true
      → accepts kernel report q ≡ false
  unfolding first_accepting contains
  first_accepting-none [] q e m = absurd (false≢true m)
  first_accepting-none ((p, a) ∷ nodes) q e m = elim (Bool-cases (accepts kernel report p)) [
    | inl hit ↦ ground (arith, e, hit)
    | inr miss ↦ elim (Bool-cases (text_eq.beq p q)) [
      | inl same ↦ ap (accepts kernel report) (sym ((text_beq_iff p q).0 same)) ∙ miss
      | inr other ↦
          first_accepting-none nodes q (ground (arith, e, miss)) (ground (arith, m, other))
    ]
  ]

-- What a write of a report gives: the first node of the remote that accepts the report, all its nodes
-- where none does, and another error where it has no node.
abbrev pub IsFirst :
    Text → Option (Dict Text (Option Text)) → Kernel → Bytes → Result WriteError Text → Type 0
IsFirst address entries kernel report (ok path) =
    IsNode address entries path
    × (accepts kernel report path ≡ true)
    × ((q : Text) → IsNode address entries q → accepts kernel report q ≡ true → Precedes path q)
IsFirst address entries kernel report (err (failed paths)) =
    ((p : Text) × IsNode address entries p)
    × ((q : Text) → (contains paths q ≡ true) ↔ IsNode address entries q)
    × ((q : Text) → IsNode address entries q → accepts kernel report q ≡ false)
IsFirst address entries kernel report (err no_node) = (q : Text) → ¬ IsNode address entries q
IsFirst address entries kernel report (err bad_report_id) = ⊥

module _ (address : Text) (entries : Option (Dict Text (Option Text))) (kernel : Kernel)
    (report : Bytes) where
  expected-IsFirst :
      (nodes : List Node)
      → Ordered nodes
      → ((q : Text) → (contains (node_paths nodes) q ≡ true) ↔ IsNode address entries q)
      → IsFirst address entries kernel report (expected kernel report (node_paths nodes))
  unfolding expected contains
  expected-IsFirst [] o same = λ q n. false≢true ((same q).1 n)
  expected-IsFirst ((p, a) ∷ nodes) o same =
      let paths = node_paths ((p, a) ∷ nodes) in
      elim (Option-cases (first_accepting kernel report paths)) [
        | inl e ↦ rw e (
          (p, (same p).0 (ground (arith, (text_beq_iff p p).1 refl))),
          same,
          λ q n. first_accepting-none kernel report ((p, a) ∷ nodes) q e ((same q).1 n),
        )
        | inr (path, e) ↦
            let f = first_accepting-Found kernel report ((p, a) ∷ nodes) path o e in
            rw e (
              (same path).0 f.member,
              f.takes,
              λ q n k. text_leb-Precedes path q (f.least q ((same q).1 n) k),
            )
      ]

-- A node of the remote is one that the kernel lists under "hidraw" and a decimal number with the
-- remote's address as its HID_UNIQ; it accepts a report where it can be opened and takes all bytes. A
-- write of a report whose ID is a byte returns the accepting node whose path comes first; without an
-- accepting node it raises with exactly the paths of the nodes, and without a node it says so.
pub write_sync-IsFirst :
    (address : Text) (entries : Option (Dict Text (Option Text))) (kernel : Kernel) (report_id : ℕ)
    (payload : Bytes)
    → leb report_id 255 ≡ true
    → IsFirst address entries kernel
        (report_id ∷ payload)
        (write_sync address entries kernel report_id payload).0
write_sync-IsFirst address entries kernel report_id payload h =
    rw (write_sync-expected address entries kernel report_id payload h) (
      expected-IsFirst address entries kernel (report_id ∷ payload)
        (matching_devices_sync address entries) (matching-Ordered address entries)
        (contains-matching_devices_sync_iff address entries))
