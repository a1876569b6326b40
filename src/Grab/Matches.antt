-- ===== src/Grab/Matches.antt =====
-- The event nodes of a remote, as the kernel lists them, against `_matching_nodes_sync`.
use mathlib.Core.Bool.{false≢true}
use home_assistant_bluetooth.Prelude.{
  ℕ, ◌≤◌, ◌≡◌, ◌↔◌, ◌⊎◌, refl, sym, ◌∙◌, ap, inl, inr, Bool, true, ◌&&◌, ◌||◌, Option, none, some,
  [], ◌∷◌, ◌++◌, text_eq, text_beq_iff, arith, Text, codes, casefold, Bool-cases, Option-cases,
}
use home_assistant_bluetooth.Prelude.Dict.{Dict, contains, contains-add}
use home_assistant_bluetooth.Keymap.Names.{strip, is_space}
use home_assistant_bluetooth.Grab.{Kernel, all_digits, is_event_name, matching, matching_nodes_sync}

-- Every character is a decimal digit.
abbrev pub AreDigits : Text → Type 0
AreDigits [] = Unit
AreDigits (c ∷ s) = (b'0' ≤ c) × (c ≤ b'9') × AreDigits s

pub all_digits_iff : (s : Text) → (all_digits s ≡ true) ↔ AreDigits s
unfolding all_digits
all_digits_iff [] = ground arith
all_digits_iff (c ∷ s) = ground (arith, all_digits_iff s)

-- A stem with a decimal number behind it.
pub record IsNumbered (stem name : Text) : Type 0 where
  pub first : ℕ
  pub rest : Text
  pub shape : name ≡ stem ++ first ∷ rest
  pub digits : AreDigits (first ∷ rest)

is_event_name-IsNumbered :
    (name : Text) → is_event_name name ≡ true → IsNumbered (codes "event") name
unfolding is_event_name
is_event_name-IsNumbered (e ∷ v ∷ n ∷ u ∷ t ∷ d ∷ rest) h =
    let stem : (text_eq.beq (e ∷ v ∷ n ∷ u ∷ t ∷ []) (codes "event")) ≡ true = ground (arith, h) in
    record {
      first = d;
      rest = rest;
      shape =
          ap (λ s. s ++ d ∷ rest) ((text_beq_iff (e ∷ v ∷ n ∷ u ∷ t ∷ []) (codes "event")).0 stem);
      digits = (all_digits_iff (d ∷ rest)).0 (ground (arith, h));
    }
is_event_name-IsNumbered _ h = absurd (false≢true h)

IsNumbered-is_event_name :
    (name : Text) → IsNumbered (codes "event") name → is_event_name name ≡ true
unfolding is_event_name
IsNumbered-is_event_name name n =
    ap is_event_name n.shape ∙ (all_digits_iff (n.first ∷ n.rest)).1 n.digits

-- The listing has this entry.
abbrev pub IsEntry : Text → Text → Dict Text (Option Text) → Type 0
IsEntry name text [] = ⊥
IsEntry name text ((n, content) ∷ entries) =
    ((n ≡ name) × (content ≡ some text)) ⊎ IsEntry name text entries

-- The entry is an event node whose unique ID is the address.
pub record IsNode (address name text path : Text) : Type 0 where
  pub numbered : IsNumbered (codes "event") name
  pub unique : casefold (strip is_space text) ≡ address
  pub place : path ≡ codes "/dev/input/" ++ name

-- The listing has an event node at the path whose unique ID is the address.
abbrev IsListed : Text → Dict Text (Option Text) → Text → Type 0
IsListed address nodes path =
    (name : Text) × (text : Text) × IsEntry name text nodes × IsNode address name text path

-- As far as the kernel can list its nodes.
abbrev pub IsMatch : Text → Kernel → Text → Type 0
IsMatch address kernel path =
    (nodes : Dict Text (Option Text)) × (kernel.uniqs ≡ some nodes) × IsListed address nodes path

abbrev fits : Text → Text → Text → Text → Bool
fits address name text path =
    is_event_name name
    && text_eq.beq (casefold (strip is_space text)) address
    && text_eq.beq (codes "/dev/input/" ++ name) path

fits-IsNode :
    (address name text path : Text)
    → fits address name text path ≡ true
    → IsNode address name text path
fits-IsNode address name text path h = record {
  numbered = is_event_name-IsNumbered name (ground (arith, h));
  unique = (text_beq_iff (casefold (strip is_space text)) address).0 (ground (arith, h));
  place = sym ((text_beq_iff (codes "/dev/input/" ++ name) path).0 (ground (arith, h)));
}

IsNode-fits :
    (address name text path : Text)
    → IsNode address name text path
    → fits address name text path ≡ true
IsNode-fits address name text path n =
    rw
      (
        IsNumbered-is_event_name name n.numbered,
        (text_beq_iff (casefold (strip is_space text)) address).1 n.unique,
      )
      ((text_beq_iff (codes "/dev/input/" ++ name) path).1 (sym n.place))

contains-matching :
    (address name text path : Text) (nodes : Dict Text (Option Text))
    → contains (matching address ((name, some text) ∷ nodes)) path
      ≡ (fits address name text path || contains (matching address nodes) path)
unfolding matching
contains-matching address name text path nodes =
    ground (arith, contains-add (matching address nodes) (codes "/dev/input/" ++ name) path)

skipped :
    (address name path : Text) (nodes : Dict Text (Option Text))
    → contains (matching address ((name, none) ∷ nodes)) path
      ≡ contains (matching address nodes) path
unfolding matching
skipped address name path nodes = refl

listed :
    (address path : Text) (nodes : Dict Text (Option Text))
    → contains (matching address nodes) path ≡ true
    → IsListed address nodes path
unfolding matching contains
listed address path [] h = absurd (false≢true h)
listed address path ((name, none) ∷ nodes) h =
    let (n, t, e, k) = listed address path nodes h in (n, t, inr e, k)
listed address path ((name, some text) ∷ nodes) h =
    elim (Bool-cases (fits address name text path)) [
      | inl f ↦ (name, text, inl (refl, refl), fits-IsNode address name text path f)
      | inr f ↦
          let (n, t, e, k) =
            listed address path nodes
              (ground (arith, h, f, contains-matching address name text path nodes)) in
          (n, t, inr e, k)
    ]

matched :
    (address path name text : Text) (nodes : Dict Text (Option Text))
    → IsEntry name text nodes
    → IsNode address name text path
    → contains (matching address nodes) path ≡ true
matched address path name text [] e k = elim e [ ]
matched address path name text ((n, none) ∷ nodes) (inl e) k = cc
matched address path name text ((n, none) ∷ nodes) (inr e) k =
    skipped address n path nodes ∙ matched address path name text nodes e k
matched address path name text ((n, some t) ∷ nodes) (inl e) k =
    let texts : t ≡ text = cc in
    let same : fits address n t path ≡ fits address name text path =
      ap (λ a. fits address a t path) e.0 ∙ ap (λ b. fits address name b path) texts in
    contains-matching address n t path nodes
    ∙ ground (arith, same, IsNode-fits address name text path k)
matched address path name text ((n, some t) ∷ nodes) (inr e) k =
    contains-matching address n t path nodes
    ∙ ground (arith, matched address path name text nodes e k)

-- The nodes that the program takes are those that match.
pub contains-matching_nodes_sync_iff :
    (address : Text) (kernel : Kernel) (path : Text)
    → (contains (matching_nodes_sync address kernel) path ≡ true) ↔ IsMatch address kernel path
unfolding matching_nodes_sync contains
contains-matching_nodes_sync_iff address kernel path = elim (Option-cases kernel.uniqs) [
  | inl e ↦ (λ h. absurd (false≢true (rw (e, matching_nodes_sync) at h)), λ (nodes, u, m). cc)
  | inr (nodes, e) ↦ (
    λ h. (nodes, e, listed address path nodes (rw (e, matching_nodes_sync) at h)),
    λ (others, u, m).
        let (name, text, l, k) = m in
        rw (u, matching_nodes_sync) (matched address path name text others l k),
  )
]
