-- ===== src/Hidraw/Nodes.antt =====
-- The nodes of a remote, as the kernel lists them, against `_matching_devices_sync`, and their order.
use mathlib.Core.Bool.{false≢true}
use home_assistant_bluetooth.Prelude.{
  ◌≡◌, ◌↔◌, refl, sym, ◌∙◌, ap, inl, inr, Bool, true, ◌&&◌, ◌||◌, Option, none, some, List, [], ◌∷◌,
  ◌++◌, ◌==◌, nat_eq, text_eq, text_beq_iff, arith, Text, codes, casefold, Bool-cases,
}
use home_assistant_bluetooth.Prelude.Dict.{Dict, get_or, contains}
use home_assistant_bluetooth.Grab.Matches.{all_digits_iff, IsNumbered, IsEntry}
use home_assistant_bluetooth.Hidraw.{
  Node, is_hidraw_name, parse_uevent, matches, insert_node, sorted_nodes, matching_devices_sync,
  node_paths,
}

is_hidraw_name-IsNumbered :
    (name : Text) → is_hidraw_name name ≡ true → IsNumbered (codes "hidraw") name
unfolding is_hidraw_name
is_hidraw_name-IsNumbered (h ∷ i ∷ d ∷ r ∷ a ∷ w ∷ n ∷ rest) e =
    let stem : (text_eq.beq (h ∷ i ∷ d ∷ r ∷ a ∷ w ∷ []) (codes "hidraw")) ≡ true =
      ground (arith, e) in
    record {
      first = n;
      rest = rest;
      shape =
          ap (λ s. s ++ n ∷ rest)
            ((text_beq_iff (h ∷ i ∷ d ∷ r ∷ a ∷ w ∷ []) (codes "hidraw")).0 stem);
      digits = (all_digits_iff (n ∷ rest)).0 (ground (arith, e));
    }
is_hidraw_name-IsNumbered _ e = absurd (false≢true e)

IsNumbered-is_hidraw_name :
    (name : Text) → IsNumbered (codes "hidraw") name → is_hidraw_name name ≡ true
unfolding is_hidraw_name
IsNumbered-is_hidraw_name name n =
    ap is_hidraw_name n.shape ∙ (all_digits_iff (n.first ∷ n.rest)).1 n.digits

-- The entry is a hidraw node whose HID_UNIQ, in lower case, is the address.
pub record IsRemote (address name text path : Text) : Type 0 where
  pub numbered : IsNumbered (codes "hidraw") name
  pub unique : casefold (get_or (parse_uevent text) (codes "HID_UNIQ") []) ≡ address
  pub place : path ≡ codes "/dev/" ++ name

abbrev IsListed : Text → Dict Text (Option Text) → Text → Type 0
IsListed address entries path =
    (name : Text) × (text : Text) × IsEntry name text entries × IsRemote address name text path

-- The path is that of a listed node of the remote, as far as the kernel can list its nodes.
abbrev pub IsNode : Text → Option (Dict Text (Option Text)) → Text → Type 0
IsNode address none path = ⊥
IsNode address (some entries) path = IsListed address entries path

abbrev fits : Text → Text → Text → Text → Bool
fits address name text path =
    is_hidraw_name name
    && text_eq.beq (casefold (get_or (parse_uevent text) (codes "HID_UNIQ") [])) address
    && text_eq.beq (codes "/dev/" ++ name) path

fits-IsRemote :
    (address name text path : Text)
    → fits address name text path ≡ true
    → IsRemote address name text path
fits-IsRemote address name text path h = record {
  numbered = is_hidraw_name-IsNumbered name (ground (arith, h));
  unique =
      (text_beq_iff (casefold (get_or (parse_uevent text) (codes "HID_UNIQ") [])) address).0
        (ground (arith, h));
  place = sym ((text_beq_iff (codes "/dev/" ++ name) path).0 (ground (arith, h)));
}

IsRemote-fits :
    (address name text path : Text)
    → IsRemote address name text path
    → fits address name text path ≡ true
IsRemote-fits address name text path n =
    rw
      (
        IsNumbered-is_hidraw_name name n.numbered,
        (text_beq_iff (casefold (get_or (parse_uevent text) (codes "HID_UNIQ") [])) address).1
            n.unique,
      )
      ((text_beq_iff (codes "/dev/" ++ name) path).1 (sym n.place))

abbrev lists : Text → Dict Text (Option Text) → Text → Bool
lists address entries path = contains (node_paths (matches address entries)) path

lists_entry :
    (address name text path : Text) (entries : Dict Text (Option Text))
    → lists address ((name, some text) ∷ entries) path
      ≡ (fits address name text path || lists address entries path)
unfolding matches contains
lists_entry address name text path entries = ground arith

lists_unread :
    (address name path : Text) (entries : Dict Text (Option Text))
    → lists address ((name, none) ∷ entries) path ≡ lists address entries path
unfolding matches
lists_unread address name path entries = refl

listed :
    (address path : Text) (entries : Dict Text (Option Text))
    → lists address entries path ≡ true
    → IsListed address entries path
unfolding matches contains
listed address path [] h = absurd (false≢true h)
listed address path ((name, none) ∷ entries) h =
    let (n, t, e, k) = listed address path entries h in (n, t, inr e, k)
listed address path ((name, some text) ∷ entries) h =
    elim (Bool-cases (fits address name text path)) [
      | inl f ↦ (name, text, inl (refl, refl), fits-IsRemote address name text path f)
      | inr f ↦
          let (n, t, e, k) =
            listed address path entries
              (ground (arith, h, f, lists_entry address name text path entries)) in
          (n, t, inr e, k)
    ]

matched :
    (address path name text : Text) (entries : Dict Text (Option Text))
    → IsEntry name text entries
    → IsRemote address name text path
    → lists address entries path ≡ true
matched address path name text [] e k = elim e [ ]
matched address path name text ((n, none) ∷ entries) (inl e) k = cc
matched address path name text ((n, none) ∷ entries) (inr e) k =
    lists_unread address n path entries ∙ matched address path name text entries e k
matched address path name text ((n, some t) ∷ entries) (inl e) k =
    let texts : t ≡ text = cc in
    let same : fits address n t path ≡ fits address name text path =
      ap (λ a. fits address a t path) e.0 ∙ ap (λ b. fits address name b path) texts in
    lists_entry address n t path entries
    ∙ ground (arith, same, IsRemote-fits address name text path k)
matched address path name text ((n, some t) ∷ entries) (inr e) k =
    lists_entry address n t path entries
    ∙ ground (arith, matched address path name text entries e k)

pub contains-insert_node :
    (x : Node) (ys : List Node) (q : Text)
    → contains (node_paths (insert_node x ys)) q ≡ (x.0 == q || contains (node_paths ys) q)
unfolding insert_node contains
contains-insert_node x [] q = refl
contains-insert_node x (y ∷ ys) q = ground (arith, contains-insert_node x ys q)

contains-sorted_nodes :
    (xs : List Node) (q : Text)
    → contains (node_paths (sorted_nodes xs)) q ≡ contains (node_paths xs) q
unfolding sorted_nodes contains
contains-sorted_nodes [] q = refl
contains-sorted_nodes (x ∷ xs) q =
    contains-insert_node x (sorted_nodes xs) q
    ∙ ap (λ b. x.0 == q || b) (contains-sorted_nodes xs q)

-- The nodes that the program takes are those of the remote.
pub contains-matching_devices_sync_iff :
    (address : Text) (entries : Option (Dict Text (Option Text))) (path : Text)
    → (contains (node_paths (matching_devices_sync address entries)) path ≡ true)
      ↔ IsNode address entries path
unfolding matching_devices_sync contains
contains-matching_devices_sync_iff address none path = (λ h. false≢true h, λ n. elim n [ ])
contains-matching_devices_sync_iff address (some entries) path = (
  λ h. listed address path entries (sym (contains-sorted_nodes (matches address entries) path) ∙ h),
  λ (name, text, e, k).
      contains-sorted_nodes (matches address entries) path
      ∙ matched address path name text entries e k,
)
