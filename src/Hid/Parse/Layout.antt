-- ===== src/Hid/Parse/Layout.antt =====
-- Where the parser places the fields of a report: one behind the other, inside the declared size.
use home_assistant_bluetooth.Prelude.{
  ℕ, zero, suc, ◌+◌, ◌*◌, ◌≤◌, ◌<◌, ◌≡◌, refl, true, List, [], ◌∷◌, ◌++◌, arith, All, All-append,
  All-mono, length, ok, Result-cases, Bool-cases, inl, inr, nat_eq, ◌==◌, ==_iff,
}
use home_assistant_bluetooth.Prelude.Bytes.{Bytes}
use home_assistant_bluetooth.Prelude.Dict.{Dict, get_or, put, get_or-put}
use home_assistant_bluetooth.Hid.Types.{HidInputField}
use home_assistant_bluetooth.Hid.Parse.{
  ParseState, Item, long_item, short_item, pop_globals, global_item, local_item, input_field,
  input_item, reset_locals, main_item, handle_item, read_item, parse_round, parse_loop,
  parse_input_fields, initial, emits, qualified_usage,
}

-- The first bit behind a field.
abbrev pub field_end : HidInputField → ℕ
field_end f = f.bit_offset + f.report_size * f.report_count

abbrev pub Before : HidInputField → HidInputField → Type 0
Before g f = f.report_id ≡ g.report_id → field_end f ≤ g.bit_offset

-- Fields of one report follow one another without an overlap.
abbrev pub Apart : List HidInputField → Type 0
Apart [] = Unit
Apart (f ∷ fs) = All (λ g. Before g f) fs × Apart fs

abbrev pub Ends : Dict ℕ ℕ → HidInputField → Type 0
Ends offsets f = field_end f ≤ get_or offsets f.report_id 0

abbrev pub HasSlots : HidInputField → Type 0
HasSlots f = (0 < f.report_size) × (0 < f.report_count)

pub record IsLaid (fields : List HidInputField) (offsets : Dict ℕ ℕ) : Type 0 where
  pub slots : All HasSlots fields
  pub ends : All (Ends offsets) fields
  pub apart : Apart fields

Apart-snoc :
    (fs : List HidInputField) (g : HidInputField)
    → Apart fs
    → All (Before g) fs
    → Apart (fs ++ g ∷ [])
Apart-snoc [] g a b = (tt, tt)
Apart-snoc (f ∷ fs) g a b =
    (All-append (λ x. Before x f) fs (g ∷ []) a.0 (b.0, tt), Apart-snoc fs g a.1 b.1)

-- Moving the offset of one report up leaves every field inside.
Ends-put :
    (offsets : Dict ℕ ℕ) (k n : ℕ)
    → get_or offsets k 0 ≤ n
    → (f : HidInputField) → Ends offsets f
    → Ends (put offsets k n) f
Ends-put offsets k n h f e = rw get_or-put (ground (arith, ==_iff k f.report_id))

Ends-Before :
    (offsets : Dict ℕ ℕ) (g f : HidInputField)
    → g.bit_offset ≡ get_or offsets g.report_id 0
    → Ends offsets f
    → Before g f
Ends-Before offsets g f e h same = ground arith

abbrev pub StateIsLaid : ParseState → Type 0
StateIsLaid s = IsLaid s.fields s.bit_offsets

module _ (value : ℕ) (s : ParseState) (h : StateIsLaid s) where
  next_offset : ℕ
  next_offset = get_or s.bit_offsets s.report_id 0 + s.report_size * s.report_count

  old-Ends : All (Ends (put s.bit_offsets s.report_id next_offset)) s.fields
  unfolding next_offset
  old-Ends =
      All-mono (Ends s.bit_offsets) (Ends (put s.bit_offsets s.report_id next_offset))
        (Ends-put s.bit_offsets s.report_id next_offset (omega arith)) s.fields h.ends

  new_end : Ends (put s.bit_offsets s.report_id next_offset) (input_field value s)
  unfolding next_offset input_field
  new_end = rw get_or-put (ground (arith, ==_iff s.report_id s.report_id))

  new_slots : emits value s ≡ true → HasSlots (input_field value s)
  unfolding emits input_field
  new_slots e = ground arith

  new_Before : All (Before (input_field value s)) s.fields
  unfolding input_field
  new_Before =
      All-mono (Ends s.bit_offsets) (Before (input_field value s))
        (λ f k. Ends-Before s.bit_offsets (input_field value s) f refl k) s.fields h.ends

  input_item-IsLaid : StateIsLaid (input_item value s)
  unfolding input_item next_offset
  input_item-IsLaid = elim (Bool-cases (emits value s)) [
    | inl e ↦ rw e (record {
      slots = All-append HasSlots s.fields _ h.slots (new_slots e, tt);
      ends = All-append (Ends _) s.fields _ old-Ends (new_end, tt);
      apart = Apart-snoc s.fields _ h.apart new_Before;
    })
    | inr e ↦ rw e (record { slots = h.slots; ends = old-Ends; apart = h.apart })
  ]

main_item-IsLaid :
    (tag value : ℕ) (s : ParseState) → StateIsLaid s → StateIsLaid (main_item tag value s)
unfolding main_item reset_locals
main_item-IsLaid tag value s h = elim (Bool-cases (tag == 8)) [
  | inl e ↦
      let k = input_item-IsLaid value s h in
      rw e (record { slots = k.slots; ends = k.ends; apart = k.apart })
  | inr e ↦ rw e (record { slots = h.slots; ends = h.ends; apart = h.apart })
]

-- Global and local items touch neither the fields nor the offsets.
global_item-same :
    (tag value : ℕ) (s t : ParseState)
    → global_item tag value s ≡ ok t
    → (t.fields ≡ s.fields) × (t.bit_offsets ≡ s.bit_offsets)
unfolding global_item pop_globals
global_item-same tag value s t e = ground arith

local_item-same :
    (tag : ℕ) (u : ℕ × ℕ) (s : ParseState)
    → ((local_item tag u s).fields ≡ s.fields) × ((local_item tag u s).bit_offsets ≡ s.bit_offsets)
unfolding local_item
local_item-same tag u s = ground arith

StateIsLaid-same :
    (s t : ParseState)
    → (t.fields ≡ s.fields) × (t.bit_offsets ≡ s.bit_offsets)
    → StateIsLaid s
    → StateIsLaid t
StateIsLaid-same s t e h =
    rw (e.0, e.1) (record { slots = h.slots; ends = h.ends; apart = h.apart })

handle_item-IsLaid :
    (i : Item) (s t : ParseState) → handle_item i s ≡ ok t → StateIsLaid s → StateIsLaid t
unfolding handle_item
handle_item-IsLaid long_item s t e h = StateIsLaid-same s t (ground arith) h
handle_item-IsLaid (short_item ty tag size value) s t e h = elim (Bool-cases (ty == 1)) [
  | inl g ↦ StateIsLaid-same s t (global_item-same tag value s t (ground arith)) h
  | inr g ↦ elim (Bool-cases (ty == 2)) [
    | inl l ↦
        StateIsLaid-same s t
          (ground (arith, local_item-same tag (qualified_usage s.usage_page value size) s)) h
    | inr l ↦ elim (Bool-cases (ty == 0)) [
      | inl m ↦
          let same : main_item tag value s ≡ t = ground arith in
          rw same at (main_item-IsLaid tag value s h)
      | inr m ↦ StateIsLaid-same s t (ground arith) h
    ]
  ]
]

parse_loop-IsLaid :
    (fuel : ℕ) (bytes : Bytes) (s t : ParseState)
    → parse_loop fuel bytes s ≡ ok t
    → StateIsLaid s
    → StateIsLaid t
unfolding parse_loop parse_round
parse_loop-IsLaid fuel [] s t e h = StateIsLaid-same s t (ground arith) h
parse_loop-IsLaid zero (b ∷ bs) s t e h = cc
parse_loop-IsLaid (suc fuel) (b ∷ bs) s t e h = elim (Result-cases (read_item b bs)) [
  | inr (x, q) ↦ ground arith
  | inl ((i, left), q) ↦ elim (Result-cases (handle_item i s)) [
    | inr (x, r) ↦ ground arith
    | inl (u, r) ↦ parse_loop-IsLaid fuel left u t (ground arith) (handle_item-IsLaid i s u r h)
  ]
]

-- In what the parser returns, every field has a positive size and count and ends within the declared
-- bits of its report, and the fields of one report do not overlap.
pub parse_input_fields-IsLaid :
    (report_map : Bytes) (fields : List HidInputField) (offsets : Dict ℕ ℕ)
    → parse_input_fields report_map ≡ ok (fields, offsets)
    → IsLaid fields offsets
unfolding parse_input_fields
parse_input_fields-IsLaid report_map fields offsets e =
    elim (Result-cases (parse_loop (length report_map) report_map initial)) [
      | inr (x, q) ↦ ground arith
      | inl (s, q) ↦
          let k =
            parse_loop-IsLaid (length report_map) report_map initial s q
              (record { slots = tt; ends = tt; apart = tt }) in
          let same : (fields ≡ s.fields) × (offsets ≡ s.bit_offsets) = ground arith in
          rw (same.0, same.1) k
    ]
