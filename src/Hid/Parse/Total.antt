-- ===== src/Hid/Parse/Total.antt =====
-- The parser ends: its fuel is never the reason for an error.
use home_assistant_bluetooth.Prelude.{
  ℕ, zero, suc, ◌≤◌, ◌≡◌, ◌≢◌, [], ◌∷◌, arith, length, length-drop, ok, err, Result-cases,
}
use home_assistant_bluetooth.Prelude.Bytes.{Bytes}
use mathlib.Core.Logic.{inl, inr}
use home_assistant_bluetooth.Hid.Parse.{
  out_of_fuel, ParseState, Item, long_item, short_item, read_item, read_long, read_short,
  short_size, pop_globals, global_item, handle_item, parse_round, parse_loop, parse_input_fields,
  initial,
}

-- An item leaves no more bytes than there were.
read_long-le :
    (rest : Bytes) {i : Item} {left : Bytes}
    → read_long rest ≡ ok (i, left)
    → length left ≤ length rest
unfolding read_long
read_long-le [] h = cc
read_long-le (a ∷ []) h = cc
read_long-le (size ∷ tag ∷ rest) h = ground (arith, length-drop size rest)

read_short-le :
    (prefix : ℕ) (rest : Bytes) {i : Item} {left : Bytes}
    → read_short prefix rest ≡ ok (i, left)
    → length left ≤ length rest
unfolding read_short
read_short-le prefix rest h = ground (arith, length-drop (short_size prefix) rest)

read_item-le :
    (prefix : ℕ) (rest : Bytes) {i : Item} {left : Bytes}
    → read_item prefix rest ≡ ok (i, left)
    → length left ≤ length rest
unfolding read_item
read_item-le prefix rest {i} {left} h = ground (
  arith,
  read_long-le rest {i = i} {left = left},
  read_short-le prefix rest {i = i} {left = left},
)

read_item-fuel : (prefix : ℕ) (rest : Bytes) → read_item prefix rest ≢ err out_of_fuel
unfolding read_item read_long read_short
read_item-fuel prefix rest h = ground arith

handle_item-fuel : (i : Item) (s : ParseState) → handle_item i s ≢ err out_of_fuel
unfolding handle_item global_item pop_globals
handle_item-fuel long_item s h = cc
handle_item-fuel (short_item ty tag size value) s h = ground arith

-- One round never runs out, and leaves at most the bytes behind the prefix.
parse_round-fuel :
    (prefix : ℕ) (rest : Bytes) (s : ParseState) → parse_round prefix rest s ≢ err out_of_fuel
unfolding parse_round
parse_round-fuel prefix rest s h = elim (Result-cases (read_item prefix rest)) [
  | inr (e, q) ↦ ground (arith, read_item-fuel prefix rest)
  | inl ((i, left), q) ↦ ground (arith, handle_item-fuel i s)
]

parse_round-le :
    (prefix : ℕ) (rest : Bytes) (s : ParseState) {t : ParseState} {left : Bytes}
    → parse_round prefix rest s ≡ ok (t, left)
    → length left ≤ length rest
unfolding parse_round
parse_round-le prefix rest s h = elim (Result-cases (read_item prefix rest)) [
  | inr (e, q) ↦ ground arith
  | inl ((i, left), q) ↦ ground (arith, read_item-le prefix rest q)
]

parse_loop-fuel :
    (fuel : ℕ) (bytes : Bytes) (s : ParseState)
    → length bytes ≤ fuel
    → parse_loop fuel bytes s ≢ err out_of_fuel
unfolding parse_loop
parse_loop-fuel fuel [] s h e = cc
parse_loop-fuel zero (b ∷ bs) s h e = absurd (omega arith)
parse_loop-fuel (suc fuel) (b ∷ bs) s h e = elim (Result-cases (parse_round b bs s)) [
  | inr (x, q) ↦ ground (arith, parse_round-fuel b bs s)
  | inl ((t, left), q) ↦ ground (arith, parse_round-le b bs s q, parse_loop-fuel fuel left t)
]

-- Parsing a Report Map ends, whatever its bytes: it gives the fields with their bit offsets, or one
-- of the four HidReportDescriptorError messages, and the loop never runs short of rounds.
pub parse_input_fields_total :
    (report_map : Bytes) → parse_input_fields report_map ≢ err out_of_fuel
unfolding parse_input_fields
parse_input_fields_total report_map h =
    ground (arith, parse_loop-fuel (length report_map) report_map initial)
