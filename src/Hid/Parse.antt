-- ===== src/Hid/Parse.antt =====
-- `_parse_input_fields` and `_qualified_usage` of hid.py: the walk over a HID Report Map.
-- `report_map[offset:]` is the list that is left; each round of the loop takes at least one byte,
-- so the fuel `len(report_map)` is enough.
pub mod Total
pub mod Layout
use home_assistant_bluetooth.Prelude.{
  ℕ, zero, suc, ◌+◌, ◌*◌, ◌%◌, Bool, true, false, ◌&&◌, not, Option, none, some, List, [], ◌∷◌,
  ◌++◌, ltb, ◌==◌, nat_eq, if◌then◌else◌, length, take, drop, Result, ok, err, ◌>>=◌,
}
use Prim.Native.Nat.{bit_and}
use home_assistant_bluetooth.Prelude.Bits.{shr}
use home_assistant_bluetooth.Prelude.Bytes.{Bytes, from_bytes_little}
use home_assistant_bluetooth.Prelude.Dict.{Dict, get_or, put}
use home_assistant_bluetooth.Hid.Types.{HidInputField}

-- The four messages of HidReportDescriptorError, and the fuel running out.
pub data HidReportDescriptorError : Type 0 where
  long_item_header long_item_data short_item_data pop_without_push : HidReportDescriptorError
  out_of_fuel : HidReportDescriptorError

-- The global items that Push saves.
pub record Globals : Type 0 where
  pub usage_page : ℕ
  pub report_size : ℕ
  pub report_count : ℕ
  pub report_id : ℕ

-- The local variables of the loop; the top of `global_stack` is its first element.
pub record ParseState : Type 0 where
  pub globals : Globals
  pub open globals use *
  pub global_stack : List Globals
  pub bit_offsets : Dict ℕ ℕ
  pub local_usages : List (ℕ × ℕ)
  pub usage_minimum : Option (ℕ × ℕ)
  pub usage_maximum : Option (ℕ × ℕ)
  pub fields : List HidInputField

abbrev pub initial : ParseState
initial = record {
  globals = record { usage_page = 0; report_size = 0; report_count = 0; report_id = 0 };
  global_stack = [];
  bit_offsets = [];
  local_usages = [];
  usage_minimum = none;
  usage_maximum = none;
  fields = [];
}

-- What one round of the loop reads.
pub data Item : Type 0 where
  long_item : Item
  short_item : (item_type tag size value : ℕ) → Item

abbrev pub Parsed : Type 0 → Type 0
Parsed A = Result HidReportDescriptorError A

-- A long item: a length byte, a tag byte, and `length` bytes that are skipped.
unfoldable pub read_long : Bytes → Parsed (Item × Bytes)
read_long (size ∷ tag ∷ rest) =
    if ltb (length rest) size then err long_item_data else ok (long_item, drop size rest)
read_long _ = err long_item_header

unfoldable pub short_size : ℕ → ℕ
short_size prefix = let size_code = bit_and prefix 0x03 in if size_code == 3 then 4 else size_code

unfoldable pub read_short : ℕ → Bytes → Parsed (Item × Bytes)
unfolding short_size
read_short prefix rest =
    let size = short_size prefix in
    if ltb (length rest) size
    then err short_item_data
    else ok (
      short_item (bit_and (shr prefix 2) 0x03) (bit_and (shr prefix 4) 0x0F) size
          (from_bytes_little (take size rest)),
      drop size rest,
    )

unfoldable pub read_item : ℕ → Bytes → Parsed (Item × Bytes)
read_item prefix rest = if prefix == 0xFE then read_long rest else read_short prefix rest

unfoldable pub pop_globals : List Globals → ParseState → Parsed ParseState
pop_globals [] s = err pop_without_push
pop_globals (g ∷ stack) s = ok (record s { globals = g; global_stack = stack })

unfoldable pub global_item : ℕ → ℕ → ParseState → Parsed ParseState
global_item tag value s =
    if tag == 0
    then ok (record s { globals = record s.globals { usage_page = value } })
    else if tag == 7
    then ok (record s { globals = record s.globals { report_size = value } })
    else if tag == 8
    then ok (record s { globals = record s.globals { report_id = value } })
    else if tag == 9
    then ok (record s { globals = record s.globals { report_count = value } })
    else if tag == 10
    then ok (record s { global_stack = s.globals ∷ s.global_stack })
    else if tag == 11
    then pop_globals s.global_stack s
    else ok s

unfoldable pub qualified_usage : ℕ → ℕ → ℕ → ℕ × ℕ
qualified_usage page value size =
    if size == 4 && ltb 0xFFFF value then (shr value 16, bit_and value 0xFFFF) else (page, value)

unfoldable pub local_item : ℕ → ℕ × ℕ → ParseState → ParseState
local_item tag usage s =
    if tag == 0
    then record s { local_usages = s.local_usages ++ usage ∷ [] }
    else if tag == 1
    then record s { usage_minimum = some usage }
    else if tag == 2
    then record s { usage_maximum = some usage }
    else s

-- The field of an Input item in the present state.
unfoldable pub input_field : ℕ → ParseState → HidInputField
input_field value s = record {
  report_id = s.report_id;
  bit_offset = get_or s.bit_offsets s.report_id 0;
  report_size = s.report_size;
  report_count = s.report_count;
  usage_page = s.usage_page;
  variable = not (bit_and value 0x02 == 0);
  usages = s.local_usages;
  usage_minimum = s.usage_minimum;
  usage_maximum = s.usage_maximum;
}

-- `not constant and report_size and report_count`
unfoldable pub emits : ℕ → ParseState → Bool
emits value s =
    let constant = not (bit_and value 0x01 == 0) in
    not constant && (not (s.report_size == 0) && not (s.report_count == 0))

unfoldable pub input_item : ℕ → ParseState → ParseState
input_item value s =
    let bit_offset = get_or s.bit_offsets s.report_id 0 in
    record s {
      fields = if emits value s then s.fields ++ input_field value s ∷ [] else s.fields;
      bit_offsets = put s.bit_offsets s.report_id (bit_offset + s.report_size * s.report_count);
    }

-- Local state is reset after every Main item.
unfoldable pub reset_locals : ParseState → ParseState
reset_locals s = record s { local_usages = []; usage_minimum = none; usage_maximum = none }

unfoldable pub main_item : ℕ → ℕ → ParseState → ParseState
main_item tag value s = reset_locals (if tag == 8 then input_item value s else s)

unfoldable pub handle_item : Item → ParseState → Parsed ParseState
handle_item long_item s = ok s
handle_item (short_item item_type tag size value) s =
    if item_type == 1
    then global_item tag value s
    else if item_type == 2
    then ok (local_item tag (qualified_usage s.usage_page value size) s)
    else if not (item_type == 0)
    then ok s
    else ok (main_item tag value s)

-- One round: read an item, handle it, and give back the bytes that are left.
unfoldable pub parse_round : ℕ → Bytes → ParseState → Parsed (ParseState × Bytes)
parse_round prefix rest s = do
  (item, left) ← read_item prefix rest
  s' ← handle_item item s
  ok (s', left)

unfoldable pub parse_loop : ℕ → Bytes → ParseState → Parsed ParseState
parse_loop fuel [] s = ok s
parse_loop zero (prefix ∷ rest) s = err out_of_fuel
parse_loop (suc fuel) (prefix ∷ rest) s = parse_round prefix rest s >>= λ r. parse_loop fuel r.1 r.0

unfoldable pub parse_input_fields : Bytes → Parsed (List HidInputField × Dict ℕ ℕ)
parse_input_fields report_map = do
  s ← parse_loop (length report_map) report_map initial
  ok (s.fields, s.bit_offsets)
