-- ===== src/Hid/Decode.antt =====
-- HidReportDecoder, `_usage_for_value`, `usage_page_name` and `usage_name` of hid.py.
pub mod Zero
pub mod Local
use home_assistant_bluetooth.Prelude.{
  ℕ, zero, suc, ◌+◌, ◌*◌, ◌/◌, Bool, true, false, ◌&&◌, Option, none, some, List, [], ◌∷◌, ◌++◌,
  Text, Result, ok, err, ltb, leb, ◌==◌, nat_eq, if◌then◌else◌, length, get_elem?, ◌>>=◌,
}
use Prim.Native.Nat.{bit_and}
use home_assistant_bluetooth.Prelude.Bits.{shr, mask}
use home_assistant_bluetooth.Prelude.Bytes.{Bytes, from_bytes_little}
use home_assistant_bluetooth.Prelude.Dict.{Dict, get, get_or, put}
use home_assistant_bluetooth.Hid.Types.{HidUsage, HidInputField, UsageTables}
use home_assistant_bluetooth.Hid.Parse.{Parsed, parse_input_fields}

pub record HidReportDecoder : Type 0 where
  pub fields_by_report_id : Dict ℕ (List HidInputField)
  pub report_bits : Dict ℕ ℕ

-- The loop of `__init__`: `setdefault(field.report_id, []).append(field)`.
unfoldable pub group_fields :
    Dict ℕ (List HidInputField) → List HidInputField → Dict ℕ (List HidInputField)
group_fields groups [] = groups
group_fields groups (field ∷ fields) =
    group_fields (put groups field.report_id (get_or groups field.report_id [] ++ field ∷ []))
      fields

unfoldable pub make_decoder : List HidInputField → Dict ℕ ℕ → HidReportDecoder
make_decoder fields report_bits = record {
  fields_by_report_id = group_fields [] fields;
  report_bits = report_bits;
}

unfoldable pub from_report_map : Bytes → Parsed HidReportDecoder
from_report_map report_map = do
  (fields, report_bits) ← parse_input_fields report_map
  ok (make_decoder fields report_bits)

-- usages[-1]
unfoldable pub last_usage : List (ℕ × ℕ) → Option (ℕ × ℕ)
last_usage [] = none
last_usage (u ∷ []) = some u
last_usage (u ∷ v ∷ us) = last_usage (v ∷ us)

-- The usage of a slot inside the Usage Minimum / Maximum range.
unfoldable pub range_usage : Option (ℕ × ℕ) → Option (ℕ × ℕ) → ℕ → Option (ℕ × ℕ)
range_usage (some (page, first)) (some (last_page, last)) index =
    let usage_id = first + index in
    if page == last_page && leb usage_id last then some (page, usage_id) else none
range_usage _ _ index = none

unfoldable pub usage_for_value : HidInputField → ℕ → ℕ → Option (ℕ × ℕ)
usage_for_value field index value =
    if field.variable
    then if ltb index (length field.usages)
      then get_elem? field.usages index
      else elim (range_usage field.usage_minimum field.usage_maximum index) [
        | some usage ↦ some usage
        | none ↦ last_usage field.usages
      ]
    else some (field.usage_page, value)

module _ (tables : UsageTables) where
  -- `f"Usage Page 0x{page:02X}"` is a display text of another library's format; `hex` stands for it.
  unfoldable pub usage_page_name : (ℕ → Text) → ℕ → Text
  usage_page_name hex page = elim (tables.page_description page) [
    | some name ↦ name
    | none ↦ hex page
  ]

  unfoldable pub usage_name : ℕ → ℕ → Option Text
  usage_name page usage_id = tables.usage_description page usage_id

  -- What the loop body appends for one slot of a field.
  unfoldable pub decode_value : HidInputField → ℕ → ℕ → List HidUsage
  decode_value field index value =
      if value == 0 then [] else elim (usage_for_value field index value) [
        | none ↦ []
        | some (page, usage_id) ↦
            record { usage_page = page; usage_id = usage_id; name = usage_name page usage_id } ∷ []
      ]

  unfoldable pub slot_value : HidInputField → ℕ → ℕ → ℕ
  slot_value field raw index =
      bit_and (shr raw (field.bit_offset + index * field.report_size)) (mask field.report_size)

  -- `for index in range(report_count)`, with `n` rounds left.
  unfoldable pub decode_slots : HidInputField → ℕ → ℕ → ℕ → List HidUsage
  decode_slots field raw zero index = []
  decode_slots field raw (suc n) index =
      decode_value field index (slot_value field raw index) ++ decode_slots field raw n (suc index)

  unfoldable pub decode_field : HidInputField → ℕ → List HidUsage
  decode_field field raw =
      if field.report_size == 0 then [] else decode_slots field raw field.report_count 0

  unfoldable pub decode_fields : List HidInputField → ℕ → List HidUsage
  decode_fields [] raw = []
  decode_fields (field ∷ fields) raw = decode_field field raw ++ decode_fields fields raw

  unfoldable pub decode : HidReportDecoder → ℕ → Bytes → List HidUsage
  decode decoder report_id payload =
      decode_fields (get_or decoder.fields_by_report_id report_id []) (from_bytes_little payload)

unfoldable pub input_report_size_bytes : HidReportDecoder → ℕ → Option ℕ
input_report_size_bytes decoder report_id = elim (get decoder.report_bits report_id) [
  | none ↦ none
  | some final_bit ↦ some ((final_bit + 7) / 8)
]
