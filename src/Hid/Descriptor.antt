-- ===== src/Hid/Descriptor.antt =====
-- The parser and the decoder together, on the Report Map of a remote: one array field, in which each
-- slot holds the usage of a pressed key or 0.
use home_assistant_bluetooth.Prelude.{
  ℕ, suc, ◌+◌, ◌*◌, ◌^◌, ◌%◌, ◌<◌, ◌≡◌, refl, sym, ap, ◌∙◌, List, [], ◌∷◌, ◌++◌, arith, All, ok,
  length, none, false, if◌then◌else◌, ◌==◌, nat_eq, ◌>>=◌,
}
use native.Mathlib.Nat.{
  mod-eq_of_lt, add-mul-mod_self_left, add-mul-div_left, div-eq_of_lt, div-one,
}
use mathlib.Core.List.{append-nil}
use home_assistant_bluetooth.Prelude.Bits.{shr, bit_and-mask, shr-shr, pow-pos}
use home_assistant_bluetooth.Prelude.Bytes.{Bytes, from_bytes_little}
use home_assistant_bluetooth.Prelude.Dict.{get, get_or, put}
use home_assistant_bluetooth.Hid.Types.{HidInputField, HidUsage, UsageTables}
use home_assistant_bluetooth.Hid.Parse.{
  parse_input_fields, parse_loop, parse_round, read_item, read_short, handle_item, global_item,
  main_item, input_item, input_field, reset_locals, emits,
}
use home_assistant_bluetooth.Hid.Decode.{
  slot_value, decode_value, decode_slots, decode_field, decode_fields, decode, group_fields,
  make_decoder, from_report_map, usage_for_value, usage_name,
}

-- Usage Page, Report ID, Report Size, Report Count, Input (Data, Array).
abbrev pub array_report_map : ℕ → ℕ → ℕ → ℕ → Bytes
array_report_map page rid size count =
    0x05 ∷ page ∷ 0x85 ∷ rid ∷ 0x75 ∷ size ∷ 0x95 ∷ count ∷ 0x81 ∷ 0x00 ∷ []

abbrev pub array_field : ℕ → ℕ → ℕ → ℕ → HidInputField
array_field page rid size count = record {
  report_id = rid;
  bit_offset = 0;
  report_size = size;
  report_count = count;
  usage_page = page;
  variable = false;
  usages = [];
  usage_minimum = none;
  usage_maximum = none;
}

one_byte : (v : ℕ) → from_bytes_little (v ∷ []) ≡ v
unfolding from_bytes_little
one_byte v = omega arith

parse_array :
    (page rid size count : ℕ)
    → 0 < size
    → 0 < count
    → parse_input_fields (array_report_map page rid size count)
      ≡ ok (array_field page rid size count ∷ [], (rid, 0 + size * count) ∷ [])
unfolding parse_input_fields parse_loop parse_round read_item read_short handle_item global_item
    main_item input_item input_field reset_locals emits get_or get put
parse_array page rid size count hs hc = simp one_byte (ground arith)

shr_start : (x size : ℕ) → shr x (0 + 0 * size) ≡ x
shr_start x size = let nothing : 0 + 0 * size ≡ 0 = omega arith in ap (shr x) nothing ∙ div-one x

-- The payload of a report as a number: slot after slot, the first in the lowest bits.
unfoldable pub pack : ℕ → List ℕ → ℕ
pack size [] = 0
pack size (v ∷ slots) = v + 2 ^ size * pack size slots

module _ (tables : UsageTables) (page : ℕ) where
  -- The keys that are down: every slot but the empty ones.
  unfoldable pub pressed : List ℕ → List HidUsage
  pressed [] = []
  pressed (v ∷ slots) =
      if v == 0
      then pressed slots
      else record { usage_page = page; usage_id = v; name = tables.usage_description page v }
        ∷ pressed slots

  module _ (rid size count : ℕ) where
    slot_value-pack :
        (raw index v : ℕ) (slots : List ℕ)
        → shr raw (0 + index * size) ≡ pack size (v ∷ slots)
        → v < 2 ^ size
        → slot_value tables (array_field page rid size count) raw index ≡ v
    unfolding slot_value pack
    slot_value-pack raw index v slots e lt =
        bit_and-mask size (shr raw (0 + index * size))
        ∙ ap (λ t. t % 2 ^ size) e
        ∙ add-mul-mod_self_left v (2 ^ size) (pack size slots)
        ∙ mod-eq_of_lt lt

    shr-pack :
        (raw index v : ℕ) (slots : List ℕ)
        → shr raw (0 + index * size) ≡ pack size (v ∷ slots)
        → v < 2 ^ size
        → shr raw (0 + suc index * size) ≡ pack size slots
    unfolding pack
    shr-pack raw index v slots e lt =
        ap (shr raw) (omega arith)
        ∙ sym (shr-shr raw (0 + index * size) size)
        ∙ ap (λ t. shr t size) e
        ∙ add-mul-div_left v (pack size slots) (pow-pos size)
        ∙ omega (arith, div-eq_of_lt lt)

    decode_slots-pack :
        (slots : List ℕ) (raw index : ℕ)
        → shr raw (0 + index * size) ≡ pack size slots
        → All (λ v. v < 2 ^ size) slots
        → decode_slots tables (array_field page rid size count) raw (length slots) index
          ≡ pressed slots
    unfolding decode_slots pressed
    decode_slots-pack [] raw index e h = refl
    decode_slots-pack (v ∷ slots) raw index e h =
        rw
          (
            slot_value-pack raw index v slots e h.0,
            decode_slots-pack slots raw (suc index) (shr-pack raw index v slots e h.0) h.1,
          )
          (unfold decode_value usage_for_value usage_name in ground arith)

    group_array :
        get_or (group_fields [] (array_field page rid size count ∷ [])) rid []
        ≡ array_field page rid size count ∷ []
    unfolding group_fields get_or get put
    group_array = ground arith

    decode_fields-array :
        (raw : ℕ)
        → 0 < size
        → decode_fields tables (array_field page rid size count ∷ []) raw
          ≡ decode_slots tables (array_field page rid size count) raw count 0 ++ []
    unfolding decode_fields decode_field
    decode_fields-array raw hs = ground arith

    -- For every usage page, report id, slot size and slot count: the Report Map of such a remote
    -- parses, and a payload that packs as many slots, each below 2 ^ size, decodes to the usages of the
    -- non-empty slots, in their order.
    pub decode-pressed :
        (slots : List ℕ) (payload : Bytes)
        → 0 < size
        → 0 < count
        → length slots ≡ count
        → All (λ v. v < 2 ^ size) slots
        → from_bytes_little payload ≡ pack size slots
        → (from_report_map (array_report_map page rid size count) >>= λ decoder.
            ok (decode tables decoder rid payload))
          ≡ ok (pressed slots)
    unfolding from_report_map make_decoder decode
    decode-pressed slots payload hs hc len fits bytes =
        rw
          (
            parse_array page rid size count hs hc,
            group_array,
            bytes,
            decode_fields-array (pack size slots) hs,
            append-nil,
          )
          (ap ok (
            ap (λ n. decode_slots tables (array_field page rid size count) (pack size slots) n 0)
              (sym len)
            ∙ decode_slots-pack slots (pack size slots) 0 (shr_start (pack size slots) size) fits))
