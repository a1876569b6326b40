-- ===== src/Hid/Tests.antt =====
-- Runs of the parser and the decoder, and the theorems at concrete reports.
use home_assistant_bluetooth.Prelude.{
  ◌≡◌, ◌≢◌, refl, none, some, [], ◌∷◌, ok, err, arith, codes, ◌>>=◌, nat_eq,
}
use home_assistant_bluetooth.Prelude.Bytes.{Bytes, from_bytes_little}
use home_assistant_bluetooth.Prelude.Dict.{get, get_or, put}
use home_assistant_bluetooth.Hid.Types.{UsageTables}
use home_assistant_bluetooth.Hid.Parse.{
  out_of_fuel, short_item_data, pop_without_push, parse_input_fields, parse_loop, parse_round,
  read_item, read_short, handle_item, global_item, pop_globals, main_item, input_item, input_field,
  emits, reset_locals,
}
use home_assistant_bluetooth.Hid.Parse.Total.{parse_input_fields_total}
use home_assistant_bluetooth.Hid.Parse.Layout.{IsLaid, parse_input_fields-IsLaid}
use home_assistant_bluetooth.Hid.Decode.{
  HidReportDecoder, from_report_map, make_decoder, group_fields, decode,
}
use home_assistant_bluetooth.Hid.Decode.Zero.{decode-zeros}
use home_assistant_bluetooth.Hid.Decode.Local.{decode-declared}
use home_assistant_bluetooth.Hid.Descriptor.{
  array_report_map, array_field, decode-pressed, pressed, pack,
}

-- Usage tables that know the Search key of the Consumer page.
abbrev tables : UsageTables
tables = record {
  page_description = λ page. none;
  usage_description = λ page usage_id. some (codes "AC Search");
}

-- Report 1: two slots of 16 bits on the Consumer page.
abbrev remote_map : Bytes
remote_map = array_report_map 0x0C 1 16 2

abbrev remote_decoder : HidReportDecoder
remote_decoder = record {
  fields_by_report_id = (1, array_field 0x0C 1 16 2 ∷ []) ∷ [];
  report_bits = (1, 32) ∷ [];
}

remote_parses : parse_input_fields remote_map ≡ ok (array_field 0x0C 1 16 2 ∷ [], (1, 32) ∷ [])
unfolding parse_input_fields parse_loop parse_round read_item read_short handle_item global_item
    main_item input_item input_field emits reset_locals get_or get put from_bytes_little
remote_parses = refl

remote_map-decoder : from_report_map remote_map ≡ ok remote_decoder
unfolding from_report_map make_decoder group_fields parse_input_fields parse_loop parse_round
    read_item read_short handle_item global_item main_item input_item input_field emits reset_locals
    get_or get put from_bytes_little
remote_map-decoder = refl

truncated : parse_input_fields (0x05 ∷ []) ≡ err short_item_data
unfolding parse_input_fields parse_loop parse_round read_item read_short
truncated = refl

pop_first : parse_input_fields (0xB4 ∷ []) ≡ err pop_without_push
unfolding parse_input_fields parse_loop parse_round read_item read_short handle_item global_item
    pop_globals from_bytes_little
pop_first = refl

parse_input_fields_total_example : parse_input_fields remote_map ≢ err out_of_fuel
parse_input_fields_total_example = parse_input_fields_total remote_map

parse_input_fields-IsLaid_example : IsLaid (array_field 0x0C 1 16 2 ∷ []) ((1, 32) ∷ [])
parse_input_fields-IsLaid_example =
    parse_input_fields-IsLaid remote_map (array_field 0x0C 1 16 2 ∷ []) ((1, 32) ∷ []) remote_parses

decode-zeros_example : decode tables remote_decoder 1 (0 ∷ 0 ∷ 0 ∷ 0 ∷ []) ≡ []
decode-zeros_example = decode-zeros tables remote_decoder 1 (0 ∷ 0 ∷ 0 ∷ 0 ∷ []) (omega arith)

-- A fifth byte lies behind the 32 declared bits.
decode-declared_example :
    decode tables remote_decoder 1 (0x21 ∷ 2 ∷ 0 ∷ 0 ∷ 9 ∷ [])
    ≡ decode tables remote_decoder 1 (0x21 ∷ 2 ∷ 0 ∷ 0 ∷ [])
unfolding from_bytes_little get_or get
decode-declared_example =
    decode-declared tables remote_map remote_decoder 1 (0x21 ∷ 2 ∷ 0 ∷ 0 ∷ 9 ∷ [])
      (0x21 ∷ 2 ∷ 0 ∷ 0 ∷ []) remote_map-decoder refl

decode-pressed_example :
    (from_report_map remote_map >>= λ decoder. ok (decode tables decoder 1 (0x21 ∷ 2 ∷ 0 ∷ 0 ∷ [])))
    ≡ ok (pressed tables 0x0C (0x0221 ∷ 0 ∷ []))
unfolding from_bytes_little pack
decode-pressed_example =
    decode-pressed tables 0x0C 1 16 2 (0x0221 ∷ 0 ∷ []) (0x21 ∷ 2 ∷ 0 ∷ 0 ∷ []) (omega arith)
      (omega arith) refl (omega arith) refl
