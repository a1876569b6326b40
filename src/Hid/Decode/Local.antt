-- ===== src/Hid/Decode/Local.antt =====
-- Decoding reads the declared bits of a report and no others.
use home_assistant_bluetooth.Prelude.{
  ℕ, zero, suc, ◌+◌, ◌-◌, ◌*◌, ◌^◌, ◌%◌, ◌≤◌, ◌<◌, ◌≡◌, refl, sym, ap, ◌∙◌, List, [], ◌∷◌, ◌++◌,
  arith, All, All-append, ok, Result-cases, inl, inr, ==_iff, nat_eq,
}
use mathlib.Core.Path.{subst}
use native.Mathlib.Nat.{mul-le-mul_left}
use native.Mathlib.Decide.{ℕ_discrete}
use home_assistant_bluetooth.Prelude.Bits.{shr, bit_and-mask, field_local}
use home_assistant_bluetooth.Prelude.Bytes.{Bytes, from_bytes_little}
use home_assistant_bluetooth.Prelude.Dict.{Dict, get, get_or, put, get_or-put}
use home_assistant_bluetooth.Hid.Types.{HidInputField, UsageTables}
use home_assistant_bluetooth.Hid.Parse.{parse_input_fields}
use home_assistant_bluetooth.Hid.Parse.Layout.{field_end, parse_input_fields-IsLaid}
use home_assistant_bluetooth.Hid.Decode.{
  HidReportDecoder, slot_value, decode_slots, decode_field, decode_fields, decode, group_fields,
  make_decoder, from_report_map,
}

-- Fields that end within `bits`.
abbrev Fits : ℕ → HidInputField → Type 0
Fits bits f = field_end f ≤ bits

abbrev GroupsFit : (ℕ → ℕ) → Dict ℕ (List HidInputField) → Type 0
GroupsFit bits groups = (k : ℕ) → All (Fits (bits k)) (get_or groups k [])

group_fields-fit :
    (bits : ℕ → ℕ) (fields : List HidInputField) (groups : Dict ℕ (List HidInputField))
    → All (λ f. Fits (bits f.report_id) f) fields
    → GroupsFit bits groups
    → GroupsFit bits (group_fields groups fields)
unfolding group_fields
group_fields-fit bits [] groups h g = g
group_fields-fit bits (f ∷ fs) groups h g = group_fields-fit bits fs _ h.1 step
  where
    step : GroupsFit bits (put groups f.report_id (get_or groups f.report_id [] ++ f ∷ []))
    step k = elim (ℕ_discrete f.report_id k) [
      | yes e ↦
          rw (get_or-put, (==_iff f.report_id k).1 e)
            (All-append _ _ (f ∷ []) (rw e (g k)) (rw (← e) h.0, tt))
      | no n ↦ rw get_or-put (ground (arith, ==_iff f.report_id k, g k))
    ]

-- In a decoder made from a Report Map the fields of a report end within its declared bits.
from_report_map-fit :
    (report_map : Bytes) (decoder : HidReportDecoder)
    → from_report_map report_map ≡ ok decoder
    → GroupsFit (λ k. get_or decoder.report_bits k 0) decoder.fields_by_report_id
unfolding from_report_map make_decoder
from_report_map-fit report_map decoder e = elim (Result-cases (parse_input_fields report_map)) [
  | inr (x, q) ↦ ground arith
  | inl ((fields, offsets), q) ↦
      let same : make_decoder fields offsets ≡ decoder = ground arith in
      subst
        (λ (d : HidReportDecoder). GroupsFit (λ k. get_or d.report_bits k 0) d.fields_by_report_id)
        same
        (group_fields-fit (λ k. get_or offsets k 0) fields []
          (parse_input_fields-IsLaid report_map fields offsets q).ends
          (λ k. unfold get_or get in tt))
]

module _ (tables : UsageTables) where
  slot_value-local :
      (f : HidInputField) (raw bits index : ℕ)
      → Fits bits f
      → index < f.report_count
      → slot_value tables f (raw % 2 ^ bits) index ≡ slot_value tables f raw index
  unfolding slot_value
  slot_value-local f raw bits index fits lt =
      rw
        (
          bit_and-mask f.report_size (shr (raw % 2 ^ bits) start),
          bit_and-mask f.report_size (shr raw start),
        )
        (ap (λ n. shr (raw % 2 ^ n) start % 2 ^ f.report_size) room
          ∙ field_local raw start f.report_size (bits - (start + f.report_size)))
    where
      start : ℕ
      start = f.bit_offset + index * f.report_size

      room : bits ≡ start + (f.report_size + (bits - (start + f.report_size)))
      room = omega (arith, mul-le-mul_left f.report_size lt)

  decode_slots-local :
      (f : HidInputField) (raw bits n index : ℕ)
      → Fits bits f
      → index + n ≤ f.report_count
      → decode_slots tables f (raw % 2 ^ bits) n index ≡ decode_slots tables f raw n index
  unfolding decode_slots
  decode_slots-local f raw bits zero index fits le = refl
  decode_slots-local f raw bits (suc n) index fits le = rw (
    slot_value-local f raw bits index fits (omega arith),
    decode_slots-local f raw bits n (suc index) fits (omega arith),
  )

  decode_fields-local :
      (fields : List HidInputField) (raw bits : ℕ)
      → All (Fits bits) fields
      → decode_fields tables fields (raw % 2 ^ bits) ≡ decode_fields tables fields raw
  unfolding decode_fields decode_field
  decode_fields-local [] raw bits h = refl
  decode_fields-local (f ∷ fs) raw bits h = rw (
    decode_slots-local f raw bits f.report_count 0 h.0 (omega arith),
    decode_fields-local fs raw bits h.1,
  )

  -- Under a descriptor that parses, two payloads that agree on the declared bits of a report decode to
  -- the same usages; what lies behind them is not read.
  pub decode-declared :
      (report_map : Bytes) (decoder : HidReportDecoder) (report_id : ℕ) (a b : Bytes)
      → from_report_map report_map ≡ ok decoder
      → (let bits = get_or decoder.report_bits report_id 0 in
          from_bytes_little a % 2 ^ bits ≡ from_bytes_little b % 2 ^ bits)
      → decode tables decoder report_id a ≡ decode tables decoder report_id b
  unfolding decode
  decode-declared report_map decoder report_id a b e same =
      let bits = get_or decoder.report_bits report_id 0 in
      let fields = get_or decoder.fields_by_report_id report_id [] in
      let fit = from_report_map-fit report_map decoder e report_id in
      sym (decode_fields-local fields (from_bytes_little a) bits fit)
      ∙ ap (decode_fields tables fields) same
      ∙ decode_fields-local fields (from_bytes_little b) bits fit
