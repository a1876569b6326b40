-- ===== src/Hid/Decode/Zero.antt =====
-- A report of zero bytes has no active usage.
use home_assistant_bluetooth.Prelude.{ℕ, zero, suc, ◌≡◌, refl, List, [], ◌∷◌, arith, All}
use native.Mathlib.Nat.{zero-div}
use home_assistant_bluetooth.Prelude.Bits.{bit_and-mask, pow-pos}
use home_assistant_bluetooth.Prelude.Bytes.{Bytes, from_bytes_little_zeros}
use home_assistant_bluetooth.Hid.Types.{HidInputField, UsageTables}
use home_assistant_bluetooth.Hid.Decode.{
  HidReportDecoder, decode_value, slot_value, decode_slots, decode_field, decode_fields, decode,
}
use native.Mathlib.Nat.{mod-eq_of_lt}

module _ (tables : UsageTables) where
  slot_value-zero : (field : HidInputField) (index : ℕ) → slot_value tables field 0 index ≡ 0
  unfolding slot_value
  slot_value-zero field index =
      rw (zero-div, bit_and-mask field.report_size 0, mod-eq_of_lt (pow-pos field.report_size))

  decode_slots-zero :
      (field : HidInputField) (n index : ℕ) → decode_slots tables field 0 n index ≡ []
  unfolding decode_slots
  decode_slots-zero field zero index = refl
  decode_slots-zero field (suc n) index =
      rw (slot_value-zero field index, decode_slots-zero field n (suc index))
        (unfold decode_value in refl)

  decode_fields-zero : (fields : List HidInputField) → decode_fields tables fields 0 ≡ []
  unfolding decode_fields decode_field
  decode_fields-zero [] = refl
  decode_fields-zero (f ∷ fs) =
      ground (arith, decode_slots-zero f f.report_count 0, decode_fields-zero fs)

  -- A payload of zero bytes, of any length and under any descriptor, decodes to no usage: an all-zero
  -- report is a release for the decoder too.
  pub decode-zeros :
      (decoder : HidReportDecoder) (report_id : ℕ) (payload : Bytes)
      → All (λ b. b ≡ 0) payload
      → decode tables decoder report_id payload ≡ []
  unfolding decode
  decode-zeros decoder report_id payload z =
      rw (from_bytes_little_zeros payload z) (decode_fields-zero _)
