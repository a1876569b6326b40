-- ===== src/Voice/Adpcm.antt =====
-- AtvvImaAdpcmDecoder of voice.py: the IMA ADPCM stream of Android TV Voice.
pub mod Range
pub mod Stream
use home_assistant_bluetooth.Prelude.{
  ℕ, suc, ◌+◌, ◌-◌, ◌%◌, ◌/◌, Bool, ◌&&◌, ◌||◌, not, Option, none, some, List, [], ◌∷◌, ◌++◌, ltb,
  ◌==◌, nat_eq, if◌then◌else◌, length, get_elem?, Result, ok, err, ◌>>=◌,
}
use Prim.Native.Nat.{bit_and}
use home_assistant_bluetooth.Prelude.Bits.{shr}
use home_assistant_bluetooth.Prelude.Bytes.{Bytes}
use home_assistant_bluetooth.Prelude.Int.{ℤ, pos, negsuc, ◌+ℤ◌, neg, min_ℤ, max_ℤ, leb_ℤ, ltb_ℤ}
use home_assistant_bluetooth.Voice.Types.{
  VoiceError, predictor_range, step_index_range, invalid_adpcm_size, index_error, struct_error,
  atvv_max_packet_bytes,
}

abbrev pub ima_index_table : List ℤ
ima_index_table =
    negsuc 0
    ∷ negsuc 0
    ∷ negsuc 0
    ∷ negsuc 0
    ∷ pos 2
    ∷ pos 4
    ∷ pos 6
    ∷ pos 8
    ∷ negsuc 0
    ∷ negsuc 0
    ∷ negsuc 0
    ∷ negsuc 0
    ∷ pos 2
    ∷ pos 4
    ∷ pos 6
    ∷ pos 8
    ∷ []

abbrev pub ima_step_table : List ℕ
ima_step_table =
    7 ∷ 8 ∷ 9 ∷ 10 ∷ 11 ∷ 12 ∷ 13 ∷ 14 ∷ 16 ∷ 17 ∷ 19 ∷ 21 ∷ 23 ∷ 25 ∷ 28 ∷ 31 ∷ 34 ∷ 37 ∷ 41 ∷ 45
    ∷ 50 ∷ 55 ∷ 60 ∷ 66 ∷ 73 ∷ 80 ∷ 88 ∷ 97 ∷ 107 ∷ 118 ∷ 130 ∷ 143 ∷ 157 ∷ 173 ∷ 190 ∷ 209 ∷ 230
    ∷ 253 ∷ 279 ∷ 307 ∷ 337 ∷ 371 ∷ 408 ∷ 449 ∷ 494 ∷ 544 ∷ 598 ∷ 658 ∷ 724 ∷ 796 ∷ 876 ∷ 963 ∷ 1060
    ∷ 1166 ∷ 1282 ∷ 1411 ∷ 1552 ∷ 1707 ∷ 1878 ∷ 2066 ∷ 2272 ∷ 2499 ∷ 2749 ∷ 3024 ∷ 3327 ∷ 3660
    ∷ 4026 ∷ 4428 ∷ 4871 ∷ 5358 ∷ 5894 ∷ 6484 ∷ 7132 ∷ 7845 ∷ 8630 ∷ 9493 ∷ 10442 ∷ 11487 ∷ 12635
    ∷ 13899 ∷ 15289 ∷ 16818 ∷ 18500 ∷ 20350 ∷ 22385 ∷ 24623 ∷ 27086 ∷ 29794 ∷ 32767 ∷ []

-- xs[i]: a negative index counts from the end, and one out of range raises IndexError.
unfoldable pub index {ℓ} : {A : Type ℓ} → List A → ℤ → Result VoiceError A
index xs (pos i) = elim (get_elem? xs i) [ some x ↦ ok x | none ↦ err index_error ]
index xs (negsuc n) = elim (get_elem? xs (length xs - suc n)) [
  | some x ↦ if ltb n (length xs) then ok x else err index_error
  | none ↦ err index_error
]

pub record AtvvImaAdpcmDecoder : Type 0 where
  pub predictor : ℤ
  pub step_index : ℤ

-- AtvvImaAdpcmDecoder()
abbrev pub new_decoder : AtvvImaAdpcmDecoder
new_decoder = record { predictor = pos 0; step_index = pos 1 }

unfoldable pub reset : ℤ → ℤ → AtvvImaAdpcmDecoder → Result VoiceError AtvvImaAdpcmDecoder
reset predictor step_index d =
    if not (leb_ℤ (negsuc 32767) predictor && leb_ℤ predictor (pos 32767))
    then err predictor_range
    else if not (leb_ℤ (pos 0) step_index && ltb_ℤ step_index (pos (length ima_step_table)))
    then err step_index_range
    else ok (record { predictor = predictor; step_index = step_index })

-- step >> 3, plus the parts of the step that the low three bits of the code name.
unfoldable pub difference : ℕ → ℕ → ℕ
difference step code =
    shr step 3
    + (if bit_and code 0x04 == 0 then 0 else step)
    + (if bit_and code 0x02 == 0 then 0 else shr step 1)
    + (if bit_and code 0x01 == 0 then 0 else shr step 2)

-- The new predictor and step index, both clamped.
unfoldable pub advance : AtvvImaAdpcmDecoder → ℕ → ℕ → ℤ → AtvvImaAdpcmDecoder
advance d code step delta =
    let diff = pos (difference step code) in
    let moved = d.predictor +ℤ (if bit_and code 0x08 == 0 then diff else neg diff) in
    record {
      predictor = min_ℤ (pos 32767) (max_ℤ (negsuc 32767) moved);
      step_index = min_ℤ (pos 88) (max_ℤ (pos 0) (d.step_index +ℤ delta));
    }

unfoldable pub decode_code : AtvvImaAdpcmDecoder → ℕ → Result VoiceError AtvvImaAdpcmDecoder
decode_code d code = do
  step ← index ima_step_table d.step_index
  delta ← index ima_index_table (pos code)
  ok (advance d code step delta)

-- The 16-bit pattern of a signed number.
unfoldable pub pattern16 : ℤ → ℕ
pattern16 (pos n) = n
pattern16 (negsuc n) = 65535 - n

-- pack_into("<h", …, p)
unfoldable pub pack_h : ℤ → Result VoiceError Bytes
unfolding pattern16
pack_h p =
    if leb_ℤ (negsuc 32767) p && leb_ℤ p (pos 32767)
    then ok (pattern16 p % 256 ∷ pattern16 p / 256 ∷ [])
    else err struct_error

-- One code: the state moves, and its predictor is the next sample.
unfoldable pub decode_sample :
    AtvvImaAdpcmDecoder → ℕ → Result VoiceError (AtvvImaAdpcmDecoder × Bytes)
decode_sample d code = do d' ← decode_code d code; sample ← pack_h d'.predictor; ok (d', sample)

-- The high nibble first.
unfoldable pub decode_byte :
    AtvvImaAdpcmDecoder → ℕ → Result VoiceError (AtvvImaAdpcmDecoder × Bytes)
decode_byte d packed_codes = do
  (d', first) ← decode_sample d (shr packed_codes 4)
  (d'', second) ← decode_sample d' (bit_and packed_codes 0x0F)
  ok (d'', first ++ second)

-- The loop over the chunk; the output bytes are written one behind the other.
unfoldable pub decode_loop :
    AtvvImaAdpcmDecoder → Bytes → Result VoiceError (AtvvImaAdpcmDecoder × Bytes)
decode_loop d [] = ok (d, [])
decode_loop d (b ∷ bs) = decode_byte d b >>= λ r. (decode_loop r.0 bs >>= λ q. ok (q.0, r.1 ++ q.1))

unfoldable pub decode :
    AtvvImaAdpcmDecoder → Bytes → Result VoiceError (AtvvImaAdpcmDecoder × Bytes)
decode d payload =
    if length payload == 0 || ltb atvv_max_packet_bytes (length payload)
    then err invalid_adpcm_size
    else decode_loop d payload
