-- ===== src/Voice/Adpcm/Range.antt =====
-- The decoder never leaves its ranges, never indexes out of a table, and writes four bytes for each
-- byte that it reads.
use home_assistant_bluetooth.Prelude.{
  ℕ, ◌-◌, ◌*◌, ◌%◌, ◌/◌, ◌≤◌, ◌<◌, ◌≡◌, refl, ◌↔◌, ◌++◌, List, [], ◌∷◌, All-append, arith, length,
  length-append, get_elem?-lt, Result, ok, err,
}
use Prim.Native.Nat.{bit_and}
use home_assistant_bluetooth.Prelude.Bits.{shr, bit_and-mask}
use home_assistant_bluetooth.Prelude.Bytes.{Bytes, IsBytes}
use home_assistant_bluetooth.Prelude.Int.{ℤ, pos, negsuc, ◌≤ℤ◌, min_ℤ, max_ℤ}
use home_assistant_bluetooth.Voice.Types.{VoiceError}
use home_assistant_bluetooth.Voice.Adpcm.{
  AtvvImaAdpcmDecoder, ima_index_table, ima_step_table, index, reset, decode_code, advance, pack_h,
  decode_sample, decode_byte, decode_loop, decode,
}

-- A signed 16-bit predictor, and an index into the step table.
pub record IsValid (d : AtvvImaAdpcmDecoder) : Type 0 where
  pub low : negsuc 32767 ≤ℤ d.predictor
  pub high : d.predictor ≤ℤ pos 32767
  pub index_low : pos 0 ≤ℤ d.step_index
  pub index_high : d.step_index ≤ℤ pos 88

-- A call that succeeds, with a valid state and `n` bytes.
abbrev pub Gives : ℕ → Result VoiceError (AtvvImaAdpcmDecoder × Bytes) → Type 0
Gives n (ok (d, out)) = IsValid d × (length out ≡ n) × IsBytes out
Gives n (err e) = ⊥

index-pos {ℓ} :
    {A : Type ℓ} (xs : List A) (i : ℕ) → i < length xs → (x : A) × (index xs (pos i) ≡ ok x)
unfolding index
index-pos xs i h = let (x, e) = get_elem?-lt xs i h in (x, rw (e, index))

index-step : (i : ℤ) → pos 0 ≤ℤ i → i ≤ℤ pos 88 → (x : ℕ) × (index ima_step_table i ≡ ok x)
index-step (pos i) l h = index-pos ima_step_table i (omega arith)
index-step (negsuc i) l h = absurd (omega arith)

clamp16 :
    (z : ℤ)
    → (negsuc 32767 ≤ℤ min_ℤ (pos 32767) (max_ℤ (negsuc 32767) z))
      × (min_ℤ (pos 32767) (max_ℤ (negsuc 32767) z) ≤ℤ pos 32767)
unfolding min_ℤ max_ℤ
clamp16 z = ground arith

clamp88 :
    (z : ℤ)
    → (pos 0 ≤ℤ min_ℤ (pos 88) (max_ℤ (pos 0) z)) × (min_ℤ (pos 88) (max_ℤ (pos 0) z) ≤ℤ pos 88)
unfolding min_ℤ max_ℤ
clamp88 z = ground arith

advance-IsValid :
    (d : AtvvImaAdpcmDecoder) (code step : ℕ) (delta : ℤ) → IsValid (advance d code step delta)
unfolding advance
advance-IsValid d code step delta = record {
  low = (clamp16 _).0;
  high = (clamp16 _).1;
  index_low = (clamp88 _).0;
  index_high = (clamp88 _).1;
}

decode_code-IsValid :
    (d : AtvvImaAdpcmDecoder) (code : ℕ)
    → IsValid d
    → code < 16
    → (d' : AtvvImaAdpcmDecoder) × (decode_code d code ≡ ok d') × IsValid d'
unfolding decode_code
decode_code-IsValid d code v lt =
    let (step, e) = index-step d.step_index v.index_low v.index_high in
    let (delta, e') = index-pos ima_index_table code (omega arith) in
    (advance d code step delta, rw (e, e'), advance-IsValid d code step delta)

pack_h-ok :
    (p : ℤ)
    → negsuc 32767 ≤ℤ p
    → p ≤ℤ pos 32767
    → (b : Bytes) × (pack_h p ≡ ok b) × (length b ≡ 2) × IsBytes b
unfolding pack_h
pack_h-ok (pos n) l h = (n % 256 ∷ n / 256 ∷ [], ground arith, omega arith, omega arith)
pack_h-ok (negsuc n) l h =
    ((65535 - n) % 256 ∷ (65535 - n) / 256 ∷ [], ground arith, omega arith, omega arith)

-- A result of a step: the next state, `n` bytes, and the ranges.
abbrev Writes : ℕ → Result VoiceError (AtvvImaAdpcmDecoder × Bytes) → Type 0
Writes n r =
    (d : AtvvImaAdpcmDecoder) × (out : Bytes) × (r ≡ ok (d, out))
    × IsValid d
    × (length out ≡ n)
    × IsBytes out

decode_sample-Writes :
    (d : AtvvImaAdpcmDecoder) (code : ℕ) → IsValid d → code < 16 → Writes 2 (decode_sample d code)
unfolding decode_sample
decode_sample-Writes d code v lt =
    let (d', e, v') = decode_code-IsValid d code v lt in
    let (b, e', n, k) = pack_h-ok d'.predictor v'.low v'.high in (d', b, rw (e, e'), v', n, k)

decode_byte-Writes :
    (d : AtvvImaAdpcmDecoder) (b : ℕ) → IsValid d → b < 256 → Writes 4 (decode_byte d b)
unfolding decode_byte
decode_byte-Writes d b v lt =
    let (d', out, e, v', n, k) = decode_sample-Writes d (shr b 4) v (omega arith) in
    let (d'', out', e', v'', n', k') =
      decode_sample-Writes d' (bit_and b 0x0F) v' (omega (arith, bit_and-mask 4 b)) in
    (
      d'',
      out ++ out',
      rw (e, e'),
      v'',
      omega (arith, length-append out out'),
      All-append (λ x. x < 256) out out' k k',
    )

decode_loop-Writes :
    (d : AtvvImaAdpcmDecoder) (bs : Bytes)
    → IsValid d
    → IsBytes bs
    → Writes (4 * length bs) (decode_loop d bs)
unfolding decode_loop
decode_loop-Writes d [] v h = (d, [], refl, v, omega arith, tt)
decode_loop-Writes d (b ∷ bs) v h =
    let (d', out, e, v', n, k) = decode_byte-Writes d b v h.0 in
    let (d'', rest, e', v'', n', k') = decode_loop-Writes d' bs v' h.1 in
    (
      d'',
      out ++ rest,
      rw (e, e'),
      v'',
      omega (arith, length-append out rest),
      All-append (λ x. x < 256) out rest k k',
    )

-- A chunk of 1 to 512 bytes always decodes: no index leaves a table and every sample fits 16 bits; the
-- output has four bytes for each input byte, and the predictor and the step index stay in range.
pub decode-Gives :
    (d : AtvvImaAdpcmDecoder) (payload : Bytes)
    → IsValid d
    → IsBytes payload
    → 0 < length payload
    → length payload ≤ 512
    → Gives (4 * length payload) (decode d payload)
unfolding decode
decode-Gives d payload v h lo hi =
    let (d', out, e, v', n, k) = decode_loop-Writes d payload v h in ground (arith)

-- A synchronization point is taken over exactly when both values are in range; the decoder is then
-- valid.
pub reset_iff :
    (p i : ℤ) (d : AtvvImaAdpcmDecoder)
    → (reset p i d ≡ ok (record { predictor = p; step_index = i }))
      ↔ IsValid (record { predictor = p; step_index = i })
unfolding reset
reset_iff p i d = (λ e. ground arith, λ v. ground arith)
