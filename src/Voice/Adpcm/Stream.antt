-- ===== src/Voice/Adpcm/Stream.antt =====
-- The stream does not depend on how it is cut into notifications.
use home_assistant_bluetooth.Prelude.{
  ◌+◌, ◌≤◌, ◌<◌, ◌≡◌, ◌++◌, [], ◌∷◌, arith, length, length-append, Result, ok, Result-cases, ◌>>=◌,
  inl, inr,
}
use mathlib.Core.List.{append_assoc}
use home_assistant_bluetooth.Prelude.Bytes.{Bytes}
use home_assistant_bluetooth.Voice.Types.{VoiceError}
use home_assistant_bluetooth.Voice.Adpcm.{AtvvImaAdpcmDecoder, decode_byte, decode_loop, decode}

-- The two chunks, one behind the other.
abbrev pub decode_both :
    (AtvvImaAdpcmDecoder → Bytes → Result VoiceError (AtvvImaAdpcmDecoder × Bytes))
    → AtvvImaAdpcmDecoder
    → Bytes
    → Bytes
    → Result VoiceError (AtvvImaAdpcmDecoder × Bytes)
decode_both f d xs ys = f d xs >>= λ r. (f r.0 ys >>= λ q. ok (q.0, r.1 ++ q.1))

decode_loop-append :
    (d : AtvvImaAdpcmDecoder) (xs ys : Bytes)
    → decode_loop d (xs ++ ys) ≡ decode_both decode_loop d xs ys
unfolding decode_loop
decode_loop-append d [] ys = elim (Result-cases (decode_loop d ys)) [
  | inl (r, e) ↦ rw e
  | inr (x, e) ↦ rw e
]
decode_loop-append d (b ∷ xs) ys = elim (Result-cases (decode_byte d b)) [
  | inr (x, e) ↦ rw e
  | inl ((d', out), e) ↦
      rw (e, decode_loop-append d' xs ys)
        (elim (Result-cases (decode_loop d' xs)) [
          | inr (x, e') ↦ rw e'
          | inl ((d'', out'), e') ↦ rw e' (elim (Result-cases (decode_loop d'' ys)) [
            | inr (x, e'') ↦ rw e''
            | inl ((d''', out''), e'') ↦ rw (e'', append_assoc)
          ])
        ])
]

decode-loop :
    (d : AtvvImaAdpcmDecoder) (xs : Bytes)
    → 0 < length xs
    → length xs ≤ 512
    → decode d xs ≡ decode_loop d xs
unfolding decode
decode-loop d xs h k = ground arith

-- Decoding a chunk of at most 512 bytes in two non-empty parts, the second from the state that the
-- first left, gives the state and the samples of decoding it whole.
pub decode-append :
    (d : AtvvImaAdpcmDecoder) (xs ys : Bytes)
    → 0 < length xs
    → 0 < length ys
    → length (xs ++ ys) ≤ 512
    → decode d (xs ++ ys) ≡ decode_both decode d xs ys
decode-append d xs ys hx hy h =
    let both : length (xs ++ ys) ≡ length xs + length ys = length-append xs ys in
    rw
      (
        decode-loop d (xs ++ ys) (omega arith) h,
        decode-loop d xs hx (omega arith),
        decode_loop-append d xs ys,
      )
      (elim (Result-cases (decode_loop d xs)) [
        | inr (x, e) ↦ rw e
        | inl ((d', out), e) ↦ rw (e, decode-loop d' ys hy (omega arith))
      ])
