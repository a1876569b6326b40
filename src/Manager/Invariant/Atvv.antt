-- ===== src/Manager/Invariant/Atvv.antt =====
-- The values of the ATVV characteristics are handled without an exception.
use mathlib.Core.Path.{subst}
use home_assistant_bluetooth.Voice.Types.{invalid_adpcm_size, atvv_max_packet_bytes}
use home_assistant_bluetooth.Prelude.{◌+◌, ◌⊎◌, ◌||◌, ltb}
use home_assistant_bluetooth.Voice.Types.{atvv_codec_adpcm_16k}
use home_assistant_bluetooth.Prelude.{
  ℕ, ◌≡◌, refl, true, Option, none, some, [], ◌∷◌, ◌==◌, nat_eq, text_eq, arith, ok, err, length,
  Bool-cases, Option-cases, Result-cases, inl, inr,
}
use home_assistant_bluetooth.Prelude.Bytes.{Bytes, IsBytes}
use home_assistant_bluetooth.Prelude.Int.{ℤ, pos}
use home_assistant_bluetooth.Voice.Types.{VoiceError}
use home_assistant_bluetooth.Voice.Adpcm.{
  AtvvImaAdpcmDecoder, new_decoder, reset, decode as decode_adpcm,
}
use home_assistant_bluetooth.Voice.Adpcm.Range.{IsValid as IsValidDecoder, decode-Gives, reset_iff}
use home_assistant_bluetooth.Manager.State.{Manager, publish_voice_packet}
use home_assistant_bluetooth.Manager.Values.{
  is_transport_error, cancel_atvv_capture, synchronize, capabilities, audio_start, control_value,
  decode_audio, audio_value, is_oversized,
}
use home_assistant_bluetooth.Manager.Control.{control_value_elim}
use home_assistant_bluetooth.Manager.Invariant.{IsValid, Returns, Kept, Kept-IsValid}

new_decoder-IsValid : IsValidDecoder new_decoder
new_decoder-IsValid = record {
  low = ground arith;
  high = ground arith;
  index_low = ground arith;
  index_high = ground arith;
}

reset-IsValid : (p i : ℤ) (d d' : AtvvImaAdpcmDecoder) → reset p i d ≡ ok d' → IsValidDecoder d'
unfolding reset
reset-IsValid p i d d' e =
    let same : record { predictor = p; step_index = i } ≡ d' = ground arith in
    subst IsValidDecoder same ((reset_iff p i d).0 (ground arith))

reset-transport :
    (p i : ℤ) (d : AtvvImaAdpcmDecoder) (e : VoiceError)
    → reset p i d ≡ err e
    → is_transport_error e ≡ true
unfolding reset is_transport_error
reset-transport p i d e h = ground arith

with_decoder : Manager → Option AtvvImaAdpcmDecoder → Manager
with_decoder m o = record m { atvv_decoder = o }

none-IsValid : (m : Manager) → IsValid m → IsValid (record m { atvv_decoder = none })
none-IsValid m v = record { decoding = λ d e. ground arith; holding = v.holding }

some-IsValid :
    (m : Manager) (d : AtvvImaAdpcmDecoder)
    → IsValidDecoder d
    → IsValid m
    → IsValid (record m { atvv_decoder = some d })
some-IsValid m d k v = record {
  decoding = λ d' e. let same : d ≡ d' = ground arith in subst IsValidDecoder same k;
  holding = v.holding;
}

synchronize-Returns : (p : ℤ) (i : ℕ) (m : Manager) → IsValid m → Returns (synchronize p i m)
unfolding synchronize
synchronize-Returns p i m v =
    let d : AtvvImaAdpcmDecoder = elim (m.atvv_decoder) [ some d ↦ d | none ↦ new_decoder ] in
    elim (Result-cases (reset p (pos i) d)) [
      | inl (d', e) ↦ rw (e, synchronize) (some-IsValid m d' (reset-IsValid p (pos i) d d' e) v)
      | inr (x, e) ↦ rw (e, reset-transport p (pos i) d x e, synchronize) (none-IsValid m v)
    ]

capabilities-Kept : (value : Bytes) (m : Manager) → Kept m (capabilities value m)
unfolding capabilities
capabilities-Kept value m = (ground arith, ground arith, ground arith)

audio_start-IsValid : (value : Bytes) (m : Manager) → IsValid m → IsValid (audio_start value m)
unfolding audio_start
audio_start-IsValid [] m v = v
audio_start-IsValid (r ∷ []) m v = v
audio_start-IsValid (r ∷ c ∷ []) m v = v
audio_start-IsValid (r ∷ c ∷ s ∷ rest) m v = elim (Bool-cases (c == atvv_codec_adpcm_16k)) [
  | inl h ↦ rw h (some-IsValid m new_decoder new_decoder-IsValid v)
  | inr h ↦ rw h (none-IsValid m v)
]

cancelled-IsValid :
    (m : Manager)
    → IsValid m
    → IsValid (record (cancel_atvv_capture m) { last_voice_packet = none })
unfolding cancel_atvv_capture
cancelled-IsValid m v = record { decoding = λ d e. ground arith; holding = v.holding }

-- A payload decodes to a valid decoder, or its size is refused.
decode-cases :
    (d : AtvvImaAdpcmDecoder) (value : Bytes)
    → IsValidDecoder d
    → IsBytes value
    → ((d' : AtvvImaAdpcmDecoder) × (out : Bytes) × (decode_adpcm d value ≡ ok (d', out))
        × IsValidDecoder d')
      ⊎ (decode_adpcm d value ≡ err invalid_adpcm_size)
decode-cases d value k b =
    elim (Bool-cases (length value == 0 || ltb atvv_max_packet_bytes (length value))) [
      | inl h ↦ inr (unfold decode_adpcm in rw h refl)
      | inr h ↦ elim (Result-cases (decode_adpcm d value)) [
        | inl ((d', out), e) ↦
            inl (d', out, e, (rw e at (decode-Gives d value k b (ground arith) (ground arith))).0)
        | inr (x, e) ↦ absurd (rw e at (decode-Gives d value k b (ground arith) (ground arith)))
      ]
    ]

pub control_value-Returns :
    (value : Bytes) (m : Manager) → IsValid m → Returns (control_value value m)
unfolding publish_voice_packet
control_value-Returns value m v =
    control_value_elim Returns m value v v
      (λ rest. Kept-IsValid m (capabilities rest m) (capabilities-Kept rest m) v)
      (λ rest. audio_start-IsValid rest m v) (λ p i. synchronize-Returns p i m v)
      (cancelled-IsValid m v)

decode_audio-Returns :
    (d : AtvvImaAdpcmDecoder) (value : Bytes) (m : Manager)
    → IsValidDecoder d
    → IsBytes value
    → IsValid m
    → Returns (decode_audio d value m)
unfolding decode_audio publish_voice_packet is_transport_error
decode_audio-Returns d value m k b v = elim (decode-cases d value k b) [
  | inl (d', out, e, k') ↦
      rw (e, decode_audio)
        record {
          decoding = λ x e. let same : d' ≡ x = ground arith in subst IsValidDecoder same k';
          holding = v.holding;
        }
  | inr e ↦ rw (e, decode_audio) record { decoding = λ x e. ground arith; holding = v.holding }
]

pub audio_value-Returns :
    (value : Bytes) (m : Manager) → IsBytes value → IsValid m → Returns (audio_value value m)
unfolding audio_value
audio_value-Returns value m b v = elim (Option-cases m.atvv_decoder) [
  | inl e ↦ rw (e, audio_value) record { decoding = v.decoding; holding = v.holding }
  | inr (d, e) ↦ elim (Bool-cases (is_oversized m.atvv_frame_bytes value)) [
    | inl o ↦ rw (e, o, audio_value) record { decoding = v.decoding; holding = v.holding }
    | inr o ↦
        rw (e, o, audio_value)
          (decode_audio-Returns d value
            (record m { atvv_audio_packet_count = m.atvv_audio_packet_count + 1 }) (v.decoding d e)
            b record { decoding = v.decoding; holding = v.holding })
  ]
]
