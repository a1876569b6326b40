-- ===== src/Manager/Separation.antt =====
-- Voice and key events never come from the same value.
use home_assistant_bluetooth.Prelude.{
  ℕ, ◌≡◌, ◌+◌, ◌&&◌, refl, Option, none, some, List, [], ◌∷◌, ◌==◌, nat_eq, text_eq, arith, Text,
  ok, err, Bool-cases, Option-cases, Result-cases, List-cases, inl, inr, ◌∙◌,
}
use home_assistant_bluetooth.Prelude.Bytes.{Bytes}
use home_assistant_bluetooth.Prelude.Dict.{get, get_or, put, pop, contains, add, discard}
use home_assistant_bluetooth.Prelude.Int.{ℤ, pos}
use home_assistant_bluetooth.Hid.Types.{UsageTables}
use home_assistant_bluetooth.Voice.Types.{voice_report_id}
use home_assistant_bluetooth.Voice.Ogg.{is_supported_opus_packet}
use home_assistant_bluetooth.Voice.Adpcm.{
  AtvvImaAdpcmDecoder, reset, new_decoder, decode as decode_adpcm,
}
use home_assistant_bluetooth.Manager.Paths.{any}
use home_assistant_bluetooth.Manager.State.{
  Manager, HidInputReport, Effect, AtvvKind, control, audio, publish_voice_packet, supports_voice,
}
use home_assistant_bluetooth.Manager.Button.{
  publish_report, handle_hid_voice_button, schedule_hid_voice_start,
}
use home_assistant_bluetooth.Manager.Control.{control_value_elim}
use home_assistant_bluetooth.Manager.Values.{
  Outcome, is_transport_error, cancel_atvv_capture, synchronize, capabilities, audio_start,
  decode_audio, audio_value, atvv_value, report_metadata, forget_cached, decoded_usages, deliver,
  input_value, hid_value, route_value, value_changed, make_report, is_oversized,
}
use home_assistant_bluetooth.Prelude.{◌⊎◌}
use home_assistant_bluetooth.Voice.Types.{VoicePacket}
use home_assistant_bluetooth.Manager.State.{report, voice, task}
use home_assistant_bluetooth.Manager.Releases.{reports}

-- The packets that the voice listeners receive.
abbrev pub voices : List Effect → List (Option VoicePacket)
voices [] = []
voices (report r ∷ effects) = voices effects
voices (voice packet ∷ effects) = packet ∷ voices effects
voices (task t ∷ effects) = voices effects

-- No report goes out, or no voice packet does; and the last one of that kind stays.
abbrev pub Separate : Manager → Manager × List Effect → Type 0
Separate m (m', effects) =
    ((reports effects ≡ []) × (m'.last_report ≡ m.last_report))
    ⊎ ((voices effects ≡ []) × (m'.last_voice_packet ≡ m.last_voice_packet))

abbrev SeparateOf : Manager → Outcome → Type 0
SeparateOf m (ok r) = Separate m r
SeparateOf m (err e) = Unit

Separate-after :
    (m m' : Manager) (o : Outcome)
    → m'.last_report ≡ m.last_report
    → m'.last_voice_packet ≡ m.last_voice_packet
    → SeparateOf m' o
    → SeparateOf m o
Separate-after m m' (ok r) e e' (inl (s, k)) = inl (s, k ∙ e)
Separate-after m m' (ok r) e e' (inr (s, k)) = inr (s, k ∙ e')
Separate-after m m' (err x) e e' s = tt

setup-Silent :
    (value : Bytes) (m : Manager)
    → ((capabilities value m).last_report ≡ m.last_report)
      × ((audio_start value m).last_report ≡ m.last_report)
unfolding capabilities audio_start
setup-Silent value m = (ground arith, ground arith)

synchronize-Separate : (p : ℤ) (i : ℕ) (m : Manager) → SeparateOf m (synchronize p i m)
unfolding synchronize
synchronize-Separate p i m =
    let d : AtvvImaAdpcmDecoder = elim (m.atvv_decoder) [ some d ↦ d | none ↦ new_decoder ] in
    elim (Result-cases (reset p (pos i) d)) [
      | inl (d', e) ↦ rw (e, synchronize) (inl (refl, refl))
      | inr (x, e) ↦ elim (Bool-cases (is_transport_error x)) [
        | inl t ↦ rw (e, t, synchronize) (inl (refl, refl))
        | inr t ↦ rw (e, t, synchronize) tt
      ]
    ]

decode_audio-Separate :
    (d : AtvvImaAdpcmDecoder) (value : Bytes) (m : Manager) → SeparateOf m (decode_audio d value m)
unfolding decode_audio publish_voice_packet
decode_audio-Separate d value m = elim (Result-cases (decode_adpcm d value)) [
  | inl (r, e) ↦ rw (e, decode_audio) (inl (refl, refl))
  | inr (x, e) ↦ elim (Bool-cases (is_transport_error x)) [
    | inl t ↦ rw (e, t, decode_audio) (inl (refl, refl))
    | inr t ↦ rw (e, t, decode_audio) tt
  ]
]

atvv_value-Separate :
    (kind : AtvvKind) (value : Bytes) (m : Manager) → SeparateOf m (atvv_value kind value m)
unfolding atvv_value audio_value publish_voice_packet cancel_atvv_capture
atvv_value-Separate control value m =
    control_value_elim (SeparateOf m) m value (inl (refl, refl)) (inl (refl, refl))
      (λ rest. inl (refl, (setup-Silent rest m).0)) (λ rest. inl (refl, (setup-Silent rest m).1))
      (λ p i. synchronize-Separate p i m) (inl (refl, refl))
atvv_value-Separate audio value m = elim (Option-cases m.atvv_decoder) [
  | inl e ↦ rw (e, audio_value) (inl (refl, refl))
  | inr (d, e) ↦ elim (Bool-cases (is_oversized m.atvv_frame_bytes value)) [
    | inl o ↦ rw (e, o, audio_value) (inl (refl, refl))
    | inr o ↦
        rw (e, o, audio_value)
          (decode_audio-Separate d value
            (record m { atvv_audio_packet_count = m.atvv_audio_packet_count + 1 }))
  ]
]

publish_report-Separate : (r : HidInputReport) (m : Manager) → Separate m (publish_report r m)
unfolding publish_report handle_hid_voice_button schedule_hid_voice_start
publish_report-Separate r m = inr (ground arith, ground arith)

module _ (tables : UsageTables) where
  deliver-Separate :
      (path : Text) (value : Bytes) (report_id : ℕ) (handle : ℤ) (m : Manager)
      → Separate m (deliver tables path value report_id handle m)
  unfolding deliver
  deliver-Separate path value report_id handle m =
      elim (List-cases (decoded_usages tables report_id value m)) [
        | inl e ↦ elim (Bool-cases (any value)) [
          | inl h ↦
              rw (e, h, deliver)
                (publish_report-Separate (make_report report_id handle value [])
                  (record m { active_usages_by_path = pop m.active_usages_by_path path }))
          | inr h ↦
              rw (e, h, deliver)
                (publish_report-Separate
                  (make_report report_id handle value (get_or m.active_usages_by_path path []))
                  (record m { active_usages_by_path = pop m.active_usages_by_path path }))
        ]
        | inr (u, us, e) ↦
            rw (e, deliver)
              (publish_report-Separate (make_report report_id handle value (u ∷ us))
                (record m { active_usages_by_path = put m.active_usages_by_path path (u ∷ us) }))
      ]

  input_value-Separate :
      (path : Text) (value : Bytes) (report_id : ℕ) (handle : ℤ) (m : Manager)
      → Separate m (input_value tables path value report_id handle m)
  unfolding input_value
  input_value-Separate path value report_id handle m = elim (Bool-cases (any value)) [
    | inl h ↦
        rw (h, input_value)
          (deliver-Separate path value report_id handle
            (record m { active_report_paths = add m.active_report_paths path }))
    | inr h ↦ elim (Bool-cases (contains m.active_report_paths path)) [
      | inl c ↦
          rw (h, c, input_value)
            (deliver-Separate path value report_id handle
              (record m { active_report_paths = discard m.active_report_paths path }))
      | inr c ↦ rw (h, c, input_value) (inl (refl, refl))
    ]
  ]

  hid_value-Separate :
      (path : Text) (value : Bytes) (m : Manager) → Separate m (hid_value tables path value m)
  unfolding hid_value publish_voice_packet
  hid_value-Separate path value m = elim (Option-cases (report_metadata path m)) [
    | inl e ↦ rw (e, hid_value) (inl (refl, refl))
    | inr ((report_id, handle), e) ↦
        elim (Bool-cases
          (report_id == voice_report_id && (supports_voice m && is_supported_opus_packet value))) [
            | inl h ↦ rw (e, h, hid_value) (inl (refl, refl))
            | inr h ↦ rw (e, h, hid_value) (input_value-Separate path value report_id handle m)
          ]
  ]

  route_value-Separate :
      (path : Text) (value : Bytes) (m : Manager) → SeparateOf m (route_value tables path value m)
  unfolding route_value
  route_value-Separate path value m = elim (Option-cases (get m.atvv_paths path)) [
    | inl e ↦ rw (e, route_value) (hid_value-Separate path value m)
    | inr (kind, e) ↦ rw (e, route_value) (atvv_value-Separate kind value m)
  ]

  value_changed-SeparateOf :
      (path : Text) (value : Bytes) (m : Manager) → SeparateOf m (value_changed tables path value m)
  unfolding value_changed forget_cached
  value_changed-SeparateOf path value m = elim (Bool-cases (contains m.ignored_value_paths path)) [
    | inl i ↦ rw (i, value_changed) (inl (refl, refl))
    | inr i ↦ elim (Option-cases (get m.initial_cached_values_by_path path)) [
      | inl e ↦ rw (i, e, value_changed) (route_value-Separate path value m)
      | inr (initial, e) ↦ elim (Bool-cases (value == initial)) [
        | inl s ↦ rw (i, e, s, value_changed) (inl (refl, refl))
        | inr s ↦
            rw (i, e, s, value_changed)
              (Separate-after m (forget_cached path m) _ refl refl
                (route_value-Separate path value (forget_cached path m)))
      ]
    ]
  ]

  -- A value gives key reports or voice packets, never both: one that gives a voice packet leaves the
  -- last report as it was, and one that gives a report leaves the last voice packet.
  pub value_changed-Separate :
      (path : Text) (value : Bytes) (m : Manager) (r : Manager × List Effect)
      → value_changed tables path value m ≡ ok r
      → Separate m r
  value_changed-Separate path value m r e = rw e at (value_changed-SeparateOf path value m)
