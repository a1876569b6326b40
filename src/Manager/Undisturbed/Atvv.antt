-- ===== src/Manager/Undisturbed/Atvv.antt =====
-- The ATVV characteristics and the reports leave the routing of every path as it is.
use home_assistant_bluetooth.Prelude.{
  ℕ, ◌≡◌, ◌+◌, refl, none, some, nat_eq, text_eq, arith, Text, ok, err, Bool-cases, Option-cases,
  Result-cases, inl, inr,
}
use home_assistant_bluetooth.Prelude.Bytes.{Bytes}
use home_assistant_bluetooth.Prelude.Int.{ℤ, pos}
use home_assistant_bluetooth.Voice.Adpcm.{
  AtvvImaAdpcmDecoder, reset, new_decoder, decode as decode_adpcm,
}
use home_assistant_bluetooth.Manager.State.{
  Manager, HidInputReport, AtvvKind, control, audio, publish_voice_packet,
}
use home_assistant_bluetooth.Manager.Button.{
  publish_report, handle_hid_voice_button, schedule_hid_voice_start,
}
use home_assistant_bluetooth.Manager.Control.{control_value_elim}
use home_assistant_bluetooth.Manager.Values.{
  Outcome, is_transport_error, cancel_atvv_capture, synchronize, capabilities, audio_start,
  control_value, decode_audio, audio_value, atvv_value, is_oversized,
}
use home_assistant_bluetooth.Manager.Undisturbed.{Undisturbed, Leaves}

-- All the fields of `Undisturbed` but the first three are those of the input reports.
abbrev pub Routing : Manager → Manager → Type 0
Routing m m' =
    (m'.ignored_value_paths ≡ m.ignored_value_paths)
    × (m'.atvv_paths ≡ m.atvv_paths)
    × (m'.report_metadata_by_path ≡ m.report_metadata_by_path)
    × (m'.initial_cached_values_by_path ≡ m.initial_cached_values_by_path)
    × (m'.active_report_paths ≡ m.active_report_paths)
    × (m'.active_usages_by_path ≡ m.active_usages_by_path)

abbrev pub RoutingOf : Manager → Outcome → Type 0
RoutingOf m (ok (m', effects)) = Routing m m'
RoutingOf m (err e) = Unit

pub Routing-Undisturbed : (path : Text) (m m' : Manager) → Routing m m' → Undisturbed path m m'
Routing-Undisturbed path m m' (i, k, r, c, a, u) = record {
  ignored = i;
  kinds = k;
  metadata = r;
  cached = λ e. rw c e;
  active = rw a refl;
  usages = rw u refl;
}

pub publish_report-Routing : (r : HidInputReport) (m : Manager) → Routing m (publish_report r m).0
unfolding publish_report handle_hid_voice_button schedule_hid_voice_start
publish_report-Routing r m =
    (ground arith, ground arith, ground arith, ground arith, ground arith, ground arith)

synchronize-Routing : (p : ℤ) (i : ℕ) (m : Manager) → RoutingOf m (synchronize p i m)
unfolding synchronize
synchronize-Routing p i m =
    let d : AtvvImaAdpcmDecoder = elim (m.atvv_decoder) [ some d ↦ d | none ↦ new_decoder ] in
    elim (Result-cases (reset p (pos i) d)) [
      | inl (d', e) ↦ rw (e, synchronize) (refl, refl, refl, refl, refl, refl)
      | inr (x, e) ↦ elim (Bool-cases (is_transport_error x)) [
        | inl t ↦ rw (e, t, synchronize) (refl, refl, refl, refl, refl, refl)
        | inr t ↦ rw (e, t, synchronize) tt
      ]
    ]

setup-Routing :
    (value : Bytes) (m : Manager)
    → Routing m (capabilities value m) × Routing m (audio_start value m)
unfolding capabilities audio_start
setup-Routing value m = (
  (ground arith, ground arith, ground arith, ground arith, ground arith, ground arith),
  (ground arith, ground arith, ground arith, ground arith, ground arith, ground arith),
)

control_value-Routing : (value : Bytes) (m : Manager) → RoutingOf m (control_value value m)
unfolding publish_voice_packet cancel_atvv_capture
control_value-Routing value m =
    control_value_elim (RoutingOf m) m value (refl, refl, refl, refl, refl, refl)
      (refl, refl, refl, refl, refl, refl) (λ rest. (setup-Routing rest m).0)
      (λ rest. (setup-Routing rest m).1) (λ p i. synchronize-Routing p i m)
      (refl, refl, refl, refl, refl, refl)

decode_audio-Routing :
    (d : AtvvImaAdpcmDecoder) (value : Bytes) (m : Manager) → RoutingOf m (decode_audio d value m)
unfolding decode_audio publish_voice_packet
decode_audio-Routing d value m = elim (Result-cases (decode_adpcm d value)) [
  | inl (r, e) ↦ rw (e, decode_audio) (refl, refl, refl, refl, refl, refl)
  | inr (x, e) ↦ elim (Bool-cases (is_transport_error x)) [
    | inl t ↦ rw (e, t, decode_audio) (refl, refl, refl, refl, refl, refl)
    | inr t ↦ rw (e, t, decode_audio) tt
  ]
]

audio_value-Routing : (value : Bytes) (m : Manager) → RoutingOf m (audio_value value m)
unfolding audio_value
audio_value-Routing value m = elim (Option-cases m.atvv_decoder) [
  | inl e ↦ rw (e, audio_value) (refl, refl, refl, refl, refl, refl)
  | inr (d, e) ↦ elim (Bool-cases (is_oversized m.atvv_frame_bytes value)) [
    | inl o ↦ rw (e, o, audio_value) (refl, refl, refl, refl, refl, refl)
    | inr o ↦
        rw (e, o, audio_value)
          (decode_audio-Routing d value
            (record m { atvv_audio_packet_count = m.atvv_audio_packet_count + 1 }))
  ]
]

pub atvv_value-Routing :
    (kind : AtvvKind) (value : Bytes) (m : Manager) → RoutingOf m (atvv_value kind value m)
unfolding atvv_value
atvv_value-Routing control value m = control_value-Routing value m
atvv_value-Routing audio value m = audio_value-Routing value m

RoutingOf-Leaves : (path : Text) (m : Manager) (o : Outcome) → RoutingOf m o → Leaves path m o
RoutingOf-Leaves path m (ok (m', effects)) r = Routing-Undisturbed path m m' r
RoutingOf-Leaves path m (err e) r = tt

pub atvv_value-Leaves :
    (path : Text) (kind : AtvvKind) (value : Bytes) (m : Manager)
    → Leaves path m (atvv_value kind value m)
atvv_value-Leaves path kind value m =
    RoutingOf-Leaves path m (atvv_value kind value m) (atvv_value-Routing kind value m)
