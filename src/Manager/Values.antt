-- ===== src/Manager/Values.antt =====
-- `_async_bluez_value_changed` of manager.py: what one notified value does. An `err` is an exception
-- that the callback lets through; the log lines are left out.
use home_assistant_bluetooth.Prelude.{
  ℕ, ◌+◌, ◌-◌, Bool, true, false, ◌&&◌, not, Option, none, some, List, [], ◌∷◌, ◌==◌, nat_eq,
  text_eq, if◌then◌else◌, ltb, leb, length, Text, Result, ok, err,
}
use home_assistant_bluetooth.Prelude.Bytes.{Bytes, from_bytes_big}
use home_assistant_bluetooth.Prelude.Dict.{get, get_or, put, pop, contains, add, discard}
use home_assistant_bluetooth.Prelude.Int.{ℤ, pos, negsuc}
use home_assistant_bluetooth.Hid.Types.{HidUsage, UsageTables}
use home_assistant_bluetooth.Hid.Decode.{decode}
use home_assistant_bluetooth.Voice.Types.{
  VoiceError, invalid_adpcm_size, predictor_range, step_index_range, hid, pcm, voice_report_id,
  atvv_codec_adpcm_16k,
}
use home_assistant_bluetooth.Voice.Adpcm.{
  AtvvImaAdpcmDecoder, new_decoder, reset, decode as decode_adpcm,
}
use home_assistant_bluetooth.Voice.Ogg.{is_supported_opus_packet}
use home_assistant_bluetooth.Manager.Paths.{any, characteristic_handle_from_path}
use home_assistant_bluetooth.Manager.State.{
  Manager, HidInputReport, Effect, task, start_atvv_capture, AtvvKind, control, audio,
  supports_voice, publish_voice_packet,
}
use home_assistant_bluetooth.Manager.Button.{publish_report}

abbrev pub Outcome : Type 0
Outcome = Result VoiceError (Manager × List Effect)

-- The classes of VoiceTransportError, which the callback catches.
unfoldable pub is_transport_error : VoiceError → Bool
is_transport_error invalid_adpcm_size = true
is_transport_error predictor_range = true
is_transport_error step_index_range = true
is_transport_error _ = false

-- `_cancel_atvv_capture`
unfoldable pub cancel_atvv_capture : Manager → Manager
cancel_atvv_capture m = record m {
  atvv_close_pending = false;
  atvv_capture_active = false;
  atvv_decoder = none;
}

-- int.from_bytes(b, "big", signed=True) of two bytes.
unfoldable pub signed_big16 : ℕ → ℕ → ℤ
signed_big16 high low =
    let n = from_bytes_big (high ∷ low ∷ []) in if ltb n 32768 then pos n else negsuc (65535 - n)

-- Opcode 0x0A: a failed reset drops the decoder.
unfoldable pub synchronize : ℤ → ℕ → Manager → Outcome
synchronize predictor step_index m =
    let decoder : AtvvImaAdpcmDecoder = elim (m.atvv_decoder) [ some d ↦ d | none ↦ new_decoder ] in
    elim (reset predictor (pos step_index) decoder) [
      | ok d ↦ ok (record m { atvv_decoder = some d }, [])
      | err e ↦ if is_transport_error e then ok (record m { atvv_decoder = none }, []) else err e
    ]

-- The bytes behind the opcode, by the lengths that the code asks for.
unfoldable pub capabilities : Bytes → Manager → Manager
capabilities (v1 ∷ v2 ∷ v3 ∷ v4 ∷ high ∷ low ∷ v7 ∷ v8 ∷ rest) m = record m {
  atvv_frame_bytes = some (from_bytes_big (high ∷ low ∷ []));
}
capabilities _ m = m

unfoldable pub audio_start : Bytes → Manager → Manager
audio_start (reason ∷ codec ∷ stream_id ∷ rest) m = record m {
  atvv_decoder = if codec == atvv_codec_adpcm_16k then some new_decoder else none;
}
audio_start _ m = m

unfoldable pub audio_sync : Bytes → Manager → Outcome
audio_sync (codec ∷ s2 ∷ s3 ∷ high ∷ low ∷ step_index ∷ rest) m =
    if codec == atvv_codec_adpcm_16k
    then synchronize (signed_big16 high low) step_index m
    else ok (m, [])
audio_sync _ m = ok (m, [])

unfoldable pub control_value : Bytes → Manager → Outcome
control_value [] m = ok (m, [])
control_value (raw_opcode ∷ rest) m =
    if raw_opcode == 0x0B && leb 8 (length rest)
    then ok (capabilities rest m, [])
    else if raw_opcode == 0x08
    then ok (m, task start_atvv_capture ∷ [])
    else if raw_opcode == 0x04 && leb 3 (length rest)
    then ok (audio_start rest m, [])
    else if raw_opcode == 0x0A && leb 6 (length rest)
    then audio_sync rest m
    else if raw_opcode == 0x00
    then ok (publish_voice_packet none (cancel_atvv_capture m))
    else ok (m, [])

-- `frame_bytes and len(value) > frame_bytes`
unfoldable pub is_oversized : Option ℕ → Bytes → Bool
is_oversized none value = false
is_oversized (some frame_bytes) value = not (frame_bytes == 0) && ltb frame_bytes (length value)

unfoldable pub decode_audio : AtvvImaAdpcmDecoder → Bytes → Manager → Outcome
decode_audio decoder value m = elim (decode_adpcm decoder value) [
  | ok (d, out) ↦ ok (
      publish_voice_packet (some (pcm (record { sample_rate = 16_000; payload = out })))
        (record m { atvv_decoder = some d }))
  | err e ↦
      if is_transport_error e
      then ok (publish_voice_packet none (record m { atvv_decoder = none }))
      else err e
]

unfoldable pub audio_value : Bytes → Manager → Outcome
audio_value value m =
    let counted = record m { atvv_audio_packet_count = m.atvv_audio_packet_count + 1 } in
    elim (m.atvv_decoder) [
      | none ↦ ok (counted, [])
      | some decoder ↦
          if is_oversized m.atvv_frame_bytes value
          then ok (counted, [])
          else decode_audio decoder value counted
    ]

unfoldable pub atvv_value : AtvvKind → Bytes → Manager → Outcome
atvv_value control value m = control_value value m
atvv_value audio value m = audio_value value m

-- The report's number and handle: mapped, or the handle in the path.
unfoldable pub report_metadata : Text → Manager → Option (ℕ × ℤ)
report_metadata path m = elim (get m.report_metadata_by_path path) [
  | some metadata ↦ some metadata
  | none ↦ elim (characteristic_handle_from_path path) [
    | none ↦ none
    | some handle ↦ some (0, handle)
  ]
]

-- An entry of `_initial_cached_values_by_path` is used up by the first value of its path.
unfoldable pub forget_cached : Text → Manager → Manager
forget_cached path m = record m {
  initial_cached_values_by_path = pop m.initial_cached_values_by_path path;
}

-- HidInputReport(report_id, characteristic_handle, bytes(data), usages=usages)
abbrev pub make_report : ℕ → ℤ → Bytes → List HidUsage → HidInputReport
make_report report_id handle value usages = record {
  report_id = report_id;
  characteristic_handle = handle;
  payload = value;
  usages = usages;
}

module _ (tables : UsageTables) where
  unfoldable pub decoded_usages : ℕ → Bytes → Manager → List HidUsage
  decoded_usages report_id value m = elim (m.report_decoder) [
    | none ↦ []
    | some decoder ↦ decode tables decoder report_id value
  ]

  -- `_active_usages_by_path`, and the usages that the report goes out with.
  unfoldable pub deliver : Text → Bytes → ℕ → ℤ → Manager → Manager × List Effect
  deliver path value report_id handle m =
      let popped = record m { active_usages_by_path = pop m.active_usages_by_path path } in
      let sent = make_report report_id handle value in
      elim (decoded_usages report_id value m) [
        | usage ∷ usages ↦
            publish_report (sent (usage ∷ usages)) (record m {
              active_usages_by_path = put m.active_usages_by_path path (usage ∷ usages);
            })
        | [] ↦
            if any value
            then publish_report (sent []) popped
            else publish_report (sent (get_or m.active_usages_by_path path [])) popped
      ]

  unfoldable pub input_value : Text → Bytes → ℕ → ℤ → Manager → Manager × List Effect
  input_value path value report_id handle m =
      if any value
      then deliver path value report_id handle
          (record m { active_report_paths = add m.active_report_paths path })
      else if not (contains m.active_report_paths path)
      then (m, [])
      else deliver path value report_id handle
          (record m { active_report_paths = discard m.active_report_paths path })

  unfoldable pub hid_value : Text → Bytes → Manager → Manager × List Effect
  hid_value path value m = elim (report_metadata path m) [
    | none ↦ (m, [])
    | some (report_id, handle) ↦
        if report_id == voice_report_id && (supports_voice m && is_supported_opus_packet value)
        then publish_voice_packet
            (some (
              hid (record {
                report_id = report_id;
                characteristic_handle = handle;
                payload = value;
              })))
            (record m { hid_voice_packet_seen = true })
        else input_value path value report_id handle m
  ]

  unfoldable pub route_value : Text → Bytes → Manager → Outcome
  route_value path value m = elim (get m.atvv_paths path) [
    | some kind ↦ atvv_value kind value m
    | none ↦ ok (hid_value path value m)
  ]

  unfoldable pub value_changed : Text → Bytes → Manager → Outcome
  value_changed path value m =
      if contains m.ignored_value_paths path
      then ok (m, [])
      else elim (get m.initial_cached_values_by_path path) [
        | none ↦ route_value path value m
        | some initial_value ↦
            if value == initial_value
            then ok (forget_cached path m, [])
            else route_value path value (forget_cached path m)
      ]
