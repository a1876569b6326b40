-- ===== src/Manager/Invariant.antt =====
-- What holds of the manager's fields after every callback, and that the callbacks let no exception
-- through.
pub mod Reports
pub mod Atvv
pub mod Values
use mathlib.Core.Bool.{false≢true}
use home_assistant_bluetooth.Prelude.{
  ℕ, ◌<◌, ◌≤◌, ◌≡◌, refl, Bool, true, false, Option, none, some, List, [], ◌∷◌, ◌==◌, nat_eq,
  text_eq, arith, Text, ok, err, All, length, Bool-cases, Option-cases, Result-cases, List-cases,
  inl, inr, text_beq_iff,
}
use home_assistant_bluetooth.Prelude.Bytes.{Bytes, IsBytes}
use home_assistant_bluetooth.Prelude.Dict.{
  get, get_or, put, pop, contains, add, discard, get-put, get-pop, contains-add, contains-discard,
}
use home_assistant_bluetooth.Prelude.Int.{ℤ, pos, negsuc}
use home_assistant_bluetooth.Hid.Types.{HidUsage, UsageTables}
use home_assistant_bluetooth.Hid.Decode.Zero.{decode-zeros}
use home_assistant_bluetooth.Voice.Types.{VoiceError}
use home_assistant_bluetooth.Voice.Adpcm.{
  AtvvImaAdpcmDecoder, new_decoder, reset, decode as decode_adpcm,
}
use home_assistant_bluetooth.Voice.Adpcm.Range.{
  IsValid as IsValidDecoder, Gives, decode-Gives, reset_iff,
}
use home_assistant_bluetooth.Manager.Paths.{any}
use home_assistant_bluetooth.Manager.State.{
  Manager, HidInputReport, Effect, AtvvKind, control, audio, publish_voice_packet,
}
use home_assistant_bluetooth.Manager.Button.{
  publish_report, handle_hid_voice_button, schedule_hid_voice_start,
}
use home_assistant_bluetooth.Manager.Values.{
  Outcome, is_transport_error, cancel_atvv_capture, synchronize, capabilities, audio_start,
  audio_sync, control_value, decode_audio, audio_value, atvv_value, report_metadata, forget_cached,
  decoded_usages, deliver, input_value, hid_value, route_value, value_changed, make_report,
  is_oversized, signed_big16,
}

-- The ADPCM decoder is in range, and only a pressed path holds usages for its release.
pub record IsValid (m : Manager) : Type 0 where
  pub decoding : (d : AtvvImaAdpcmDecoder) → m.atvv_decoder ≡ some d → IsValidDecoder d
  pub holding :
      (path : Text)
      → contains m.active_report_paths path ≡ false
      → get m.active_usages_by_path path ≡ none

-- A callback returned, and its state is valid.
abbrev pub Returns : Outcome → Type 0
Returns (ok (m, effects)) = IsValid m
Returns (err e) = ⊥

-- The fields that `IsValid` reads.
abbrev pub Kept : Manager → Manager → Type 0
Kept m m' =
    (m'.atvv_decoder ≡ m.atvv_decoder)
    × (m'.active_report_paths ≡ m.active_report_paths)
    × (m'.active_usages_by_path ≡ m.active_usages_by_path)

pub Kept-IsValid : (m m' : Manager) → Kept m m' → IsValid m → IsValid m'
Kept-IsValid m m' k v = record {
  decoding = λ d e. v.decoding d (rw k.0 at e);
  holding = λ path h. rw (k.2) (v.holding path (rw k.1 at h));
}

publish_report-Kept : (r : HidInputReport) (m : Manager) → Kept m (publish_report r m).0
unfolding publish_report handle_hid_voice_button schedule_hid_voice_start
publish_report-Kept r m = (ground arith, ground arith, ground arith)

pub publish_report-IsValid :
    (r : HidInputReport) (m : Manager) → IsValid m → IsValid (publish_report r m).0
publish_report-IsValid r m v = Kept-IsValid m (publish_report r m).0 (publish_report-Kept r m) v
