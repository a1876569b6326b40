-- ===== src/Manager/Undisturbed.antt =====
-- A value on another path leaves what the manager knows of one path as it is.
pub mod Atvv
pub mod Values
use home_assistant_bluetooth.Prelude.{
  ℕ, ◌≡◌, ◌≢◌, ◌+◌, ◌&&◌, ◌||◌, refl, Bool, true, false, Option, none, some, List, [], ◌∷◌, ◌==◌,
  nat_eq, text_eq, arith, Text, ok, err, length, ltb, leb, Bool-cases, Option-cases, Result-cases,
  List-cases, inl, inr, text_beq_iff, ◌∙◌,
}
use home_assistant_bluetooth.Prelude.Bytes.{Bytes}
use home_assistant_bluetooth.Prelude.Dict.{
  get, get_or, put, pop, contains, add, discard, get-put, get-pop, contains-add, contains-discard,
}
use home_assistant_bluetooth.Prelude.Int.{ℤ, pos, negsuc}
use home_assistant_bluetooth.Hid.Types.{HidUsage, UsageTables}
use home_assistant_bluetooth.Voice.Types.{voice_report_id, atvv_codec_adpcm_16k}
use home_assistant_bluetooth.Voice.Ogg.{is_supported_opus_packet}
use home_assistant_bluetooth.Voice.Adpcm.{
  AtvvImaAdpcmDecoder, reset, new_decoder, decode as decode_adpcm,
}
use home_assistant_bluetooth.Manager.Paths.{any}
use home_assistant_bluetooth.Manager.State.{
  Manager, HidInputReport, Effect, AtvvKind, control, audio, publish_voice_packet, supports_voice,
}
use home_assistant_bluetooth.Manager.Button.{
  publish_report, handle_hid_voice_button, schedule_hid_voice_start,
}
use home_assistant_bluetooth.Manager.Control.{control_value_elim}
use home_assistant_bluetooth.Manager.Values.{
  Outcome, is_transport_error, cancel_atvv_capture, synchronize, capabilities, audio_start,
  audio_sync, control_value, decode_audio, audio_value, atvv_value, report_metadata, forget_cached,
  decoded_usages, deliver, input_value, hid_value, route_value, value_changed, make_report,
  is_oversized, signed_big16,
}

-- How the values of `path` are routed, whether it is pressed, and the usages it holds.
pub record Undisturbed (path : Text) (m m' : Manager) : Type 0 where
  pub ignored : m'.ignored_value_paths ≡ m.ignored_value_paths
  pub kinds : m'.atvv_paths ≡ m.atvv_paths
  pub metadata : m'.report_metadata_by_path ≡ m.report_metadata_by_path
  pub cached :
      get m.initial_cached_values_by_path path ≡ none
      → get m'.initial_cached_values_by_path path ≡ none
  pub active : contains m'.active_report_paths path ≡ contains m.active_report_paths path
  pub usages : get m'.active_usages_by_path path ≡ get m.active_usages_by_path path

pub Undisturbed-refl : (path : Text) (m : Manager) → Undisturbed path m m
Undisturbed-refl path m = record {
  ignored = refl;
  kinds = refl;
  metadata = refl;
  cached = λ e. e;
  active = refl;
  usages = refl;
}

pub Undisturbed-trans :
    (path : Text) (m m' m'' : Manager)
    → Undisturbed path m m'
    → Undisturbed path m' m''
    → Undisturbed path m m''
Undisturbed-trans path m m' m'' a b = record {
  ignored = b.ignored ∙ a.ignored;
  kinds = b.kinds ∙ a.kinds;
  metadata = b.metadata ∙ a.metadata;
  cached = λ e. b.cached (a.cached e);
  active = b.active ∙ a.active;
  usages = b.usages ∙ a.usages;
}

-- The callback returned a manager that is undisturbed on `path`, or it raised.
abbrev pub Leaves : Text → Manager → Outcome → Type 0
Leaves path m (ok (m', effects)) = Undisturbed path m m'
Leaves path m (err e) = Unit
