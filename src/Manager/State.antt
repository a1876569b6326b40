-- ===== src/Manager/State.antt =====
-- The fields of BluetoothHidRemoteManager that its callbacks read and write, and what a callback does
-- beside changing them. A task field is true while its task or timer is pending.
use home_assistant_bluetooth.Prelude.{
  ℕ, Bool, true, false, ◌&&◌, ◌||◌, Option, none, some, List, [], ◌∷◌, ◌==◌, nat_eq, Text,
}
use home_assistant_bluetooth.Prelude.Bytes.{Bytes}
use home_assistant_bluetooth.Prelude.Dict.{Dict}
use home_assistant_bluetooth.Prelude.Int.{ℤ}
use home_assistant_bluetooth.Hid.Types.{HidUsage}
use home_assistant_bluetooth.Hid.Decode.{HidReportDecoder, input_report_size_bytes}
use home_assistant_bluetooth.Voice.Types.{VoicePacket, voice_report_id, voice_packet_size}
use home_assistant_bluetooth.Voice.Adpcm.{AtvvImaAdpcmDecoder}

pub record HidInputReport : Type 0 where
  pub report_id : ℕ
  pub characteristic_handle : ℤ
  pub payload : Bytes
  pub usages : List HidUsage

-- The values of `_atvv_paths`.
pub data AtvvKind : Type 0 where
  control audio : AtvvKind

-- The coroutines that a callback hands to `async_create_background_task`.
pub data Task : Type 0 where
  start_hid_voice stop_hid_voice start_atvv_capture map_reports : Task

-- A report or a voice packet is handed to every listener, a task to Home Assistant.
pub data Effect : Type 0 where
  report : HidInputReport → Effect
  voice : Option VoicePacket → Effect
  task : Task → Effect

pub record Manager : Type 0 where
  pub connected : Bool
  pub stopping : Bool
  pub input_report_count : ℕ
  pub connection_failures : ℕ
  pub last_report : Option HidInputReport
  pub last_voice_packet : Option VoicePacket
  pub metadata_retry_pending : Bool
  pub report_metadata_by_path : Dict Text (ℕ × ℤ)
  pub hid_output_report_paths : Dict ℕ (Text × Text)
  pub hid_voice_start_pending : Bool
  pub hid_voice_command_active : Bool
  pub hid_voice_button_pressed : Bool
  pub hid_voice_packet_seen : Bool
  pub atvv_paths : Dict Text AtvvKind
  pub atvv_tx_path : Option Text
  pub atvv_close_pending : Bool
  pub atvv_audio_packet_count : ℕ
  pub atvv_capture_active : Bool
  pub atvv_decoder : Option AtvvImaAdpcmDecoder
  pub atvv_frame_bytes : Option ℕ
  pub ignored_value_paths : List Text
  pub initial_cached_values_by_path : Dict Text Bytes
  pub report_decoder : Option HidReportDecoder
  pub active_usages_by_path : Dict Text (List HidUsage)
  pub active_report_paths : List Text
  pub notification_paths : List Text

-- BluetoothHidRemoteManager(...)
abbrev pub new_manager : Manager
new_manager = record {
  connected = false;
  stopping = false;
  input_report_count = 0;
  connection_failures = 0;
  last_report = none;
  last_voice_packet = none;
  metadata_retry_pending = false;
  report_metadata_by_path = [];
  hid_output_report_paths = [];
  hid_voice_start_pending = false;
  hid_voice_command_active = false;
  hid_voice_button_pressed = false;
  hid_voice_packet_seen = false;
  atvv_paths = [];
  atvv_tx_path = none;
  atvv_close_pending = false;
  atvv_audio_packet_count = 0;
  atvv_capture_active = false;
  atvv_decoder = none;
  atvv_frame_bytes = none;
  ignored_value_paths = [];
  initial_cached_values_by_path = [];
  report_decoder = none;
  active_usages_by_path = [];
  active_report_paths = [];
  notification_paths = [];
}

-- The kinds of characteristic among the values of `_atvv_paths`: audio, and control.
unfoldable pub atvv_kinds : Dict Text AtvvKind → Bool × Bool
atvv_kinds [] = (false, false)
atvv_kinds ((path, audio) ∷ paths) = (true, (atvv_kinds paths).1)
atvv_kinds ((path, control) ∷ paths) = ((atvv_kinds paths).0, true)

unfoldable pub supports_hid_opus : Manager → Bool
supports_hid_opus m = elim (m.report_decoder) [
  | none ↦ false
  | some decoder ↦ elim (input_report_size_bytes decoder voice_report_id) [
    | none ↦ false
    | some size ↦ size == voice_packet_size
  ]
]

unfoldable pub supports_atvv : Manager → Bool
supports_atvv m =
    let kinds = atvv_kinds m.atvv_paths in
    elim (m.atvv_tx_path) [ none ↦ false | some path ↦ kinds.0 && kinds.1 ]

unfoldable pub supports_voice : Manager → Bool
supports_voice m = supports_hid_opus m || supports_atvv m

-- `_publish_voice_packet`
unfoldable pub publish_voice_packet : Option VoicePacket → Manager → Manager × List Effect
publish_voice_packet packet m = (record m { last_voice_packet = packet }, voice packet ∷ [])
