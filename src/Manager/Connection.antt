-- ===== src/Manager/Connection.antt =====
-- `_async_bluez_connected_changed` of manager.py.
use home_assistant_bluetooth.Prelude.{Bool, false, none, List, [], ◌∷◌, if◌then◌else◌}
use home_assistant_bluetooth.Manager.State.{
  Manager, Effect, task, map_reports, publish_voice_packet,
}
use home_assistant_bluetooth.Manager.Values.{cancel_atvv_capture}

-- The pending retry and the pending voice start are cancelled, and all that the connection gave is
-- forgotten.
unfoldable pub disconnected : Manager → Manager
disconnected m = record (cancel_atvv_capture m) {
  metadata_retry_pending = false;
  hid_voice_start_pending = false;
  hid_voice_command_active = false;
  hid_voice_button_pressed = false;
  hid_voice_packet_seen = false;
  report_metadata_by_path = [];
  hid_output_report_paths = [];
  atvv_paths = [];
  ignored_value_paths = [];
  initial_cached_values_by_path = [];
  active_usages_by_path = [];
  active_report_paths = [];
  notification_paths = [];
  input_report_count = 0;
}

unfoldable pub connected_changed : Bool → Manager → Manager × List Effect
connected_changed connected m =
    let changed = record m { connected = connected } in
    if connected
    then if m.stopping then (changed, []) else (changed, task map_reports ∷ [])
    else publish_voice_packet none (disconnected changed)
