-- ===== src/Manager/Button.antt =====
-- `_handle_hid_voice_button`, `_schedule_hid_voice_start` and `_publish_report` of manager.py.
use home_assistant_bluetooth.Prelude.{
  ℕ, Bool, true, false, ◌&&◌, ◌||◌, not, some, List, [], ◌∷◌, ◌++◌, ◌==◌, nat_eq, if◌then◌else◌,
}
use home_assistant_bluetooth.Prelude.Dict.{has}
use home_assistant_bluetooth.Hid.Types.{HidUsage}
use home_assistant_bluetooth.Manager.Paths.{any}
use home_assistant_bluetooth.Manager.State.{
  Manager, HidInputReport, Effect, report, task, start_hid_voice, stop_hid_voice,
}

abbrev pub voice_control_output_report_id : ℕ
voice_control_output_report_id = 0xF2

-- Whether a usage is _SEARCH_USAGE.
unfoldable pub has_search : List HidUsage → Bool
has_search [] = false
has_search (usage ∷ usages) =
    (usage.usage_page == 0x0C && usage.usage_id == 0x0221) || has_search usages

unfoldable pub schedule_hid_voice_start : Manager → Manager × List Effect
schedule_hid_voice_start m =
    if not (has m.hid_output_report_paths voice_control_output_report_id)
      || m.hid_voice_command_active
      || m.hid_voice_start_pending
    then (m, [])
    else (
      record m { hid_voice_packet_seen = false; hid_voice_start_pending = true },
      task start_hid_voice ∷ [],
    )

unfoldable pub handle_hid_voice_button : HidInputReport → Manager → Manager × List Effect
handle_hid_voice_button r m =
    if not (has_search r.usages)
    then (m, [])
    else if any r.payload
    then schedule_hid_voice_start (record m { hid_voice_button_pressed = true })
    else (
      record m { hid_voice_button_pressed = false },
      if m.hid_voice_command_active then task stop_hid_voice ∷ [] else [],
    )

unfoldable pub publish_report : HidInputReport → Manager → Manager × List Effect
publish_report r m =
    let (m', effects) = handle_hid_voice_button r m in
    (record m' { last_report = some r }, effects ++ report r ∷ [])
