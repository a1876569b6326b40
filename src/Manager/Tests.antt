-- ===== src/Manager/Tests.antt =====
-- Runs of the manager, and its theorems at a concrete remote.
use home_assistant_bluetooth.Prelude.{
  Option, ◌≡◌, refl, ◌&&◌, not, true, false, none, some, List, [], ◌∷◌, nat_eq, text_eq, arith,
  Text, codes, ok, if◌then◌else◌, text_beq_iff,
}
use home_assistant_bluetooth.Prelude.Bytes.{Bytes, from_bytes_little}
use home_assistant_bluetooth.Prelude.Dict.{get, get_or, put, pop, contains, add, discard, has}
use home_assistant_bluetooth.Prelude.Int.{pos}
use home_assistant_bluetooth.Hid.Types.{HidUsage, UsageTables}
use home_assistant_bluetooth.Hid.Decode.{
  decode, decode_fields, decode_field, decode_slots, decode_value, slot_value, usage_for_value,
  usage_name,
}
use home_assistant_bluetooth.Hid.Descriptor.{array_field}
use home_assistant_bluetooth.Keymap.Names.{
  int16, signed_hex, hex_body, hex_digits, digit_value, is_space, strip, drop_while, drop_while_end,
}
use home_assistant_bluetooth.Manager.Paths.{
  any, after_last, characteristic_handle_from_path, parse_report_reference,
}
use home_assistant_bluetooth.Manager.State.{
  Manager, new_manager, Effect, report, task, start_atvv_capture, control, supports_voice,
  start_hid_voice,
}
use home_assistant_bluetooth.Manager.Button.{
  publish_report, handle_hid_voice_button, schedule_hid_voice_start, has_search,
}
use home_assistant_bluetooth.Manager.Values.{
  report_metadata, decoded_usages, deliver, input_value, hid_value, route_value, value_changed,
  make_report, forget_cached, atvv_value, control_value,
}
use home_assistant_bluetooth.Manager.Connection.{connected_changed}
use home_assistant_bluetooth.Manager.Invariant.{IsValid, Returns}
use home_assistant_bluetooth.Manager.Invariant.Values.{value_changed-Returns}
use home_assistant_bluetooth.Manager.Releases.{Routed, reports, run}
use home_assistant_bluetooth.Manager.Releases.Press.{press-release}
use home_assistant_bluetooth.Manager.Replay.{disconnect-release}
use home_assistant_bluetooth.Manager.Once.{value_changed-once}
use home_assistant_bluetooth.Manager.Notifications.{Reply, start_notifications, stop_notifications}
use home_assistant_bluetooth.Manager.Notifications.Account.{
  Accounts, held, start_notifications-Accounts, stop_notifications-releases,
}
use home_assistant_bluetooth.Manager.Separation.{Separate, value_changed-Separate}

abbrev tables : UsageTables
tables = record { page_description = λ page. none; usage_description = λ page usage_id. none }

-- A path with report 1, one with an ATVV control characteristic, and one with a cached value.
abbrev key_path : Text
key_path = codes "/char0012"

abbrev control_path : Text
control_path = codes "/char0020"

abbrev cached_path : Text
cached_path = codes "/char0030"

abbrev remote : Manager
remote = record new_manager {
  connected = true;
  report_metadata_by_path = (key_path, (1, pos 0x12)) ∷ [];
  hid_output_report_paths = (0xF2, (codes "/char0040", codes "request")) ∷ [];
  atvv_paths = (control_path, control) ∷ [];
  initial_cached_values_by_path = (cached_path, 7 ∷ []) ∷ [];
  report_decoder = some (record {
    fields_by_report_id = (1, array_field 0x0C 1 16 2 ∷ []) ∷ [];
    report_bits = (1, 32) ∷ [];
  });
}

abbrev press : Bytes
press = 0x21 ∷ 2 ∷ 0 ∷ 0 ∷ []

abbrev release : Bytes
release = 0 ∷ 0 ∷ 0 ∷ 0 ∷ []

abbrev search_usages : List HidUsage
search_usages = record { usage_page = 0x0C; usage_id = 0x0221; name = none } ∷ []

handle_test : characteristic_handle_from_path key_path ≡ some (pos 0x12)
unfolding characteristic_handle_from_path after_last int16 signed_hex hex_body hex_digits
    digit_value is_space strip drop_while drop_while_end
handle_test = refl

reference_test : parse_report_reference (1 ∷ 2 ∷ []) ≡ some (1, 2)
unfolding parse_report_reference
reference_test = refl

remote-IsValid : IsValid remote
unfolding get
remote-IsValid = record { decoding = λ d e. ground arith; holding = λ path h. refl }

value_changed-Returns_example : Returns (value_changed tables control_path (8 ∷ []) remote)
value_changed-Returns_example =
    value_changed-Returns tables control_path (8 ∷ []) remote (omega arith) remote-IsValid

remote-Routed : Routed key_path 1 (pos 0x12) remote
unfolding get contains report_metadata
remote-Routed = record {
  unignored = refl;
  uncached = refl;
  plain = refl;
  mapped = refl;
  spoken = refl;
}

-- The remote after the Search key went down and a capture was asked for.
abbrev searching : Manager
searching = record remote {
  last_report = some (make_report 1 (pos 0x12) press search_usages);
  hid_voice_start_pending = true;
  hid_voice_button_pressed = true;
  active_usages_by_path = (key_path, search_usages) ∷ [];
  active_report_paths = key_path ∷ [];
}

press-release_example :
    (m'' : Manager) × (released : List Effect) × (value_changed tables key_path release searching
      ≡ ok (m'', released))
    × (reports released
        ≡ make_report 1 (pos 0x12) release (decoded_usages tables 1 press remote) ∷ [])
    × (value_changed tables key_path release m'' ≡ ok (m'', []))
unfolding run value_changed route_value hid_value report_metadata input_value deliver decoded_usages
    any publish_report handle_hid_voice_button schedule_hid_voice_start has_search decode
    decode_fields decode_field decode_slots decode_value slot_value usage_for_value usage_name
    atvv_value control_value get get_or put pop contains add discard has from_bytes_little
    supports_voice
press-release_example =
    press-release tables key_path 1 (pos 0x12) press release ((control_path, 8 ∷ []) ∷ []) remote
      searching
      (task start_hid_voice
        ∷ report (make_report 1 (pos 0x12) press search_usages)
        ∷ task start_atvv_capture
        ∷ [])
      remote-Routed refl refl ((λ e. ground (arith, text_beq_iff control_path key_path)), tt) refl

value_changed-once_example :
    (value_changed tables cached_path (7 ∷ []) (forget_cached cached_path remote)
      ≡ route_value tables cached_path (7 ∷ []) (forget_cached cached_path remote))
    × (get remote.initial_cached_values_by_path cached_path ≡ some (7 ∷ [])
        → (forget_cached cached_path remote ≡ forget_cached cached_path remote)
          × (◌≡◌ {A = List Effect} [] []))
unfolding value_changed route_value atvv_value control_value forget_cached contains get pop
value_changed-once_example =
    value_changed-once tables cached_path (7 ∷ []) (7 ∷ []) remote
      (forget_cached cached_path remote) (forget_cached cached_path remote) []
      ((control_path, 0x0B ∷ []) ∷ []) refl refl (forget_cached cached_path remote, [], refl, refl)

disconnect-release_example :
    IsValid (connected_changed false remote).0
    × (value_changed tables key_path release (connected_changed false remote).0
        ≡ ok ((connected_changed false remote).0, []))
unfolding any
disconnect-release_example = disconnect-release tables key_path release remote remote-IsValid refl

value_changed-Separate_example : Separate remote (remote, [])
unfolding value_changed route_value atvv_value control_value get contains
value_changed-Separate_example =
    value_changed-Separate tables control_path (0x0B ∷ []) remote (remote, []) refl

abbrev cached_value : Text → Option Bytes
cached_value path = if text_eq.beq path key_path then some release else none

-- StartNotify fails for the control characteristic, the manager stops while it waits for the key
-- characteristic, and StopNotify fails.
abbrev reply : Text → Reply
reply path = record {
  success = if text_eq.beq path control_path then false else true;
  stop_success = false;
  during_start = λ m. record m { stopping = text_eq.beq path key_path };
  during_stop = λ m. m;
}

start_notifications-Accounts_example :
    Accounts
      (start_notifications true cached_value reply (control_path ∷ key_path ∷ []) remote).1
      []
      (start_notifications true cached_value reply
        (control_path ∷ key_path ∷ [])
        remote).0.notification_paths
start_notifications-Accounts_example =
    start_notifications-Accounts true cached_value reply (control_path ∷ key_path ∷ []) remote
      (λ path m. (refl, refl))

abbrev subscribed_remote : Manager
subscribed_remote = record remote { notification_paths = key_path ∷ [] }

stop_notifications-releases_example :
    ((stop_notifications true cached_value reply subscribed_remote).0.notification_paths ≡ [])
    × (contains
          (held (stop_notifications true cached_value reply subscribed_remote).1 (key_path ∷ []))
          key_path
        ≡ (contains (key_path ∷ []) key_path && not (reply key_path).stop_success))
stop_notifications-releases_example =
    stop_notifications-releases true cached_value reply subscribed_remote key_path refl refl
