-- ===== src/Manager/Replay.antt =====
-- The values after a disconnect.
use home_assistant_bluetooth.Prelude.{
  ◌≡◌, refl, Bool, true, false, [], nat_eq, text_eq, arith, Text, ok, Bool-cases, inl, inr,
}
use home_assistant_bluetooth.Prelude.Bytes.{Bytes}
use home_assistant_bluetooth.Prelude.Dict.{get, contains}
use home_assistant_bluetooth.Hid.Types.{UsageTables}
use home_assistant_bluetooth.Manager.Paths.{any}
use home_assistant_bluetooth.Manager.State.{Manager, publish_voice_packet}
use home_assistant_bluetooth.Manager.Values.{
  cancel_atvv_capture, report_metadata, input_value, hid_value, route_value, value_changed,
}
use home_assistant_bluetooth.Manager.Connection.{connected_changed, disconnected}
use home_assistant_bluetooth.Manager.Invariant.{IsValid}

connected_changed-IsValid :
    (connected : Bool) (m : Manager) → IsValid m → IsValid (connected_changed connected m).0
unfolding connected_changed publish_voice_packet disconnected cancel_atvv_capture get
connected_changed-IsValid false m v = record {
  decoding = λ d e. ground arith;
  holding = λ path h. refl;
}
connected_changed-IsValid true m v = elim (Bool-cases m.stopping) [
  | inl s ↦ rw s record { decoding = v.decoding; holding = v.holding }
  | inr s ↦ rw s record { decoding = v.decoding; holding = v.holding }
]

-- After a disconnect in a valid state the state is valid, and an all-zero value on any path, whatever
-- was pressed before, reaches no listener and changes nothing.
pub disconnect-release :
    (tables : UsageTables) (path : Text) (release : Bytes) (m : Manager)
    → IsValid m
    → any release ≡ false
    → IsValid (connected_changed false m).0
      × (value_changed tables path release (connected_changed false m).0
          ≡ ok ((connected_changed false m).0, []))
unfolding connected_changed publish_voice_packet disconnected cancel_atvv_capture value_changed
    route_value hid_value report_metadata input_value get contains
disconnect-release tables path release m v z = (connected_changed-IsValid false m v, ground arith)
