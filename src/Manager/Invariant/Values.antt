-- ===== src/Manager/Invariant/Values.antt =====
-- Every notified value is handled, and keeps the manager's fields valid.
use home_assistant_bluetooth.Prelude.{
  ◌==◌, nat_eq, text_eq, Text, Bool-cases, Option-cases, inl, inr,
}
use home_assistant_bluetooth.Prelude.Bytes.{Bytes, IsBytes}
use home_assistant_bluetooth.Prelude.Dict.{get, contains}
use home_assistant_bluetooth.Hid.Types.{UsageTables}
use home_assistant_bluetooth.Manager.State.{Manager, control, audio}
use home_assistant_bluetooth.Manager.Values.{atvv_value, forget_cached, route_value, value_changed}
use home_assistant_bluetooth.Manager.Invariant.{IsValid, Returns}
use home_assistant_bluetooth.Manager.Invariant.Reports.{hid_value-IsValid}
use home_assistant_bluetooth.Manager.Invariant.Atvv.{control_value-Returns, audio_value-Returns}

forget_cached-IsValid : (path : Text) (m : Manager) → IsValid m → IsValid (forget_cached path m)
unfolding forget_cached
forget_cached-IsValid path m v = record { decoding = v.decoding; holding = v.holding }

module _ (tables : UsageTables) where
  route_value-Returns :
      (path : Text) (value : Bytes) (m : Manager)
      → IsBytes value
      → IsValid m
      → Returns (route_value tables path value m)
  unfolding route_value atvv_value
  route_value-Returns path value m b v = elim (Option-cases (get m.atvv_paths path)) [
    | inl e ↦ rw (e, route_value) (hid_value-IsValid tables path value m v)
    | inr (control, e) ↦ rw (e, route_value) (control_value-Returns value m v)
    | inr (audio, e) ↦ rw (e, route_value) (audio_value-Returns value m b v)
  ]

  -- From a valid state every notified byte string, on any path, is handled without an exception, and
  -- leaves a valid state: the ADPCM decoder is in range, and only pressed paths hold usages for their
  -- release.
  pub value_changed-Returns :
      (path : Text) (value : Bytes) (m : Manager)
      → IsBytes value
      → IsValid m
      → Returns (value_changed tables path value m)
  unfolding value_changed
  value_changed-Returns path value m b v = elim (Bool-cases (contains m.ignored_value_paths path)) [
    | inl i ↦ rw (i, value_changed) v
    | inr i ↦ elim (Option-cases (get m.initial_cached_values_by_path path)) [
      | inl e ↦ rw (i, e, value_changed) (route_value-Returns path value m b v)
      | inr (initial, e) ↦ elim (Bool-cases (value == initial)) [
        | inl s ↦ rw (i, e, s, value_changed) (forget_cached-IsValid path m v)
        | inr s ↦
            rw (i, e, s, value_changed)
              (route_value-Returns path value (forget_cached path m) b
                (forget_cached-IsValid path m v))
      ]
    ]
  ]
