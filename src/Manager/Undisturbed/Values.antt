-- ===== src/Manager/Undisturbed/Values.antt =====
-- A value on another path leaves the state of one path as it is.
use home_assistant_bluetooth.Prelude.{
  ℕ, ◌≡◌, ◌≢◌, ◌&&◌, refl, false, List, [], ◌∷◌, ◌==◌, nat_eq, text_eq, arith, Text, ok, err,
  Bool-cases, Option-cases, List-cases, inl, inr, text_beq_iff,
}
use home_assistant_bluetooth.Prelude.Bytes.{Bytes}
use home_assistant_bluetooth.Prelude.Dict.{
  get, get_or, put, pop, contains, add, discard, get-put, get-pop, contains-add, contains-discard,
}
use home_assistant_bluetooth.Prelude.Int.{ℤ}
use home_assistant_bluetooth.Hid.Types.{HidUsage, UsageTables}
use home_assistant_bluetooth.Voice.Types.{voice_report_id}
use home_assistant_bluetooth.Voice.Ogg.{is_supported_opus_packet}
use home_assistant_bluetooth.Manager.Paths.{any}
use home_assistant_bluetooth.Manager.State.{
  Manager, HidInputReport, publish_voice_packet, supports_voice,
}
use home_assistant_bluetooth.Manager.Button.{publish_report}
use home_assistant_bluetooth.Manager.Values.{
  Outcome, report_metadata, forget_cached, decoded_usages, deliver, input_value, hid_value,
  route_value, value_changed, make_report,
}
use home_assistant_bluetooth.Manager.Undisturbed.{
  Undisturbed, Undisturbed-refl, Undisturbed-trans, Leaves,
}
use home_assistant_bluetooth.Manager.Undisturbed.Atvv.{
  Routing-Undisturbed, publish_report-Routing, atvv_value-Leaves,
}

Leaves-after :
    (path : Text) (m m' : Manager) (o : Outcome)
    → Undisturbed path m m'
    → Leaves path m' o
    → Leaves path m o
Leaves-after path m m' (ok (m'', effects)) a b = Undisturbed-trans path m m' m'' a b
Leaves-after path m m' (err e) a b = tt

forget_cached-Undisturbed :
    (path other : Text) (m : Manager) → Undisturbed path m (forget_cached other m)
unfolding forget_cached
forget_cached-Undisturbed path other m = record {
  ignored = refl;
  kinds = refl;
  metadata = refl;
  cached = λ e. ground (arith, get-pop m.initial_cached_values_by_path other path);
  active = refl;
  usages = refl;
}

miss : (other path : Text) → other ≢ path → (other == path) ≡ false
miss other path n = elim (Bool-cases (other == path)) [
  | inl h ↦ absurd (n ((text_beq_iff other path).0 h))
  | inr h ↦ h
]

added-Undisturbed :
    (path other : Text) (m : Manager)
    → other ≢ path
    → Undisturbed path m (record m { active_report_paths = add m.active_report_paths other })
added-Undisturbed path other m n = record {
  ignored = refl;
  kinds = refl;
  metadata = refl;
  cached = λ e. e;
  active = ground (arith, contains-add m.active_report_paths other path, miss other path n);
  usages = refl;
}

discarded-Undisturbed :
    (path other : Text) (m : Manager)
    → other ≢ path
    → Undisturbed path m (record m { active_report_paths = discard m.active_report_paths other })
discarded-Undisturbed path other m n = record {
  ignored = refl;
  kinds = refl;
  metadata = refl;
  cached = λ e. e;
  active = ground (arith, contains-discard m.active_report_paths other path, miss other path n);
  usages = refl;
}

popped : Text → Manager → Manager
popped other m = record m { active_usages_by_path = pop m.active_usages_by_path other }

popped-Undisturbed :
    (path other : Text) (m : Manager) → other ≢ path → Undisturbed path m (popped other m)
unfolding popped
popped-Undisturbed path other m n = record {
  ignored = refl;
  kinds = refl;
  metadata = refl;
  cached = λ e. e;
  active = refl;
  usages = ground (arith, get-pop m.active_usages_by_path other path, miss other path n);
}

placed-Undisturbed :
    (path other : Text) (us : List HidUsage) (m : Manager)
    → other ≢ path
    → Undisturbed path m (record m { active_usages_by_path = put m.active_usages_by_path other us })
placed-Undisturbed path other us m n = record {
  ignored = refl;
  kinds = refl;
  metadata = refl;
  cached = λ e. e;
  active = refl;
  usages = ground (arith, get-put m.active_usages_by_path other path us, miss other path n);
}

sent-Undisturbed :
    (path : Text) (r : HidInputReport) (m m' : Manager)
    → Undisturbed path m m'
    → Undisturbed path m (publish_report r m').0
sent-Undisturbed path r m m' u =
    Undisturbed-trans path m m' (publish_report r m').0 u
      (Routing-Undisturbed path m' (publish_report r m').0 (publish_report-Routing r m'))

module _ (tables : UsageTables) (path : Text) where
  deliver-Undisturbed :
      (other : Text) (value : Bytes) (report_id : ℕ) (handle : ℤ) (m : Manager)
      → other ≢ path
      → Undisturbed path m (deliver tables other value report_id handle m).0
  unfolding deliver popped
  deliver-Undisturbed other value report_id handle m n =
      elim (List-cases (decoded_usages tables report_id value m)) [
        | inl e ↦ elim (Bool-cases (any value)) [
          | inl h ↦
              rw (e, h, deliver)
                (sent-Undisturbed path (make_report report_id handle value []) m (popped other m)
                  (popped-Undisturbed path other m n))
          | inr h ↦
              rw (e, h, deliver)
                (sent-Undisturbed path
                  (make_report report_id handle value (get_or m.active_usages_by_path other [])) m
                  (popped other m) (popped-Undisturbed path other m n))
        ]
        | inr (u, us, e) ↦
            rw (e, deliver)
              (sent-Undisturbed path (make_report report_id handle value (u ∷ us)) m
                (record m { active_usages_by_path = put m.active_usages_by_path other (u ∷ us) })
                (placed-Undisturbed path other (u ∷ us) m n))
      ]

  input_value-Undisturbed :
      (other : Text) (value : Bytes) (report_id : ℕ) (handle : ℤ) (m : Manager)
      → other ≢ path
      → Undisturbed path m (input_value tables other value report_id handle m).0
  unfolding input_value
  input_value-Undisturbed other value report_id handle m n =
      let pressed = record m { active_report_paths = add m.active_report_paths other } in
      let released = record m { active_report_paths = discard m.active_report_paths other } in
      elim (Bool-cases (any value)) [
        | inl h ↦
            rw (h, input_value)
              (Undisturbed-trans path m pressed _ (added-Undisturbed path other m n)
                (deliver-Undisturbed other value report_id handle pressed n))
        | inr h ↦ elim (Bool-cases (contains m.active_report_paths other)) [
          | inl c ↦
              rw (h, c, input_value)
                (Undisturbed-trans path m released _ (discarded-Undisturbed path other m n)
                  (deliver-Undisturbed other value report_id handle released n))
          | inr c ↦ rw (h, c, input_value) (Undisturbed-refl path m)
        ]
      ]

  hid_value-Undisturbed :
      (other : Text) (value : Bytes) (m : Manager)
      → other ≢ path
      → Undisturbed path m (hid_value tables other value m).0
  unfolding hid_value publish_voice_packet
  hid_value-Undisturbed other value m n = elim (Option-cases (report_metadata other m)) [
    | inl e ↦ rw (e, hid_value) (Undisturbed-refl path m)
    | inr ((report_id, handle), e) ↦
        elim (Bool-cases
          (report_id == voice_report_id && (supports_voice m && is_supported_opus_packet value))) [
            | inl h ↦
                rw (e, h, hid_value)
                  (Routing-Undisturbed path m _ (refl, refl, refl, refl, refl, refl))
            | inr h ↦
                rw (e, h, hid_value) (input_value-Undisturbed other value report_id handle m n)
          ]
  ]

  route_value-Leaves :
      (other : Text) (value : Bytes) (m : Manager)
      → other ≢ path
      → Leaves path m (route_value tables other value m)
  unfolding route_value
  route_value-Leaves other value m n = elim (Option-cases (get m.atvv_paths other)) [
    | inl e ↦ rw (e, route_value) (hid_value-Undisturbed other value m n)
    | inr (kind, e) ↦ rw (e, route_value) (atvv_value-Leaves path kind value m)
  ]

  -- A value on another path leaves the routing of `path`, its pressed state and its held usages.
  pub value_changed-Leaves :
      (other : Text) (value : Bytes) (m : Manager)
      → other ≢ path
      → Leaves path m (value_changed tables other value m)
  unfolding value_changed
  value_changed-Leaves other value m n = elim (Bool-cases (contains m.ignored_value_paths other)) [
    | inl i ↦ rw (i, value_changed) (Undisturbed-refl path m)
    | inr i ↦ elim (Option-cases (get m.initial_cached_values_by_path other)) [
      | inl e ↦ rw (i, e, value_changed) (route_value-Leaves other value m n)
      | inr (initial, e) ↦ elim (Bool-cases (value == initial)) [
        | inl s ↦ rw (i, e, s, value_changed) (forget_cached-Undisturbed path other m)
        | inr s ↦
            rw (i, e, s, value_changed)
              (Leaves-after path m (forget_cached other m) _
                (forget_cached-Undisturbed path other m)
                (route_value-Leaves other value (forget_cached other m) n))
      ]
    ]
  ]
