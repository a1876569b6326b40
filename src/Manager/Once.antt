-- ===== src/Manager/Once.antt =====
-- The value that BlueZ had cached before the subscription is looked at for one value only.
use home_assistant_bluetooth.Prelude.{
  ℕ, ◌≡◌, ◌∙◌, sym, refl, ap, true, false, none, some, List, [], ◌∷◌, ◌==◌, ◌&&◌, nat_eq, text_eq,
  arith, Text, ok, err, Bool-cases, Option-cases, List-cases, inl, inr, text_beq_iff,
}
use mathlib.Core.Path.{subst}
use home_assistant_bluetooth.Prelude.Bytes.{Bytes}
use home_assistant_bluetooth.Prelude.Int.{ℤ}
use home_assistant_bluetooth.Prelude.Dict.{get, contains, get-pop}
use home_assistant_bluetooth.Hid.Types.{UsageTables}
use home_assistant_bluetooth.Voice.Types.{voice_report_id}
use home_assistant_bluetooth.Voice.Ogg.{is_supported_opus_packet}
use home_assistant_bluetooth.Manager.Paths.{any}
use home_assistant_bluetooth.Manager.State.{
  Manager, Effect, HidInputReport, publish_voice_packet, supports_voice,
}
use home_assistant_bluetooth.Manager.Button.{publish_report}
use home_assistant_bluetooth.Manager.Values.{
  Outcome, report_metadata, forget_cached, decoded_usages, deliver, input_value, hid_value,
  route_value, value_changed,
}
use home_assistant_bluetooth.Manager.Undisturbed.Atvv.{
  Routing, RoutingOf, publish_report-Routing, atvv_value-Routing,
}

-- The ignored paths and the cached values stay.
abbrev Keeps : Manager → Manager → Type 0
Keeps m m' =
    (m'.ignored_value_paths ≡ m.ignored_value_paths)
    × (m'.initial_cached_values_by_path ≡ m.initial_cached_values_by_path)

abbrev KeepsOf : Manager → Outcome → Type 0
KeepsOf m (ok (m', effects)) = Keeps m m'
KeepsOf m (err e) = Unit

Routing-Keeps : (m m' : Manager) → Routing m m' → Keeps m m'
Routing-Keeps m m' (i, k, r, c, a, u) = (i, c)

RoutingOf-Keeps : (m : Manager) (o : Outcome) → RoutingOf m o → KeepsOf m o
RoutingOf-Keeps m (ok (m', effects)) r = Routing-Keeps m m' r
RoutingOf-Keeps m (err e) r = tt

sent-Keeps : (m m' : Manager) (r : HidInputReport) → Keeps m m' → Keeps m (publish_report r m').0
sent-Keeps m m' r k =
    let s = Routing-Keeps m' (publish_report r m').0 (publish_report-Routing r m') in
    (s.0 ∙ k.0, s.1 ∙ k.1)

module _ (tables : UsageTables) where
  deliver-Keeps :
      (path : Text) (value : Bytes) (report_id : ℕ) (handle : ℤ) (m m' : Manager)
      → Keeps m m'
      → Keeps m (deliver tables path value report_id handle m').0
  unfolding deliver
  deliver-Keeps path value report_id handle m m' k =
      elim (List-cases (decoded_usages tables report_id value m')) [
        | inl e ↦ elim (Bool-cases (any value)) [
          | inl h ↦ rw (e, h, deliver) (sent-Keeps m _ _ k)
          | inr h ↦ rw (e, h, deliver) (sent-Keeps m _ _ k)
        ]
        | inr (u, us, e) ↦ rw (e, deliver) (sent-Keeps m _ _ k)
      ]

  input_value-Keeps :
      (path : Text) (value : Bytes) (report_id : ℕ) (handle : ℤ) (m : Manager)
      → Keeps m (input_value tables path value report_id handle m).0
  unfolding input_value
  input_value-Keeps path value report_id handle m = elim (Bool-cases (any value)) [
    | inl h ↦ rw (h, input_value) (deliver-Keeps path value report_id handle m _ (refl, refl))
    | inr h ↦ elim (Bool-cases (contains m.active_report_paths path)) [
      | inl c ↦ rw (h, c, input_value) (deliver-Keeps path value report_id handle m _ (refl, refl))
      | inr c ↦ rw (h, c, input_value) (refl, refl)
    ]
  ]

  hid_value-Keeps :
      (path : Text) (value : Bytes) (m : Manager) → Keeps m (hid_value tables path value m).0
  unfolding hid_value publish_voice_packet
  hid_value-Keeps path value m = elim (Option-cases (report_metadata path m)) [
    | inl e ↦ rw (e, hid_value) (refl, refl)
    | inr ((report_id, handle), e) ↦
        elim (Bool-cases
          (report_id == voice_report_id && (supports_voice m && is_supported_opus_packet value))) [
            | inl h ↦ rw (e, h, hid_value) (refl, refl)
            | inr h ↦ rw (e, h, hid_value) (input_value-Keeps path value report_id handle m)
          ]
  ]

  route_value-Keeps :
      (path : Text) (value : Bytes) (m : Manager) → KeepsOf m (route_value tables path value m)
  unfolding route_value
  route_value-Keeps path value m = elim (Option-cases (get m.atvv_paths path)) [
    | inl e ↦ rw (e, route_value) (hid_value-Keeps path value m)
    | inr (kind, e) ↦ rw (e, route_value) (RoutingOf-Keeps m _ (atvv_value-Routing kind value m))
  ]

abbrev manager_or : Manager → Outcome → Manager
manager_or m (ok (m', effects)) = m'
manager_or m (err e) = m

abbrev effects_or : List Effect → Outcome → List Effect
effects_or effects (ok (m', es)) = es
effects_or effects (err e) = effects

-- The path is not ignored, and no cached value is left for it.
abbrev Settled : Text → Manager → Type 0
Settled path m =
    (contains m.ignored_value_paths path ≡ false)
    × (get m.initial_cached_values_by_path path ≡ none)

abbrev Settles : Text → Outcome → Type 0
Settles path (ok (m, effects)) = Settled path m
Settles path (err e) = Unit

kept-Settles :
    (path : Text) (m : Manager) (o : Outcome) → Settled path m → KeepsOf m o → Settles path o
kept-Settles path m (ok (m', effects)) (i, c) (j, d) =
    (ap (λ s. contains s path) j ∙ i, ap (λ s. get s path) d ∙ c)
kept-Settles path m (err e) s k = tt

forget_cached-Settled :
    (path other : Text) (m : Manager) → Settled path m → Settled path (forget_cached other m)
unfolding forget_cached
forget_cached-Settled path other m (i, c) =
    (i, ground (arith, get-pop m.initial_cached_values_by_path other path, c))

forgotten-Settled :
    (path : Text) (m : Manager)
    → contains m.ignored_value_paths path ≡ false
    → Settled path (forget_cached path m)
unfolding forget_cached
forgotten-Settled path m i =
    (i, ground (arith, get-pop m.initial_cached_values_by_path path path, text_beq_iff path path))

module _ (tables : UsageTables) where
  routed-Settles :
      (path other : Text) (value : Bytes) (m : Manager)
      → Settled path m
      → Settles path (route_value tables other value m)
  routed-Settles path other value m s =
      kept-Settles path m (route_value tables other value m) s
        (route_value-Keeps tables other value m)

  first-Settles :
      (path : Text) (value : Bytes) (m : Manager)
      → contains m.ignored_value_paths path ≡ false
      → Settles path (value_changed tables path value m)
  unfolding value_changed
  first-Settles path value m i = elim (Option-cases (get m.initial_cached_values_by_path path)) [
    | inl e ↦ rw (i, e, value_changed) (routed-Settles path path value m (i, e))
    | inr (initial, e) ↦ elim (Bool-cases (value == initial)) [
      | inl s ↦ rw (i, e, s, value_changed) (forgotten-Settled path m i)
      | inr s ↦
          rw (i, e, s, value_changed)
            (routed-Settles path path value (forget_cached path m) (forgotten-Settled path m i))
    ]
  ]

  later-Settles :
      (path other : Text) (value : Bytes) (m : Manager)
      → Settled path m
      → Settles path (value_changed tables other value m)
  unfolding value_changed
  later-Settles path other value m k = elim (Bool-cases (contains m.ignored_value_paths other)) [
    | inl i ↦ rw (i, value_changed) k
    | inr i ↦ elim (Option-cases (get m.initial_cached_values_by_path other)) [
      | inl e ↦ rw (i, e, value_changed) (routed-Settles path other value m k)
      | inr (initial, e) ↦ elim (Bool-cases (value == initial)) [
        | inl s ↦ rw (i, e, s, value_changed) (forget_cached-Settled path other m k)
        | inr s ↦
            rw (i, e, s, value_changed)
              (routed-Settles path other value (forget_cached other m)
                (forget_cached-Settled path other m k))
      ]
    ]
  ]

  -- The callbacks for the values, in this order, lead from one state of the manager to the other.
  abbrev pub Passes : List (Text × Bytes) → Manager → Manager → Type 0
  Passes [] m m' = m ≡ m'
  Passes ((path, value) ∷ values) m m' =
      (next : Manager) × (effects : List Effect) × (value_changed tables path value m
        ≡ ok (next, effects))
      × Passes values next m'

  Passes-Settled :
      (path : Text) (values : List (Text × Bytes)) (m m' : Manager)
      → Settled path m
      → Passes values m m'
      → Settled path m'
  Passes-Settled path [] m m' s p = subst (Settled path) p s
  Passes-Settled path ((other, value) ∷ values) m m' s (next, effects, e, p) =
      Passes-Settled path values next m'
        (subst (Settles path) e (later-Settles path other value m s)) p

  Settled-routes :
      (path : Text) (value : Bytes) (m : Manager)
      → Settled path m
      → value_changed tables path value m ≡ route_value tables path value m
  unfolding value_changed
  Settled-routes path value m (i, c) = rw (i, c, value_changed) refl

  pub value_changed-once :
      (path : Text) (first later : Bytes) (m m' m'' : Manager) (effects : List Effect)
      (between : List (Text × Bytes))
      → contains m.ignored_value_paths path ≡ false
      → value_changed tables path first m ≡ ok (m', effects)
      → Passes between m' m''
      → (value_changed tables path later m'' ≡ route_value tables path later m'')
        × (get m.initial_cached_values_by_path path ≡ some first
            → (m' ≡ forget_cached path m) × (effects ≡ []))
  unfolding value_changed
  value_changed-once path first later m m' m'' effects between i e p =
      let settled : Settled path m' = subst (Settles path) e (first-Settles path first m i) in
      (
        Settled-routes path later m'' (Passes-Settled path between m' m'' settled p),
        λ c.
            let same : text_eq.beq first first ≡ true = (text_beq_iff first first).1 refl in
            let dropped : ok (forget_cached path m, []) ≡ ok (m', effects) =
              rw (i, c, same, value_changed) at e in
            (sym (ap (manager_or m') dropped), sym (ap (effects_or effects) dropped)),
      )
