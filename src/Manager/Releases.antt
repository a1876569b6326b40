-- ===== src/Manager/Releases.antt =====
-- What the listeners receive from a sequence of values.
pub mod Press
use mathlib.Core.Path.{subst}
use home_assistant_bluetooth.Prelude.{
  ℕ, ◌≡◌, ◌≢◌, ◌++◌, refl, ◌∙◌, true, false, none, some, List, [], ◌∷◌, ◌==◌, nat_eq, text_eq,
  arith, Text, ok, All, List-cases, inl, inr, text_beq_iff, ◌>>=◌, >>=-eq-ok,
}
use home_assistant_bluetooth.Prelude.Bytes.{Bytes}
use home_assistant_bluetooth.Prelude.Dict.{
  get, get_or, put, pop, contains, add, discard, get-put, get-pop, contains-add, contains-discard,
}
use home_assistant_bluetooth.Prelude.Int.{ℤ}
use home_assistant_bluetooth.Hid.Types.{HidUsage, UsageTables}
use home_assistant_bluetooth.Voice.Types.{voice_report_id}
use home_assistant_bluetooth.Manager.Paths.{any}
use home_assistant_bluetooth.Manager.State.{Manager, HidInputReport, Effect, report, voice, task}
use home_assistant_bluetooth.Manager.Button.{
  publish_report, handle_hid_voice_button, schedule_hid_voice_start,
}
use home_assistant_bluetooth.Manager.Values.{
  Outcome, report_metadata, decoded_usages, deliver, input_value, hid_value, route_value,
  value_changed, make_report,
}
use home_assistant_bluetooth.Manager.Invariant.Reports.{decoded_usages-zeros}
use home_assistant_bluetooth.Manager.Undisturbed.{Undisturbed}
use home_assistant_bluetooth.Manager.Undisturbed.Atvv.{Routing-Undisturbed, publish_report-Routing}
use home_assistant_bluetooth.Manager.Undisturbed.Values.{value_changed-Leaves}

-- The reports that the listeners receive.
abbrev pub reports : List Effect → List HidInputReport
reports [] = []
reports (report r ∷ effects) = r ∷ reports effects
reports (voice packet ∷ effects) = reports effects
reports (task t ∷ effects) = reports effects

pub reports-publish_report :
    (r : HidInputReport) (m : Manager) → reports (publish_report r m).1 ≡ r ∷ []
unfolding publish_report handle_hid_voice_button schedule_hid_voice_start
reports-publish_report r m = ground arith

-- A path whose values are input reports of a number other than the voice report's.
pub record Routed (path : Text) (report_id : ℕ) (handle : ℤ) (m : Manager) : Type 0 where
  pub unignored : contains m.ignored_value_paths path ≡ false
  pub uncached : get m.initial_cached_values_by_path path ≡ none
  pub plain : get m.atvv_paths path ≡ none
  pub mapped : report_metadata path m ≡ some (report_id, handle)
  pub spoken : (report_id == voice_report_id) ≡ false

pub Routed-moved :
    (path : Text) (report_id : ℕ) (handle : ℤ) (m m' : Manager)
    → Undisturbed path m m'
    → Routed path report_id handle m
    → Routed path report_id handle m'
unfolding report_metadata
Routed-moved path report_id handle m m' u r = record {
  unignored = rw u.ignored r.unignored;
  uncached = u.cached r.uncached;
  plain = rw u.kinds r.plain;
  mapped = rw u.metadata r.mapped;
  spoken = r.spoken;
}

module _ (tables : UsageTables) where
  -- The values in their order.
  unfoldable pub run : List (Text × Bytes) → Manager → Outcome
  run [] m = ok (m, [])
  run ((path, value) ∷ values) m =
      value_changed tables path value m >>= λ r. (run values r.0 >>= λ q. ok (q.0, r.1 ++ q.1))
