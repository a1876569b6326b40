-- ===== src/Manager/Releases/Press.antt =====
-- A key press and its release, whatever other paths send in between.
use mathlib.Core.Path.{subst}
use home_assistant_bluetooth.Prelude.{
  ℕ, ◌≡◌, ◌≢◌, refl, ◌∙◌, true, false, List, [], ◌∷◌, nat_eq, text_eq, arith, Text, ok, All,
  List-cases, inl, inr, text_beq_iff, >>=-eq-ok,
}
use home_assistant_bluetooth.Prelude.Bytes.{Bytes}
use home_assistant_bluetooth.Prelude.Dict.{
  get_or, put, pop, contains, add, discard, get-put, get-pop, contains-add, contains-discard,
}
use home_assistant_bluetooth.Prelude.Int.{ℤ}
use home_assistant_bluetooth.Hid.Types.{HidUsage, UsageTables}
use home_assistant_bluetooth.Manager.Paths.{any}
use home_assistant_bluetooth.Manager.State.{Manager, HidInputReport, Effect}
use home_assistant_bluetooth.Manager.Button.{publish_report}
use home_assistant_bluetooth.Manager.Values.{
  report_metadata, decoded_usages, deliver, input_value, hid_value, route_value, value_changed,
  make_report,
}
use home_assistant_bluetooth.Manager.Invariant.Reports.{decoded_usages-zeros}
use home_assistant_bluetooth.Manager.Undisturbed.{Undisturbed}
use home_assistant_bluetooth.Manager.Undisturbed.Atvv.{Routing-Undisturbed, publish_report-Routing}
use home_assistant_bluetooth.Manager.Undisturbed.Values.{value_changed-Leaves}
use home_assistant_bluetooth.Manager.Releases.{
  reports, reports-publish_report, Routed, Routed-moved, run,
}

module _ (tables : UsageTables) where
  module _ (path : Text) (report_id : ℕ) (handle : ℤ) where
    value_changed-Routed :
        (value : Bytes) (m : Manager)
        → Routed path report_id handle m
        → value_changed tables path value m ≡ ok (input_value tables path value report_id handle m)
    unfolding value_changed route_value hid_value
    value_changed-Routed value m r = rw (
      r.unignored, r.uncached, r.plain, r.mapped, r.spoken, value_changed, route_value, hid_value,
    )

    -- What a press leaves behind.
    record Pressed (usages : List HidUsage) (m : Manager) : Type 0 where
      routed : Routed path report_id handle m
      held : contains m.active_report_paths path ≡ true
      kept : get_or m.active_usages_by_path path [] ≡ usages

    Pressed-moved :
        (usages : List HidUsage) (m m' : Manager)
        → Undisturbed path m m'
        → Pressed usages m
        → Pressed usages m'
    unfolding get_or
    Pressed-moved usages m m' u p = record {
      routed = Routed-moved path report_id handle m m' u p.routed;
      held = u.active ∙ p.held;
      kept = rw (u.usages, get_or) p.kept;
    }

    sent-Pressed :
        (usages : List HidUsage) (r : HidInputReport) (m : Manager)
        → Pressed usages m
        → Pressed usages (publish_report r m).0
    sent-Pressed usages r m p =
        Pressed-moved usages m (publish_report r m).0
          (Routing-Undisturbed path m (publish_report r m).0 (publish_report-Routing r m)) p

    input_value-Pressed :
        (press : Bytes) (m : Manager)
        → any press ≡ true
        → Routed path report_id handle m
        → Pressed
            (decoded_usages tables report_id press m)
            (input_value tables path press report_id handle m).0
    unfolding input_value deliver get_or report_metadata
    input_value-Pressed press m h r =
        let m' = record m { active_report_paths = add m.active_report_paths path } in
        let decoded_same : decoded_usages tables report_id press m'
            ≡ decoded_usages tables report_id press m =
          unfold decoded_usages in refl in
        elim (List-cases (decoded_usages tables report_id press m')) [
          | inl e ↦
              rw (h, input_value, e, deliver, h)
                (sent-Pressed _ (make_report report_id handle press [])
                  (record m' { active_usages_by_path = pop m'.active_usages_by_path path })
                  record {
                    routed = record {
                      unignored = r.unignored;
                      uncached = r.uncached;
                      plain = r.plain;
                      mapped = r.mapped;
                      spoken = r.spoken;
                    };
                    held = ground (
                      arith,
                      contains-add m.active_report_paths path path,
                      text_beq_iff path path,
                    );
                    kept = ground (
                      arith,
                      decoded_same,
                      get-pop m.active_usages_by_path path path,
                      text_beq_iff path path,
                    );
                  })
          | inr (u, us, e) ↦
              rw (h, input_value, e, deliver)
                (sent-Pressed _ (make_report report_id handle press (u ∷ us))
                  (record m' { active_usages_by_path = put m'.active_usages_by_path path (u ∷ us) })
                  record {
                    routed = record {
                      unignored = r.unignored;
                      uncached = r.uncached;
                      plain = r.plain;
                      mapped = r.mapped;
                      spoken = r.spoken;
                    };
                    held = ground (
                      arith,
                      contains-add m.active_report_paths path path,
                      text_beq_iff path path,
                    );
                    kept = ground (
                      arith,
                      decoded_same,
                      get-put m.active_usages_by_path path path (u ∷ us),
                      text_beq_iff path path,
                    );
                  })
        ]

    release_of : Bytes → List HidUsage → Manager → Manager × List Effect
    release_of release usages m =
        publish_report (make_report report_id handle release usages) (record m {
          active_report_paths = discard m.active_report_paths path;
          active_usages_by_path = pop m.active_usages_by_path path;
        })

    value_changed-release :
        (usages : List HidUsage) (release : Bytes) (m : Manager)
        → any release ≡ false
        → Pressed usages m
        → value_changed tables path release m ≡ ok (release_of release usages m)
    unfolding input_value deliver release_of
    value_changed-release usages release m z p =
        let m' = record m { active_report_paths = discard m.active_report_paths path } in
        rw
          (
            value_changed-Routed release m p.routed,
            z,
            p.held,
            input_value,
            decoded_usages-zeros tables report_id release m' z,
            deliver,
            z,
            p.kept,
          )
          refl

    value_changed-idle :
        (release : Bytes) (m : Manager)
        → any release ≡ false
        → contains m.active_report_paths path ≡ false
        → Routed path report_id handle m
        → value_changed tables path release m ≡ ok (m, [])
    unfolding input_value
    value_changed-idle release m z c r =
        rw (value_changed-Routed release m r, z, c, input_value) refl

    release-idle :
        (usages : List HidUsage) (release : Bytes) (m : Manager)
        → any release ≡ false
        → Pressed usages m
        → value_changed tables path release (release_of release usages m).0
          ≡ ok ((release_of release usages m).0, [])
    unfolding release_of report_metadata
    release-idle usages release m z p =
        let m' = record m {
          active_report_paths = discard m.active_report_paths path;
          active_usages_by_path = pop m.active_usages_by_path path;
        } in
        let sent = make_report report_id handle release usages in
        let r = p.routed in
        let u =
          Routing-Undisturbed path m' (publish_report sent m').0 (publish_report-Routing sent m') in
        value_changed-idle release (publish_report sent m').0 z
          (ground (
            arith,
            u.active,
            contains-discard m.active_report_paths path path,
            text_beq_iff path path,
          ))
          (Routed-moved path report_id handle m' (publish_report sent m').0 u record {
            unignored = r.unignored;
            uncached = r.uncached;
            plain = r.plain;
            mapped = r.mapped;
            spoken = r.spoken;
          })

    run-Pressed :
        (usages : List HidUsage) (between : List (Text × Bytes)) (m m' : Manager)
        (effects : List Effect)
        → All (λ e. e.0 ≢ path) between
        → run tables between m ≡ ok (m', effects)
        → Pressed usages m
        → Pressed usages m'
    unfolding run
    run-Pressed usages [] m m' effects a e p =
        let same : m ≡ m' = ground arith in subst (λ x. Pressed usages x) same p
    run-Pressed usages ((other, value) ∷ between) m m' effects a e p =
        let ((m1, es), e1, rest) = >>=-eq-ok (value_changed tables other value m) _ e in
        let ((m2, es2), e2, last) = >>=-eq-ok (run tables between m1) _ rest in
        let same : m2 ≡ m' = ground arith in
        run-Pressed usages between m1 m' es2 a.1
          (subst (λ x. run tables between m1 ≡ ok (x, es2)) same e2)
          (Pressed-moved usages m m1 (rw e1 at (value_changed-Leaves tables path other value m a.0))
            p)

    -- Take a path that is not ignored, has no cached value and no ATVV kind, and whose report number is
    -- not that of the voice report. After a press on it and any values on other paths, all handled
    -- without an exception, an all-zero value on it gives the listeners exactly one report, with the
    -- usages that the press decoded to; the path is then idle, so the same value once more reaches
    -- nobody and changes nothing.
    pub press-release :
        (press release : Bytes) (between : List (Text × Bytes)) (m m' : Manager)
        (effects : List Effect)
        → Routed path report_id handle m
        → any press ≡ true
        → any release ≡ false
        → All (λ e. e.0 ≢ path) between
        → run tables ((path, press) ∷ between) m ≡ ok (m', effects)
        → (m'' : Manager) × (released : List Effect) × (value_changed tables path release m'
            ≡ ok (m'', released))
          × (reports released
              ≡ make_report report_id handle release (decoded_usages tables report_id press m) ∷ [])
          × (value_changed tables path release m'' ≡ ok (m'', []))
    unfolding run
    press-release press release between m m' effects r h z a e =
        let pressed = (input_value tables path press report_id handle m).0 in
        let usages = decoded_usages tables report_id press m in
        let e' = rw (value_changed-Routed press m r) at e in
        let ((m1, es), e1, last) = >>=-eq-ok (run tables between pressed) _ e' in
        let same : m1 ≡ m' = ground arith in
        let p : Pressed usages m' =
          run-Pressed usages between pressed m' es a
            (subst (λ x. run tables between pressed ≡ ok (x, es)) same e1)
            (input_value-Pressed press m h r) in
        (
          (release_of release usages m').0,
          (release_of release usages m').1,
          value_changed-release usages release m' z p,
          unfold release_of in reports-publish_report _ _,
          release-idle usages release m' z p,
        )
