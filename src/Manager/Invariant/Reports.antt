-- ===== src/Manager/Invariant/Reports.antt =====
-- The reports keep the manager's fields valid.
use home_assistant_bluetooth.Prelude.{
  ℕ, ◌≡◌, refl, true, false, [], ◌∷◌, ◌==◌, nat_eq, text_eq, arith, Text, All, Bool-cases,
  Option-cases, List-cases, inl, inr,
}
use home_assistant_bluetooth.Prelude.Bytes.{Bytes}
use home_assistant_bluetooth.Prelude.Dict.{
  get_or, put, pop, contains, add, discard, get-put, get-pop, contains-add, contains-discard,
}
use home_assistant_bluetooth.Prelude.Int.{ℤ}
use home_assistant_bluetooth.Hid.Types.{UsageTables}
use home_assistant_bluetooth.Hid.Decode.Zero.{decode-zeros}
use home_assistant_bluetooth.Manager.Paths.{any}
use home_assistant_bluetooth.Manager.State.{Manager, publish_voice_packet}
use home_assistant_bluetooth.Manager.Values.{
  report_metadata, decoded_usages, deliver, input_value, hid_value, make_report,
}
use home_assistant_bluetooth.Manager.Invariant.{IsValid, publish_report-IsValid}
use home_assistant_bluetooth.Manager.State.{supports_voice}
use home_assistant_bluetooth.Prelude.{◌&&◌}
use home_assistant_bluetooth.Voice.Ogg.{is_supported_opus_packet}
use home_assistant_bluetooth.Voice.Types.{voice_report_id}

pub any-zeros : (value : Bytes) → any value ≡ false → All (λ b. b ≡ 0) value
unfolding any
any-zeros [] h = tt
any-zeros (b ∷ bs) h = (ground arith, any-zeros bs (ground arith))

module _ (tables : UsageTables) where
  -- An all-zero value has no usages of its own.
  pub decoded_usages-zeros :
      (report_id : ℕ) (value : Bytes) (m : Manager)
      → any value ≡ false
      → decoded_usages tables report_id value m ≡ []
  unfolding decoded_usages
  decoded_usages-zeros report_id value m h = elim (Option-cases m.report_decoder) [
    | inl e ↦ rw e refl
    | inr (d, e) ↦ rw e (decode-zeros tables d report_id value (any-zeros value h))
  ]

  deliver-press :
      (path : Text) (value : Bytes) (report_id : ℕ) (handle : ℤ) (m : Manager)
      → any value ≡ true
      → IsValid m
      → IsValid
          (deliver tables path value report_id handle
            (record m { active_report_paths = add m.active_report_paths path })).0
  unfolding deliver
  deliver-press path value report_id handle m h v =
      let m' = record m { active_report_paths = add m.active_report_paths path } in
      elim (List-cases (decoded_usages tables report_id value m')) [
        | inl e ↦
            rw (e, h, deliver)
              (publish_report-IsValid (make_report report_id handle value [])
                (record m' { active_usages_by_path = pop m'.active_usages_by_path path })
                record {
                  decoding = v.decoding;
                  holding = λ p hp. ground (
                    arith,
                    get-pop m.active_usages_by_path path p,
                    contains-add m.active_report_paths path p,
                    v.holding p,
                  );
                })
        | inr (u, us, e) ↦
            rw (e, deliver)
              (publish_report-IsValid (make_report report_id handle value (u ∷ us))
                (record m' { active_usages_by_path = put m'.active_usages_by_path path (u ∷ us) })
                record {
                  decoding = v.decoding;
                  holding = λ p hp. ground (
                    arith,
                    get-put m.active_usages_by_path path p (u ∷ us),
                    contains-add m.active_report_paths path p,
                    v.holding p,
                  );
                })
      ]

  deliver-release :
      (path : Text) (value : Bytes) (report_id : ℕ) (handle : ℤ) (m : Manager)
      → any value ≡ false
      → IsValid m
      → IsValid
          (deliver tables path value report_id handle
            (record m { active_report_paths = discard m.active_report_paths path })).0
  unfolding deliver
  deliver-release path value report_id handle m h v =
      let m' = record m { active_report_paths = discard m.active_report_paths path } in
      rw (decoded_usages-zeros report_id value m' h, h, deliver)
        (publish_report-IsValid
          (make_report report_id handle value (get_or m.active_usages_by_path path []))
          (record m' { active_usages_by_path = pop m'.active_usages_by_path path })
          record {
            decoding = v.decoding;
            holding = λ p hp. ground (
              arith,
              get-pop m.active_usages_by_path path p,
              contains-discard m.active_report_paths path p,
              v.holding p,
            );
          })

  input_value-IsValid :
      (path : Text) (value : Bytes) (report_id : ℕ) (handle : ℤ) (m : Manager)
      → IsValid m
      → IsValid (input_value tables path value report_id handle m).0
  unfolding input_value
  input_value-IsValid path value report_id handle m v = elim (Bool-cases (any value)) [
    | inl h ↦ rw (h, input_value) (deliver-press path value report_id handle m h v)
    | inr h ↦ elim (Bool-cases (contains m.active_report_paths path)) [
      | inl c ↦ rw (h, c, input_value) (deliver-release path value report_id handle m h v)
      | inr c ↦ rw (h, c, input_value) v
    ]
  ]

  pub hid_value-IsValid :
      (path : Text) (value : Bytes) (m : Manager)
      → IsValid m
      → IsValid (hid_value tables path value m).0
  unfolding hid_value publish_voice_packet
  hid_value-IsValid path value m v = elim (Option-cases (report_metadata path m)) [
    | inl e ↦ rw (e, hid_value) v
    | inr ((report_id, handle), e) ↦
        elim (Bool-cases
          (report_id == voice_report_id && (supports_voice m && is_supported_opus_packet value))) [
            | inl h ↦ rw (e, h, hid_value) record { decoding = v.decoding; holding = v.holding }
            | inr h ↦ rw (e, h, hid_value) (input_value-IsValid path value report_id handle m v)
          ]
  ]
