-- ===== src/Manager/Control.antt =====
-- The outcomes of an ATVV control value, to prove of all of them what is proved of each.
use home_assistant_bluetooth.Prelude.{
  ℕ, ◌&&◌, [], ◌∷◌, ◌==◌, nat_eq, ok, length, leb, Bool-cases, inl, inr, none,
}
use home_assistant_bluetooth.Prelude.Bytes.{Bytes}
use home_assistant_bluetooth.Prelude.Int.{ℤ}
use home_assistant_bluetooth.Voice.Types.{atvv_codec_adpcm_16k}
use home_assistant_bluetooth.Manager.State.{Manager, task, start_atvv_capture, publish_voice_packet}
use home_assistant_bluetooth.Manager.Values.{
  Outcome, cancel_atvv_capture, synchronize, capabilities, audio_start, audio_sync, control_value,
  signed_big16,
}

module _ (P : Outcome → Type 0) (m : Manager) where
  audio_sync_elim :
      (value : Bytes)
      → P (ok (m, []))
      → ((p : ℤ) (i : ℕ) → P (synchronize p i m))
      → P (audio_sync value m)
  unfolding audio_sync
  audio_sync_elim [] same sync = same
  audio_sync_elim (a ∷ []) same sync = same
  audio_sync_elim (a ∷ b ∷ []) same sync = same
  audio_sync_elim (a ∷ b ∷ c ∷ []) same sync = same
  audio_sync_elim (a ∷ b ∷ c ∷ d ∷ []) same sync = same
  audio_sync_elim (a ∷ b ∷ c ∷ d ∷ e ∷ []) same sync = same
  audio_sync_elim (codec ∷ b ∷ c ∷ high ∷ low ∷ step_index ∷ rest) same sync =
      elim (Bool-cases (codec == atvv_codec_adpcm_16k)) [
        | inl h ↦ rw h (sync (signed_big16 high low) step_index)
        | inr h ↦ rw h same
      ]

  pub control_value_elim :
      (value : Bytes)
      → P (ok (m, []))
      → P (ok (m, task start_atvv_capture ∷ []))
      → ((rest : Bytes) → P (ok (capabilities rest m, [])))
      → ((rest : Bytes) → P (ok (audio_start rest m, [])))
      → ((p : ℤ) (i : ℕ) → P (synchronize p i m))
      → P (ok (publish_voice_packet none (cancel_atvv_capture m)))
      → P (control_value value m)
  unfolding control_value
  control_value_elim [] same search caps start sync stop = same
  control_value_elim (op ∷ rest) same search caps start sync stop =
      elim (Bool-cases (op == 0x0B && leb 8 (length rest))) [
        | inl a ↦ rw a (caps rest)
        | inr a ↦ elim (Bool-cases (op == 0x08)) [
          | inl b ↦ rw (a, b) search
          | inr b ↦ elim (Bool-cases (op == 0x04 && leb 3 (length rest))) [
            | inl c ↦ rw (a, b, c) (start rest)
            | inr c ↦ elim (Bool-cases (op == 0x0A && leb 6 (length rest))) [
              | inl d ↦ rw (a, b, c, d) (audio_sync_elim rest same sync)
              | inr d ↦ elim (Bool-cases (op == 0x00)) [
                | inl e ↦ rw (a, b, c, d, e) stop
                | inr e ↦ rw (a, b, c, d, e) same
              ]
            ]
          ]
        ]
      ]
