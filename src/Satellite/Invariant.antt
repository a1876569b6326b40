-- ===== src/Satellite/Invariant.antt =====
-- At most one processing task runs, and nothing is recorded while it does.
use home_assistant_bluetooth.Prelude.{
  ℕ, ◌≡◌, refl, inl, inr, Bool, true, false, Option, none, some, List, [], ◌∷◌, nat_eq, arith,
  Bool-cases, Option-cases, Result-cases,
}
use mathlib.Core.Path.{subst}
use mathlib.Core.Bool.{false≢true}
use home_assistant_bluetooth.Prelude.Dict.{contains}
use home_assistant_bluetooth.Voice.Types.{VoicePacket, hid, pcm}
use home_assistant_bluetooth.Voice.Buffers.{append_opus, append_pcm, join}
use home_assistant_bluetooth.Voice.Buffers.Bounds.{
  IsBounded, append_opus-IsBounded, IsCounted, append_pcm-IsCounted,
}
use home_assistant_bluetooth.Manager.Paths.{any}
use home_assistant_bluetooth.Manager.State.{HidInputReport}
use home_assistant_bluetooth.Manager.Button.{has_search}
use home_assistant_bluetooth.Satellite.{
  Buffer, opus, samples, Satellite, is_processing, buffer_or_opus, start_recording, is_empty,
  create_task, close, finish_recording, receive_report, new_buffer, append_packet, collect,
  receive_voice_packet,
}

abbrev pub IsWithin : Buffer → Type 0
IsWithin (opus b) = IsBounded b
IsWithin (samples b) = IsCounted b

-- A buffer that is recorded to: it is within its limits, its timer is armed, and no task runs.
abbrev pub Recording : Option Buffer → Bool → List ℕ → Type 0
Recording none armed running = armed ≡ false
Recording (some b) armed running = IsWithin b × (armed ≡ true) × (running ≡ [])

-- No task runs, or only the one that the satellite knows.
abbrev pub Single : List ℕ → Option ℕ → Type 0
Single [] known = Unit
Single (t ∷ []) known = known ≡ some t
Single (t ∷ u ∷ ts) known = ⊥

pub record IsValid (s : Satellite) : Type 0 where
  pub recording : Recording s.voice_buffer s.voice_timeout s.running
  pub single : Single s.running s.processing_task

idle-running : (s : Satellite) → IsValid s → is_processing s ≡ false → s.running ≡ []
unfolding is_processing contains
idle-running s v e = go s.running s.processing_task v.single e
  where
    go :
        (running : List ℕ) (known : Option ℕ)
        → Single running known
        → elim known [ none ↦ false | some t ↦ contains running t ] ≡ false
        → running ≡ []
    go [] known h e = refl
    go (t ∷ []) known h e = absurd (false≢true (ground (arith, h, e)))
    go (t ∷ u ∷ ts) known h e = absurd h

start_recording-IsValid :
    (buffer : Option Buffer) (s : Satellite)
    → IsWithin (buffer_or_opus buffer)
    → IsValid s
    → IsValid (start_recording buffer s)
unfolding start_recording
start_recording-IsValid buffer s w v = elim (Option-cases s.voice_buffer) [
  | inr (b, e) ↦ simp (e, start_recording) v
  | inl e ↦ elim (Bool-cases (is_processing s)) [
    | inl p ↦ simp (e, p, start_recording) v
    | inr p ↦
        simp (e, p, start_recording)
          record { recording = (w, refl, idle-running s v p); single = v.single }
  ]
]

-- What is closed: the buffer is gone, and its task is the only one.
Closable : Option Buffer → List ℕ → Type 0
Closable none running = Unit
Closable (some b) running = running ≡ []

closable :
    (b : Option Buffer) (armed : Bool) (running : List ℕ)
    → Recording b armed running
    → Closable b running
unfolding Closable
closable none armed running r = tt
closable (some b) armed running r = r.2

record IsClosed (s : Satellite) : Type 0 where
  gone : s.voice_buffer ≡ none
  disarmed : s.voice_timeout ≡ false
  single : Single s.running s.processing_task

closed-IsValid : (s : Satellite) → IsClosed s → IsValid s
closed-IsValid s c = record { recording = go s.voice_buffer c.gone; single = c.single }
  where
    go : (b : Option Buffer) → b ≡ none → Recording b s.voice_timeout s.running
    go none e = c.disarmed
    go (some b) e = cc

create_task-IsClosed :
    (b : Buffer) (s : Satellite) → IsClosed s → s.running ≡ [] → IsClosed (create_task b s)
unfolding create_task
create_task-IsClosed b s c e = record { gone = c.gone; disarmed = c.disarmed; single = rw e refl }

close-IsClosed :
    (b : Option Buffer) (s : Satellite) → IsClosed s → Closable b s.running → IsClosed (close b s)
unfolding close Closable
close-IsClosed none s c h = record { gone = c.gone; disarmed = c.disarmed; single = c.single }
close-IsClosed (some b) s c h = elim (Bool-cases (is_empty b)) [
  | inl e ↦ simp (e, close) record { gone = c.gone; disarmed = c.disarmed; single = c.single }
  | inr e ↦ simp (e, close) (create_task-IsClosed b s c h)
]

pub finish_recording-IsValid : (s : Satellite) → IsValid s → IsValid (finish_recording s)
unfolding finish_recording
finish_recording-IsValid s v = closed-IsValid _ (
    close-IsClosed s.voice_buffer _ record { gone = refl; disarmed = refl; single = v.single }
      (closable s.voice_buffer s.voice_timeout s.running v.recording))

pub receive_report-IsValid :
    (r : HidInputReport) (s : Satellite) → IsValid s → IsValid (receive_report r s)
unfolding receive_report
receive_report-IsValid r s v = elim (Bool-cases (has_search r.usages)) [
  | inr e ↦ simp (e, receive_report) v
  | inl e ↦ elim (Bool-cases (any r.payload)) [
    | inl p ↦
        simp (e, p, receive_report)
          (start_recording-IsValid none s record { within = omega arith; supported = refl } v)
    | inr p ↦ simp (e, p, receive_report) (finish_recording-IsValid s v)
  ]
]

append_packet-IsWithin :
    (packet : VoicePacket) (b b' : Buffer)
    → IsWithin b
    → append_packet packet b ≡ some b'
    → IsWithin b'
unfolding append_packet
append_packet-IsWithin (hid packet) (opus b) b' w e =
    elim (Result-cases (append_opus packet.payload b)) [
      | inl (c, f) ↦
          let same : opus c ≡ b' = ground arith in
          subst IsWithin same (append_opus-IsBounded packet.payload b c w f).0
      | inr (x, f) ↦ ground arith
    ]
append_packet-IsWithin (pcm packet) (samples b) b' w e = elim (Result-cases (append_pcm packet b)) [
  | inl (c, f) ↦
      let same : samples c ≡ b' = ground arith in
      subst IsWithin same (append_pcm-IsCounted packet b c w f)
  | inr (x, f) ↦ ground arith
]
append_packet-IsWithin (hid packet) (samples b) b' w e = cc
append_packet-IsWithin (pcm packet) (opus b) b' w e = cc

collect-IsValid : (packet : VoicePacket) (s : Satellite) → IsValid s → IsValid (collect packet s)
unfolding collect
collect-IsValid packet s v = elim (Option-cases s.voice_buffer) [
  | inl e ↦ simp (e, collect) v
  | inr (b, e) ↦ elim (Option-cases (append_packet packet b)) [
    | inl a ↦ simp (e, a, collect) (finish_recording-IsValid s v)
    | inr (b', a) ↦
        let r : Recording (some b) s.voice_timeout s.running =
          subst (λ x. Recording x s.voice_timeout s.running) e v.recording in
        simp (e, a, collect)
          record {
            recording = (append_packet-IsWithin packet b b' r.0 a, r.1, r.2);
            single = v.single;
          }
  ]
]

new_buffer-IsWithin : (packet : VoicePacket) → IsWithin (new_buffer packet)
new_buffer-IsWithin (hid packet) = record { within = omega arith; supported = refl }
new_buffer-IsWithin (pcm packet) =
    unfold join in record { count = refl; within = omega arith; even = refl }

pub receive_voice_packet-IsValid :
    (packet : Option VoicePacket) (s : Satellite)
    → IsValid s
    → IsValid (receive_voice_packet packet s)
unfolding receive_voice_packet
receive_voice_packet-IsValid none s v = finish_recording-IsValid s v
receive_voice_packet-IsValid (some packet) s v = elim (Option-cases s.voice_buffer) [
  | inl e ↦
      simp (e, receive_voice_packet)
        (collect-IsValid packet _
          (start_recording-IsValid (some (new_buffer packet)) s (new_buffer-IsWithin packet) v))
  | inr (b, e) ↦ simp (e, receive_voice_packet) (collect-IsValid packet s v)
]
