-- ===== src/Satellite/Runs.antt =====
-- Every run of the satellite's callbacks keeps it valid.
use home_assistant_bluetooth.Prelude.{
  ℕ, ◌≡◌, refl, inl, inr, Bool, true, Option, none, some, List, [], ◌∷◌, nat_eq, arith, Bool-cases,
}
use home_assistant_bluetooth.Prelude.Dict.{contains, discard}
use home_assistant_bluetooth.Satellite.{
  Buffer, Satellite, new_satellite, end_task, Event, report, voice, timer, ended, handle,
  handle_all,
}
use home_assistant_bluetooth.Satellite.Invariant.{
  IsValid, Recording, Single, finish_recording-IsValid, receive_report-IsValid,
  receive_voice_packet-IsValid,
}

discard-Single :
    (t : ℕ) (running : List ℕ) (known : Option ℕ)
    → Single running known
    → contains running t ≡ true
    → discard running t ≡ []
unfolding contains discard
discard-Single t [] known h c = ground arith
discard-Single t (u ∷ []) known h c = ground arith
discard-Single t (u ∷ w ∷ ts) known h c = absurd h

ended-Recording :
    (b : Option Buffer) (armed : Bool) (running rest : List ℕ)
    → rest ≡ []
    → Recording b armed running
    → Recording b armed rest
ended-Recording none armed running rest e r = r
ended-Recording (some b) armed running rest e r = (r.0, r.1, e)

end_task-IsValid :
    (t : ℕ) (raised : Bool) (s : Satellite)
    → contains s.running t ≡ true
    → IsValid s
    → IsValid (end_task t raised s)
unfolding end_task
end_task-IsValid t raised s c v =
    let rest : discard s.running t ≡ [] = discard-Single t s.running s.processing_task v.single c in
    record {
      recording =
          ended-Recording s.voice_buffer s.voice_timeout s.running (discard s.running t) rest
            v.recording;
      single = rw rest tt;
    }

handle-IsValid : (e : Event) (s : Satellite) → IsValid s → IsValid (handle e s)
unfolding handle
handle-IsValid (report r) s v = receive_report-IsValid r s v
handle-IsValid (voice packet) s v = receive_voice_packet-IsValid packet s v
handle-IsValid timer s v = elim (Bool-cases s.voice_timeout) [
  | inl e ↦ simp (e, handle) (finish_recording-IsValid s v)
  | inr e ↦ simp (e, handle) v
]
handle-IsValid (ended t raised) s v = elim (Bool-cases (contains s.running t)) [
  | inl e ↦ simp (e, handle) (end_task-IsValid t raised s e v)
  | inr e ↦ simp (e, handle) v
]

new-IsValid : IsValid new_satellite
new-IsValid = record { recording = refl; single = tt }

handle_all-IsValid : (es : List Event) (s : Satellite) → IsValid s → IsValid (handle_all es s)
unfolding handle_all
handle_all-IsValid [] s v = v
handle_all-IsValid (e ∷ es) s v = handle_all-IsValid es (handle e s) (handle-IsValid e s v)

-- However reports, voice packets, the timer and the ends of processing tasks follow one another on a new
-- satellite: at most one processing task runs, and it is the one that the satellite knows; while
-- something is recorded no task runs, the timer is armed and the buffer is within its limits; and while
-- nothing is recorded the timer is not armed.
pub handle_all-new-IsValid : (es : List Event) → IsValid (handle_all es new_satellite)
handle_all-new-IsValid es = handle_all-IsValid es new_satellite new-IsValid
