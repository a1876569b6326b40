-- ===== src/Satellite/Utterance.antt =====
-- One utterance: a press of the search key, its voice packets, and the release.
use mathlib.Core.Path.{subst}
use mathlib.Core.List.{append-nil, append_assoc}
use home_assistant_bluetooth.Prelude.{
  ◌+◌, ◌≤◌, ◌<◌, ◌≡◌, refl, sym, ap, ◌∙◌, true, false, none, some, List, [], ◌∷◌, ◌++◌, ◌==◌,
  nat_eq, arith, length, length-append, all,
}
use home_assistant_bluetooth.Prelude.Bytes.{Bytes}
use home_assistant_bluetooth.Voice.Types.{hid, HidVoicePacket, max_voice_packets}
use home_assistant_bluetooth.Voice.Ogg.{is_supported_opus_packet}
use home_assistant_bluetooth.Voice.Buffers.{OpusVoiceBuffer, new_opus_buffer, append_opus}
use home_assistant_bluetooth.Manager.Paths.{any}
use home_assistant_bluetooth.Manager.State.{HidInputReport}
use home_assistant_bluetooth.Manager.Button.{has_search}
use home_assistant_bluetooth.Satellite.{
  opus, Satellite, listening, is_processing, start_recording, is_empty, create_task, close,
  finish_recording, receive_report, append_packet, collect, receive_voice_packet, Event, report,
  voice, handle, handle_all,
}

abbrev pub payloads : List HidVoicePacket → List Bytes
payloads [] = []
payloads (p ∷ ps) = p.payload ∷ payloads ps

abbrev pub voices : List HidVoicePacket → List Event
voices [] = []
voices (p ∷ ps) = voice (some (hid p)) ∷ voices ps

handle_all-append :
    (es fs : List Event) (s : Satellite) → handle_all (es ++ fs) s ≡ handle_all fs (handle_all es s)
unfolding handle_all
handle_all-append [] fs s = refl
handle_all-append (e ∷ es) fs s = handle_all-append es fs (handle e s)

abbrev with_buffer : OpusVoiceBuffer → Satellite → Satellite
with_buffer b s = record s { voice_buffer = some (opus b) }

same_buffer :
    (b : OpusVoiceBuffer) (s : Satellite) → s.voice_buffer ≡ some (opus b) → with_buffer b s ≡ s
same_buffer b s e = subst (λ x. record s { voice_buffer = x } ≡ s) e refl

append_supported :
    (packet : HidVoicePacket) (b : OpusVoiceBuffer)
    → is_supported_opus_packet packet.payload ≡ true
    → length b.packets < b.max_packets
    → append_packet (hid packet) (opus b)
      ≡ some (opus (record b { packets = b.packets ++ packet.payload ∷ [] }))
unfolding append_packet append_opus
append_supported packet b h l = ground arith

handle-voice :
    (packet : HidVoicePacket) (b : OpusVoiceBuffer) (s : Satellite)
    → s.voice_buffer ≡ some (opus b)
    → is_supported_opus_packet packet.payload ≡ true
    → length b.packets < b.max_packets
    → handle (voice (some (hid packet))) s
      ≡ with_buffer (record b { packets = b.packets ++ packet.payload ∷ [] }) s
unfolding handle receive_voice_packet collect
handle-voice packet b s e h l =
    simp (handle, receive_voice_packet, collect, e, append_supported packet b h l) refl

handle_all-voices :
    (ps : List HidVoicePacket) (b : OpusVoiceBuffer) (s : Satellite)
    → s.voice_buffer ≡ some (opus b)
    → all is_supported_opus_packet (payloads ps) ≡ true
    → length b.packets + length ps ≤ b.max_packets
    → handle_all (voices ps) s ≡ with_buffer (record b { packets = b.packets ++ payloads ps }) s
unfolding handle_all
handle_all-voices [] b s e h l = rw append-nil (sym (same_buffer b s e))
handle_all-voices (p ∷ ps) b s e h l =
    let next : OpusVoiceBuffer = record b { packets = b.packets ++ p.payload ∷ [] } in
    let step = handle-voice p b s e (ground arith) (omega (arith, l)) in
    let rest =
      handle_all-voices ps next (with_buffer next s) refl (ground arith)
        (omega (arith, l, length-append b.packets (p.payload ∷ []))) in
    ap (handle_all (voices ps)) step
    ∙ (rest
        ∙ ap (λ t. with_buffer (record b { packets = t }) s)
            (append_assoc b.packets (p.payload ∷ []) (payloads ps)))

abbrev listening_to : OpusVoiceBuffer → Satellite → Satellite
listening_to b s = record s {
  voice_buffer = some (opus b);
  assist_state = listening;
  voice_timeout = true;
}

handle-press :
    (press : HidInputReport) (s : Satellite)
    → has_search press.usages ≡ true
    → any press.payload ≡ true
    → s.voice_buffer ≡ none
    → is_processing s ≡ false
    → handle (report press) s ≡ listening_to (new_opus_buffer max_voice_packets) s
unfolding handle receive_report start_recording
handle-press press s h p e f = simp (handle, receive_report, start_recording, h, p, e, f) refl

handle-release :
    (release : HidInputReport) (b : OpusVoiceBuffer) (s : Satellite)
    → has_search release.usages ≡ true
    → any release.payload ≡ false
    → 0 < length b.packets
    → handle (report release) (with_buffer b s)
      ≡ create_task (opus b) (record s { voice_timeout = false; voice_buffer = none })
unfolding handle receive_report finish_recording close is_empty
handle-release release b s h p l =
    let full : (length b.packets == 0) ≡ false = ground arith in
    simp (handle, receive_report, finish_recording, close, is_empty, h, p, full) refl

-- The satellite after an utterance: one more processing task, which has the packets.
pub record Processes (ps : List HidVoicePacket) (before after : Satellite) : Type 0 where
  pub recorded :
      after.recordings
      ≡ opus (record { max_packets = max_voice_packets; packets = payloads ps }) ∷ before.recordings
  pub scheduled : after.processing_task ≡ some before.next_task
  pub closed : after.voice_buffer ≡ none
  pub disarmed : after.voice_timeout ≡ false

created-Processes :
    (ps : List HidVoicePacket) (before s : Satellite)
    → s.recordings ≡ before.recordings
    → s.next_task ≡ before.next_task
    → Processes ps before (
        create_task
          (opus (record { max_packets = max_voice_packets; packets = payloads ps }))
          (record s { voice_timeout = false; voice_buffer = none }))
unfolding create_task
created-Processes ps before s r n = record {
  recorded = rw r refl;
  scheduled = rw n refl;
  closed = refl;
  disarmed = refl;
}

length-payloads : (ps : List HidVoicePacket) → length (payloads ps) ≡ length ps
length-payloads [] = refl
length-payloads (p ∷ ps) = omega (arith, length-payloads ps)

-- A press of the search key on a satellite that neither records nor processes, 1 to MAX_VOICE_PACKETS
-- supported Opus packets, and the release of the key start exactly one processing task, and its
-- recording has those packets in order; the buffer is closed and the timer is cancelled.
pub handle_all-Processes :
    (press release : HidInputReport) (ps : List HidVoicePacket) (s : Satellite)
    → has_search press.usages ≡ true
    → any press.payload ≡ true
    → has_search release.usages ≡ true
    → any release.payload ≡ false
    → s.voice_buffer ≡ none
    → is_processing s ≡ false
    → all is_supported_opus_packet (payloads ps) ≡ true
    → 0 < length ps
    → length ps ≤ max_voice_packets
    → Processes ps s (handle_all (report press ∷ voices ps ++ report release ∷ []) s)
unfolding handle_all
handle_all-Processes press release ps s hp pressed hr ar e f sup lo hi =
    let started = listening_to (new_opus_buffer max_voice_packets) s in
    let full : OpusVoiceBuffer = record {
      max_packets = max_voice_packets;
      packets = payloads ps;
    } in
    let collected : handle_all (voices ps) started ≡ with_buffer full started =
      handle_all-voices ps (new_opus_buffer max_voice_packets) started refl sup
        (omega (arith, hi)) in
    let whole : handle_all (report press ∷ voices ps ++ report release ∷ []) s
        ≡ create_task (opus full) (record started { voice_timeout = false; voice_buffer = none }) =
      ap (handle_all (voices ps ++ report release ∷ [])) (handle-press press s hp pressed e f)
      ∙ (handle_all-append (voices ps) (report release ∷ []) started
          ∙ (ap (handle_all (report release ∷ [])) collected
              ∙ handle-release release full started hr ar
                  (omega (arith, lo, length-payloads ps)))) in
    subst (Processes ps s) (sym whole) (created-Processes ps s started refl refl)
