-- ===== src/Satellite.antt =====
-- custom_components/bluetooth_hid_remote/assist_satellite.py: the recording of BluetoothHidRemoteAssistSatellite.
-- A processing task is a number; `running` has the tasks that have not ended yet.
pub mod Invariant
pub mod Runs
pub mod Utterance
pub mod Tests
use home_assistant_bluetooth.Prelude.{
  ℕ, suc, Bool, true, false, ◌&&◌, ◌||◌, not, Option, none, some, List, [], ◌∷◌, ◌==◌, nat_eq,
  if◌then◌else◌, length, Result, ok, err,
}
use home_assistant_bluetooth.Prelude.Dict.{contains, discard}
use home_assistant_bluetooth.Voice.Types.{VoicePacket, hid, pcm, max_voice_packets}
use home_assistant_bluetooth.Voice.Buffers.{
  OpusVoiceBuffer, new_opus_buffer, append_opus, PcmVoiceBuffer, new_pcm_buffer, append_pcm,
}
use home_assistant_bluetooth.Manager.Paths.{any}
use home_assistant_bluetooth.Manager.State.{HidInputReport}
use home_assistant_bluetooth.Manager.Button.{has_search}

-- `OpusVoiceBuffer | PcmVoiceBuffer`
pub data Buffer : Type 0 where
  opus : OpusVoiceBuffer → Buffer
  samples : PcmVoiceBuffer → Buffer

pub data AssistState : Type 0 where
  idle listening : AssistState

pub record Satellite : Type 0 where
  pub voice_buffer : Option Buffer
  -- `_voice_timeout` is armed.
  pub voice_timeout : Bool
  pub processing_task : Option ℕ
  pub running : List ℕ
  pub next_task : ℕ
  -- The buffers of all processing tasks, the newest first.
  pub recordings : List Buffer
  pub assist_state : AssistState

abbrev pub new_satellite : Satellite
new_satellite = record {
  voice_buffer = none;
  voice_timeout = false;
  processing_task = none;
  running = [];
  next_task = 0;
  recordings = [];
  assist_state = idle;
}

-- `self._processing_task is not None and not self._processing_task.done()`
unfoldable pub is_processing : Satellite → Bool
is_processing s = elim (s.processing_task) [ none ↦ false | some t ↦ contains s.running t ]

-- `buffer or OpusVoiceBuffer(max_packets=MAX_VOICE_PACKETS)`
abbrev pub buffer_or_opus : Option Buffer → Buffer
buffer_or_opus none = opus (new_opus_buffer max_voice_packets)
buffer_or_opus (some b) = b

unfoldable pub start_recording : Option Buffer → Satellite → Satellite
start_recording buffer s = elim (s.voice_buffer) [
  | some b ↦ s
  | none ↦ if is_processing s then s else record s {
    voice_buffer = some (buffer_or_opus buffer);
    assist_state = listening;
    voice_timeout = true;
  }
]

unfoldable pub is_empty : Buffer → Bool
is_empty (opus b) = length b.packets == 0
is_empty (samples b) = length b.chunks == 0

-- The background task of `_async_process_recording(buffer)`.
unfoldable pub create_task : Buffer → Satellite → Satellite
create_task buffer s = record s {
  processing_task = some s.next_task;
  running = s.next_task ∷ s.running;
  next_task = suc s.next_task;
  recordings = buffer ∷ s.recordings;
}

unfoldable pub close : Option Buffer → Satellite → Satellite
close none s = record s { assist_state = idle }
close (some b) s = if is_empty b then record s { assist_state = idle } else create_task b s

unfoldable pub finish_recording : Satellite → Satellite
finish_recording s = close s.voice_buffer (record s { voice_timeout = false; voice_buffer = none })

unfoldable pub receive_report : HidInputReport → Satellite → Satellite
receive_report report s =
    if not (has_search report.usages)
    then s
    else if any report.payload
    then start_recording none s
    else finish_recording s

-- expected_type()
abbrev pub new_buffer : VoicePacket → Buffer
new_buffer (hid packet) = opus (new_opus_buffer max_voice_packets)
new_buffer (pcm packet) = samples new_pcm_buffer

abbrev pub opus_result : {E : Type 0} → Result E OpusVoiceBuffer → Option Buffer
opus_result (ok b) = some (opus b)
opus_result (err e) = none

abbrev pub samples_result : {E : Type 0} → Result E PcmVoiceBuffer → Option Buffer
samples_result (ok b) = some (samples b)
samples_result (err e) = none

-- The buffer with the packet; `none` is a packet of the other transport, or VoiceTransportError.
unfoldable pub append_packet : VoicePacket → Buffer → Option Buffer
append_packet (hid packet) (opus b) = opus_result (append_opus packet.payload b)
append_packet (pcm packet) (samples b) = samples_result (append_pcm packet b)
append_packet _ _ = none

unfoldable pub collect : VoicePacket → Satellite → Satellite
collect packet s = elim (s.voice_buffer) [
  | none ↦ s
  | some b ↦ elim (append_packet packet b) [
    | none ↦ finish_recording s
    | some b' ↦ record s { voice_buffer = some b' }
  ]
]

unfoldable pub receive_voice_packet : Option VoicePacket → Satellite → Satellite
receive_voice_packet none s = finish_recording s
receive_voice_packet (some packet) s = elim (s.voice_buffer) [
  | none ↦ collect packet (start_recording (some (new_buffer packet)) s)
  | some b ↦ collect packet s
]

-- The end of `_async_process_recording`: an exception sets the state, then the `finally`.
unfoldable pub end_task : ℕ → Bool → Satellite → Satellite
end_task t raised s = record s {
  processing_task = none;
  running = discard s.running t;
  assist_state = if raised then idle else s.assist_state;
}

-- `_cancel_local_tasks`, when the entity is removed.
unfoldable pub cancel_local_tasks : Satellite → Satellite
cancel_local_tasks s = record s {
  voice_timeout = false;
  voice_buffer = none;
  processing_task = none;
}

-- What the event loop calls: a report, a voice packet, the armed timer, or the end of a running task.
pub data Event : Type 0 where
  report : HidInputReport → Event
  voice : Option VoicePacket → Event
  timer : Event
  ended : ℕ → Bool → Event

unfoldable pub handle : Event → Satellite → Satellite
handle (report r) s = receive_report r s
handle (voice packet) s = receive_voice_packet packet s
handle timer s = if s.voice_timeout then finish_recording s else s
handle (ended t raised) s = if contains s.running t then end_task t raised s else s

unfoldable pub handle_all : List Event → Satellite → Satellite
handle_all [] s = s
handle_all (e ∷ es) s = handle_all es (handle e s)
