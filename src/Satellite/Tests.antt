-- ===== src/Satellite/Tests.antt =====
-- Runs of the satellite, and its theorems at them.
use home_assistant_bluetooth.Prelude.{
  ◌≡◌, refl, true, false, nat_eq, none, some, List, [], ◌∷◌, ◌++◌, replicate, arith, all,
}
use home_assistant_bluetooth.Prelude.Bytes.{Bytes}
use home_assistant_bluetooth.Prelude.Int.{pos}
use home_assistant_bluetooth.Prelude.Dict.{contains, discard}
use home_assistant_bluetooth.Voice.Types.{hid, pcm, HidVoicePacket}
use home_assistant_bluetooth.Voice.Ogg.{is_supported_opus_packet}
use home_assistant_bluetooth.Manager.Paths.{any}
use home_assistant_bluetooth.Manager.State.{HidInputReport}
use home_assistant_bluetooth.Manager.Button.{has_search}
use home_assistant_bluetooth.Voice.Buffers.{append_opus, append_pcm}
use home_assistant_bluetooth.Satellite.{
  new_satellite, is_processing, Event, report, voice, timer, ended, handle, handle_all,
  receive_report, receive_voice_packet, start_recording, finish_recording, close, is_empty,
  create_task, collect, append_packet, end_task,
}
use home_assistant_bluetooth.Satellite.Invariant.{IsValid}
use home_assistant_bluetooth.Satellite.Runs.{handle_all-new-IsValid}
use home_assistant_bluetooth.Satellite.Utterance.{Processes, voices, payloads, handle_all-Processes}

abbrev search_report : Bytes → HidInputReport
search_report payload = record {
  report_id = 1;
  characteristic_handle = pos 18;
  payload = payload;
  usages = record { usage_page = 0x0C; usage_id = 0x0221; name = none } ∷ [];
}

abbrev press : HidInputReport
press = search_report (1 ∷ [])

abbrev release : HidInputReport
release = search_report (0 ∷ [])

abbrev opus_packet : HidVoicePacket
opus_packet = record {
  report_id = 0xF0;
  characteristic_handle = pos 20;
  payload = 0xB8 ∷ replicate 79 0;
}

abbrev two_packets : List HidVoicePacket
two_packets = opus_packet ∷ opus_packet ∷ []

-- A press, a PCM packet, which is of the other transport, and a late packet while the first is decoded.
abbrev mixed : List Event
mixed =
    report press
    ∷ voice (some (hid opus_packet))
    ∷ voice (some (pcm (record { sample_rate = 16000; payload = 0 ∷ 0 ∷ [] })))
    ∷ voice (some (hid opus_packet))
    ∷ report release
    ∷ ended 0 true
    ∷ timer
    ∷ []

mixed_test : (handle_all mixed new_satellite).next_task ≡ 1
unfolding handle_all handle receive_report receive_voice_packet start_recording finish_recording
    close is_empty create_task collect append_packet end_task is_processing contains discard
    has_search any append_opus append_pcm is_supported_opus_packet
mixed_test = refl

press-search : has_search press.usages ≡ true
unfolding has_search
press-search = refl

press-any : any press.payload ≡ true
unfolding any
press-any = refl

release-any : any release.payload ≡ false
unfolding any
release-any = refl

two-supported : all is_supported_opus_packet (payloads two_packets) ≡ true
unfolding is_supported_opus_packet
two-supported = refl

new-free : is_processing new_satellite ≡ false
unfolding is_processing
new-free = refl

handle_all-new-IsValid_example : IsValid (handle_all mixed new_satellite)
handle_all-new-IsValid_example = handle_all-new-IsValid mixed

handle_all-Processes_example :
    Processes two_packets new_satellite
      (handle_all (report press ∷ voices two_packets ++ report release ∷ []) new_satellite)
handle_all-Processes_example =
    handle_all-Processes press release two_packets new_satellite press-search press-any press-search
      release-any refl new-free two-supported (omega arith) (omega arith)
