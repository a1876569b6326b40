-- ===== src/Voice/Types.antt =====
-- Constants, packets and exceptions of voice.py.
use home_assistant_bluetooth.Prelude.{ℕ, ◌*◌}
use home_assistant_bluetooth.Prelude.Bytes.{Bytes}
use home_assistant_bluetooth.Prelude.Int.{ℤ}

abbrev pub voice_report_id : ℕ
voice_report_id = 0xF0

abbrev pub voice_packet_size : ℕ
voice_packet_size = 80

abbrev pub voice_packet_toc : ℕ
voice_packet_toc = 0xB8

abbrev pub voice_frame_samples_48khz : ℕ
voice_frame_samples_48khz = 960

abbrev pub voice_sample_rate : ℕ
voice_sample_rate = 16_000

abbrev pub max_voice_packets : ℕ
max_voice_packets = 750

abbrev pub max_pcm_bytes : ℕ
max_pcm_bytes = voice_sample_rate * 2 * 20

abbrev pub atvv_codec_adpcm_16k : ℕ
atvv_codec_adpcm_16k = 0x02

abbrev pub atvv_max_packet_bytes : ℕ
atvv_max_packet_bytes = 512

-- The messages of VoiceTransportError, and the exceptions that Python itself would raise from an
-- index out of range, a `pack` of a number that does not fit, or `bytes` of a number over 255.
pub data VoiceError : Type 0 where
  unsupported_opus_packet packet_limit recording_empty : VoiceError
  unsupported_sample_rate invalid_pcm_chunk pcm_limit pcm_empty : VoiceError
  predictor_range step_index_range invalid_adpcm_size : VoiceError
  empty_ogg too_many_packets invalid_recorded_packet : VoiceError
  ffmpeg_failed ffmpeg_empty ffmpeg_limit ffmpeg_timeout : VoiceError
  index_error struct_error value_error : VoiceError

pub record HidVoicePacket : Type 0 where
  pub report_id : ℕ
  pub characteristic_handle : ℤ
  pub payload : Bytes

pub record PcmVoicePacket : Type 0 where
  pub sample_rate : ℕ
  pub payload : Bytes

pub data VoicePacket : Type 0 where
  hid : HidVoicePacket → VoicePacket
  pcm : PcmVoicePacket → VoicePacket
