-- ===== src/Voice/Buffers.antt =====
-- OpusVoiceBuffer, PcmVoiceBuffer and `async_decode_opus_packets` of voice.py. ffmpeg is another
-- program: its run is the argument `ffmpeg`, from the Ogg stream to what the process did.
pub mod Bounds
use home_assistant_bluetooth.Prelude.{
  ℕ, suc, ◌+◌, ◌%◌, Bool, true, ◌||◌, not, List, [], ◌∷◌, ◌++◌, ltb, leb, ◌==◌, nat_eq,
  if◌then◌else◌, length, Result, ok, err, ◌>>=◌,
}
use home_assistant_bluetooth.Prelude.Int.{ℤ, pos, negsuc}
use home_assistant_bluetooth.Prelude.Bytes.{Bytes}
use home_assistant_bluetooth.Voice.Types.{
  VoiceError, unsupported_opus_packet, packet_limit, recording_empty, unsupported_sample_rate,
  invalid_pcm_chunk, pcm_limit, pcm_empty, ffmpeg_failed, ffmpeg_empty, ffmpeg_limit,
  ffmpeg_timeout, PcmVoicePacket, voice_sample_rate, max_pcm_bytes, max_voice_packets,
}
use home_assistant_bluetooth.Voice.Ogg.{is_supported_opus_packet, build_ogg_opus}

pub record OpusVoiceBuffer : Type 0 where
  pub max_packets : ℕ
  pub packets : List Bytes

-- OpusVoiceBuffer(max_packets=n)
abbrev pub new_opus_buffer : ℕ → OpusVoiceBuffer
new_opus_buffer n = record { max_packets = n; packets = [] }

unfoldable pub append_opus : Bytes → OpusVoiceBuffer → Result VoiceError OpusVoiceBuffer
append_opus packet b =
    if not (is_supported_opus_packet packet)
    then err unsupported_opus_packet
    else if leb b.max_packets (length b.packets)
    then err packet_limit
    else ok (record b { packets = b.packets ++ packet ∷ [] })

unfoldable pub to_ogg : OpusVoiceBuffer → Result VoiceError Bytes
to_ogg b = if length b.packets == 0 then err recording_empty else build_ogg_opus b.packets

pub record PcmVoiceBuffer : Type 0 where
  pub max_bytes : ℕ
  pub chunks : List Bytes
  pub byte_count : ℕ

-- PcmVoiceBuffer()
abbrev pub new_pcm_buffer : PcmVoiceBuffer
new_pcm_buffer = record { max_bytes = max_pcm_bytes; chunks = []; byte_count = 0 }

unfoldable pub append_pcm : PcmVoicePacket → PcmVoiceBuffer → Result VoiceError PcmVoiceBuffer
append_pcm packet b =
    if not (packet.sample_rate == voice_sample_rate)
    then err unsupported_sample_rate
    else if length packet.payload == 0 || not (length packet.payload % 2 == 0)
    then err invalid_pcm_chunk
    else if ltb b.max_bytes (b.byte_count + length packet.payload)
    then err pcm_limit
    else ok (record b {
      chunks = b.chunks ++ packet.payload ∷ [];
      byte_count = b.byte_count + length packet.payload;
    })

-- b"".join(chunks)
unfoldable pub join : List Bytes → Bytes
join [] = []
join (c ∷ cs) = c ++ join cs

unfoldable pub to_pcm : PcmVoiceBuffer → Result VoiceError Bytes
to_pcm b = if length b.chunks == 0 then err pcm_empty else ok (join b.chunks)

-- What a run of ffmpeg can end in; the return code is negative where a signal ended the process.
pub data FfmpegRun : Type 0 where
  timed_out : FfmpegRun
  exited : (returncode : ℤ) (stdout : Bytes) → FfmpegRun

-- bool(returncode)
unfoldable pub is_nonzero : ℤ → Bool
is_nonzero (pos n) = not (n == 0)
is_nonzero (negsuc n) = true

unfoldable pub check_ffmpeg : FfmpegRun → Result VoiceError Bytes
check_ffmpeg timed_out = err ffmpeg_timeout
check_ffmpeg (exited returncode stdout) =
    if is_nonzero returncode
    then err ffmpeg_failed
    else if length stdout == 0
    then err ffmpeg_empty
    else if ltb max_pcm_bytes (length stdout)
    then err ffmpeg_limit
    else ok stdout

unfoldable pub decode_opus_packets : (Bytes → FfmpegRun) → List Bytes → Result VoiceError Bytes
decode_opus_packets ffmpeg packets = do ogg ← build_ogg_opus packets; check_ffmpeg (ffmpeg ogg)
