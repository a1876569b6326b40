-- ===== src/Voice/Tests.antt =====
-- Runs of the voice transports, and their theorems at concrete utterances.
use home_assistant_bluetooth.Prelude.{
  ◌↔◌, ◌≡◌, ◌↔◌, refl, true, List, [], ◌∷◌, ◌++◌, arith, replicate, length, all, some, get_elem?,
  ok, err, ◌>>=◌,
}
use home_assistant_bluetooth.Prelude.Int.{pos, negsuc, ◌+ℤ◌, neg, min_ℤ, max_ℤ}
use home_assistant_bluetooth.Prelude.Bytes.{Bytes}
use home_assistant_bluetooth.Voice.Types.{
  PcmVoicePacket, max_pcm_bytes, predictor_range, invalid_adpcm_size,
}
use home_assistant_bluetooth.Voice.Adpcm.{
  new_decoder, index, reset, difference, advance, decode_code, pack_h, decode_sample, decode_byte,
  decode_loop, decode,
}
use home_assistant_bluetooth.Voice.Adpcm.Range.{IsValid, Gives, decode-Gives, reset_iff}
use home_assistant_bluetooth.Voice.Adpcm.Stream.{decode_both, decode-append}
use home_assistant_bluetooth.Voice.Ogg.{
  is_supported_opus_packet, ogg_page, build_ogg_opus, ogg_crc, crc_loop, crc_shifts, crc_shift,
  opus_head, stream_serial,
}
use home_assistant_bluetooth.Voice.Ogg.Page.{read_page, page_record, ogg_page-read}
use home_assistant_bluetooth.Voice.Ogg.Stream.{
  read_pages, utterance_pages, head_page, tags_page, is_supported_opus_packet_iff,
  build_ogg_opus-read,
}
use home_assistant_bluetooth.Voice.Buffers.{
  OpusVoiceBuffer, new_opus_buffer, append_opus, to_ogg, PcmVoiceBuffer, new_pcm_buffer, append_pcm,
  join, FfmpegRun, exited, is_nonzero, decode_opus_packets, check_ffmpeg,
}
use home_assistant_bluetooth.Voice.Buffers.Bounds.{
  IsBounded, IsCounted, append_all, append_opus-IsBounded, append_pcm-IsCounted, to_ogg-append_all,
  decode_opus_packets_iff, IsDecoded,
}

-- The codes 7 and 0xF from the default state: a step up and a larger one down.
decode_runs :
    decode new_decoder (0x7F ∷ [])
    ≡ ok (record { predictor = negsuc 15; step_index = pos 17 }, 15 ∷ 0 ∷ 240 ∷ 255 ∷ [])
unfolding decode decode_loop decode_byte decode_sample decode_code advance difference index pack_h
    ◌+ℤ◌ neg min_ℤ max_ℤ
decode_runs = refl

decode_rejects : decode new_decoder [] ≡ err invalid_adpcm_size
unfolding decode
decode_rejects = refl

reset_rejects : reset (pos 32768) (pos 0) new_decoder ≡ err predictor_range
unfolding reset
reset_rejects = refl

-- The published check value of this CRC for "123456789".
crc_runs : ogg_crc (49 ∷ 50 ∷ 51 ∷ 52 ∷ 53 ∷ 54 ∷ 55 ∷ 56 ∷ 57 ∷ []) ≡ 0x89A1897F
unfolding ogg_crc crc_loop crc_shifts crc_shift
crc_runs = refl

new_decoder-IsValid : IsValid new_decoder
new_decoder-IsValid = omega arith

decode-Gives_example : Gives 8 (decode new_decoder (0x7F ∷ 0x12 ∷ []))
decode-Gives_example =
    decode-Gives new_decoder (0x7F ∷ 0x12 ∷ []) new_decoder-IsValid (omega arith) (omega arith)
      (omega arith)

reset_iff_example :
    (reset (negsuc 4) (pos 88) new_decoder
      ≡ ok (record { predictor = negsuc 4; step_index = pos 88 }))
    ↔ IsValid (record { predictor = negsuc 4; step_index = pos 88 })
reset_iff_example = reset_iff (negsuc 4) (pos 88) new_decoder

decode-append_example :
    decode new_decoder (0x7F ∷ 0x12 ∷ 0x80 ∷ [])
    ≡ decode_both decode new_decoder (0x7F ∷ []) (0x12 ∷ 0x80 ∷ [])
decode-append_example =
    decode-append new_decoder (0x7F ∷ []) (0x12 ∷ 0x80 ∷ []) (omega arith) (omega arith)
      (omega arith)

abbrev packet : Bytes
packet = 0xB8 ∷ replicate 79 0x55

packet_supported : is_supported_opus_packet packet ≡ true
unfolding is_supported_opus_packet
packet_supported = refl

abbrev two_packets : List Bytes
two_packets = packet ∷ packet ∷ []

two_packets_supported : all is_supported_opus_packet two_packets ≡ true
unfolding is_supported_opus_packet
two_packets_supported = refl

is_supported_opus_packet_iff_example :
    (is_supported_opus_packet packet ≡ true)
    ↔ ((length packet ≡ 80) × (get_elem? packet 0 ≡ some 0xB8))
is_supported_opus_packet_iff_example = is_supported_opus_packet_iff packet

ogg_page-read_example :
    (page : Bytes) × (ogg_page opus_head stream_serial 0 0 2 ≡ ok page)
    × ((rest : Bytes)
        → read_page (page ++ rest) ≡ some (page_record opus_head stream_serial 0 0 2, rest))
ogg_page-read_example =
    ogg_page-read opus_head stream_serial 0 0 2 (omega arith) (omega arith) (omega arith)
      (omega arith) (omega arith)

build_ogg_opus-read_example :
    (stream : Bytes) × (build_ogg_opus two_packets ≡ ok stream)
    × (read_pages 4 stream ≡ some (head_page ∷ tags_page ∷ utterance_pages two_packets 2))
build_ogg_opus-read_example =
    build_ogg_opus-read two_packets (omega arith) (omega arith) two_packets_supported

to_ogg-append_all_example :
    (stream : Bytes) × ((append_all two_packets (new_opus_buffer 2) >>= λ b. to_ogg b) ≡ ok stream)
    × (read_pages 4 stream ≡ some (head_page ∷ tags_page ∷ utterance_pages two_packets 2))
to_ogg-append_all_example =
    to_ogg-append_all 2 two_packets (omega arith) (omega arith) (omega arith) two_packets_supported

abbrev one_packet : OpusVoiceBuffer
one_packet = record { max_packets = 2; packets = packet ∷ [] }

append_opus_runs : append_opus packet (new_opus_buffer 2) ≡ ok one_packet
unfolding append_opus is_supported_opus_packet
append_opus_runs = refl

append_opus-IsBounded_example :
    IsBounded one_packet × (one_packet.packets ≡ [] ++ packet ∷ []) × (one_packet.max_packets ≡ 2)
append_opus-IsBounded_example =
    append_opus-IsBounded packet (new_opus_buffer 2) one_packet
      (record { within = omega arith; supported = refl }) append_opus_runs

abbrev chunk : PcmVoicePacket
chunk = record { sample_rate = 16_000; payload = 1 ∷ 2 ∷ [] }

abbrev one_chunk : PcmVoiceBuffer
one_chunk = record { max_bytes = max_pcm_bytes; chunks = (1 ∷ 2 ∷ []) ∷ []; byte_count = 2 }

append_pcm_runs : append_pcm chunk new_pcm_buffer ≡ ok one_chunk
unfolding append_pcm
append_pcm_runs = refl

append_pcm-IsCounted_example : IsCounted one_chunk
unfolding join
append_pcm-IsCounted_example =
    append_pcm-IsCounted chunk new_pcm_buffer one_chunk
      (record { count = refl; within = omega arith; even = refl }) append_pcm_runs

-- An ffmpeg that always writes two bytes.
abbrev quiet : Bytes → FfmpegRun
quiet ogg = exited (pos 0) (0 ∷ 0 ∷ [])

decode_opus_packets_runs : decode_opus_packets quiet two_packets ≡ ok (0 ∷ 0 ∷ [])
unfolding decode_opus_packets
decode_opus_packets_runs =
    let (stream, e, r) = build_ogg_opus-read_example in
    rw e (unfold check_ffmpeg is_nonzero in refl)

decode_opus_packets_iff_example :
    (decode_opus_packets quiet two_packets ≡ ok (0 ∷ 0 ∷ []))
    ↔ IsDecoded quiet two_packets (0 ∷ 0 ∷ [])
decode_opus_packets_iff_example = decode_opus_packets_iff quiet two_packets (0 ∷ 0 ∷ [])

decode_opus_packets_decodes : IsDecoded quiet two_packets (0 ∷ 0 ∷ [])
decode_opus_packets_decodes =
    (decode_opus_packets_iff quiet two_packets (0 ∷ 0 ∷ [])).0 decode_opus_packets_runs
