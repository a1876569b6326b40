-- ===== src/Voice/Buffers/Bounds.antt =====
-- The buffers never grow past their limits, and what they hold comes out whole.
use home_assistant_bluetooth.Prelude.{
  ℕ, ◌+◌, ◌%◌, ◌≤◌, ◌<◌, ◌≡◌, refl, true, ◌&&◌, List, [], ◌∷◌, ◌++◌, arith, length, length-append,
  all, Result, ok, ◌>>=◌, >>=-eq-ok, some, ◌↔◌,
}
use mathlib.Core.List.{append-nil, append_assoc}
use home_assistant_bluetooth.Prelude.Int.{pos, negsuc}
use home_assistant_bluetooth.Prelude.Bytes.{Bytes}
use home_assistant_bluetooth.Voice.Types.{VoiceError, PcmVoicePacket, max_pcm_bytes}
use home_assistant_bluetooth.Voice.Ogg.{is_supported_opus_packet, build_ogg_opus}
use home_assistant_bluetooth.Voice.Ogg.Stream.{
  read_pages, utterance_pages, head_page, tags_page, build_ogg_opus-read,
}
use home_assistant_bluetooth.Voice.Buffers.{
  OpusVoiceBuffer, new_opus_buffer, append_opus, to_ogg, PcmVoiceBuffer, append_pcm, join,
  FfmpegRun, timed_out, exited, is_nonzero, check_ffmpeg, decode_opus_packets,
}

-- A loop of `append` calls that stops at the first error.
unfoldable pub append_all : List Bytes → OpusVoiceBuffer → Result VoiceError OpusVoiceBuffer
append_all [] b = ok b
append_all (p ∷ ps) b = append_opus p b >>= λ b'. append_all ps b'

append_all-ok :
    (ps : List Bytes) (b : OpusVoiceBuffer)
    → all is_supported_opus_packet ps ≡ true
    → length b.packets + length ps ≤ b.max_packets
    → append_all ps b ≡ ok (record b { packets = b.packets ++ ps })
unfolding append_all append_opus
append_all-ok [] b s h = rw append-nil
append_all-ok (p ∷ ps) b s h = ground (
  arith,
  append_all-ok ps (record b { packets = b.packets ++ p ∷ [] }),
  length-append b.packets (p ∷ []),
  append_assoc b.packets (p ∷ []) ps,
)

-- Every buffer that `append` can reach: within its limit, and only supported packets.
pub record IsBounded (b : OpusVoiceBuffer) : Type 0 where
  pub within : length b.packets ≤ b.max_packets
  pub supported : all is_supported_opus_packet b.packets ≡ true

all-snoc :
    (ps : List Bytes) (p : Bytes)
    → all is_supported_opus_packet (ps ++ p ∷ [])
      ≡ (all is_supported_opus_packet ps && is_supported_opus_packet p)
all-snoc [] p = ground arith
all-snoc (q ∷ ps) p = ground (arith, all-snoc ps p)

-- A successful `append` keeps a buffer within its packet limit and free of unsupported packets, and
-- adds exactly its packet at the end.
pub append_opus-IsBounded :
    (packet : Bytes) (b b' : OpusVoiceBuffer)
    → IsBounded b
    → append_opus packet b ≡ ok b'
    → IsBounded b' × (b'.packets ≡ b.packets ++ packet ∷ []) × (b'.max_packets ≡ b.max_packets)
unfolding append_opus
append_opus-IsBounded packet b b' v e =
    let facts : (b' ≡ record b { packets = b.packets ++ packet ∷ [] })
        × (length b.packets < b.max_packets)
        × (is_supported_opus_packet packet ≡ true) =
      ground arith in
    rw facts.0 (
      record {
        within = omega (arith, length-append b.packets (packet ∷ []), facts.1);
        supported = rw all-snoc (ground (arith, v.supported, facts.2));
      },
      refl,
      refl,
    )

-- An utterance of 1 to `max_packets` supported packets, appended one by one to a new buffer of at most
-- 750 packets, is exported to a stream whose audio pages are those packets in order.
pub to_ogg-append_all :
    (max_packets : ℕ) (ps : List Bytes)
    → 0 < length ps
    → length ps ≤ max_packets
    → max_packets ≤ 750
    → all is_supported_opus_packet ps ≡ true
    → (stream : Bytes) × ((append_all ps (new_opus_buffer max_packets) >>= λ b. to_ogg b)
        ≡ ok stream)
      × (read_pages (length ps + 2) stream ≡ some (head_page ∷ tags_page ∷ utterance_pages ps 2))
unfolding to_ogg
to_ogg-append_all max_packets ps lo hi limit s =
    let (stream, e, r) = build_ogg_opus-read ps lo (omega arith) s in
    (
      stream,
      rw (append_all-ok ps (new_opus_buffer max_packets) s (omega arith)) (ground (arith, e)),
      r,
    )

-- The byte count is the size of the recording, which is within the limit and whole samples.
pub record IsCounted (b : PcmVoiceBuffer) : Type 0 where
  pub count : b.byte_count ≡ length (join b.chunks)
  pub within : b.byte_count ≤ b.max_bytes
  pub even : b.byte_count % 2 ≡ 0

join-snoc :
    (cs : List Bytes) (c : Bytes) → length (join (cs ++ c ∷ [])) ≡ length (join cs) + length c
unfolding join
join-snoc [] c = omega (arith, length-append {0} c [])
join-snoc (d ∷ cs) c = omega (
  arith,
  join-snoc cs c,
  length-append {0} d (join (cs ++ c ∷ [])),
  length-append {0} d (join cs),
)

-- A successful `append` of a PCM chunk keeps the byte count equal to the recorded bytes, within the
-- size limit, and even.
pub append_pcm-IsCounted :
    (packet : PcmVoicePacket) (b b' : PcmVoiceBuffer)
    → IsCounted b
    → append_pcm packet b ≡ ok b'
    → IsCounted b'
unfolding append_pcm
append_pcm-IsCounted packet b b' v e = ground (arith, join-snoc b.chunks packet.payload)

-- ffmpeg was given the stream, exited with status 0, and wrote 1 to MAX_PCM_BYTES bytes.
pub record IsDecoded (ffmpeg : Bytes → FfmpegRun) (packets : List Bytes) (output : Bytes)
    : Type 0 where
  pub stream : Bytes
  pub built : build_ogg_opus packets ≡ ok stream
  pub finished : ffmpeg stream ≡ exited (pos 0) output
  pub some_output : 0 < length output
  pub limited : length output ≤ max_pcm_bytes

check_ffmpeg-ok :
    (run : FfmpegRun) (output : Bytes)
    → check_ffmpeg run ≡ ok output
    → (0 < length output) × (length output ≤ max_pcm_bytes) × (run ≡ exited (pos 0) output)
unfolding check_ffmpeg is_nonzero
check_ffmpeg-ok timed_out output e = cc
check_ffmpeg-ok (exited (pos n) stdout) output e = (ground arith, ground arith, ground arith)
check_ffmpeg-ok (exited (negsuc n) stdout) output e = cc

check_ffmpeg-exited :
    (output : Bytes)
    → 0 < length output
    → length output ≤ max_pcm_bytes
    → check_ffmpeg (exited (pos 0) output) ≡ ok output
unfolding check_ffmpeg is_nonzero
check_ffmpeg-exited output lo hi = ground arith

-- `async_decode_opus_packets` returns some bytes exactly when the packets make a stream and ffmpeg, given
-- that stream, exits with status 0 after writing these bytes, 1 to MAX_PCM_BYTES of them; in every other
-- case, a time-out, a positive or a negative return code included, it raises.
pub decode_opus_packets_iff :
    (ffmpeg : Bytes → FfmpegRun) (packets : List Bytes) (output : Bytes)
    → (decode_opus_packets ffmpeg packets ≡ ok output) ↔ IsDecoded ffmpeg packets output
unfolding decode_opus_packets
decode_opus_packets_iff ffmpeg packets output = (forth, back)
  where
    forth : decode_opus_packets ffmpeg packets ≡ ok output → IsDecoded ffmpeg packets output
    forth e =
        let (ogg, q, c) = >>=-eq-ok (build_ogg_opus packets) (λ ogg. check_ffmpeg (ffmpeg ogg)) e in
        let (lo, hi, run) = check_ffmpeg-ok (ffmpeg ogg) output c in
        record { stream = ogg; built = q; finished = run; some_output = lo; limited = hi }

    back : IsDecoded ffmpeg packets output → decode_opus_packets ffmpeg packets ≡ ok output
    back d = rw (d.built, d.finished) (check_ffmpeg-exited output d.some_output d.limited)
