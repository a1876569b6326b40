-- ===== src/Voice/Ogg.antt =====
-- The Ogg Opus writer of voice.py: `is_supported_opus_packet`, `build_ogg_opus`, `_ogg_page`,
-- `_ogg_crc`. `struct.pack` and `bytes` raise where a number does not fit, and so do `pack_u` and
-- `bytes_of`.
pub mod Crc
pub mod Page
pub mod Stream
use home_assistant_bluetooth.Prelude.{
  ℕ, zero, suc, ◌+◌, ◌-◌, ◌*◌, ◌^◌, Bool, true, false, ◌&&◌, ◌||◌, not, List, [], ◌∷◌, ◌++◌, ltb,
  leb, ◌==◌, nat_eq, if◌then◌else◌, length, take, drop, all, codes, Result, ok, err, ◌>>=◌,
}
use Prim.Native.Nat.{bit_and, bit_xor}
use home_assistant_bluetooth.Prelude.Bits.{shr}
use home_assistant_bluetooth.Prelude.Bytes.{Bytes, le_bytes}
use home_assistant_bluetooth.Voice.Types.{
  VoiceError, empty_ogg, too_many_packets, invalid_recorded_packet, struct_error, value_error,
  voice_packet_size, voice_packet_toc, voice_sample_rate, voice_frame_samples_48khz,
  max_voice_packets,
}

unfoldable pub is_supported_opus_packet : Bytes → Bool
is_supported_opus_packet [] = false
is_supported_opus_packet (toc ∷ rest) =
    if not (length (toc ∷ rest) == voice_packet_size) || not (toc == voice_packet_toc)
    then false
    else let config = shr toc 3 in
      let stereo = bit_and (shr toc 2) 1 in
      let frame_code = bit_and toc 0x03 in config == 23 && (stereo == 0 && frame_code == 0)

unfoldable pub pack_u : ℕ → ℕ → Result VoiceError Bytes
pack_u n x = if ltb x (256 ^ n) then ok (le_bytes n x) else err struct_error

unfoldable pub bytes_of : List ℕ → Result VoiceError Bytes
bytes_of xs = if all (λ x. ltb x 256) xs then ok xs else err value_error

-- One of the eight shifts for a byte.
unfoldable pub crc_shift : ℕ → ℕ
crc_shift checksum =
    bit_and
      (if bit_and checksum 0x80000000 == 0 then checksum * 2 else bit_xor (checksum * 2) 0x04C11DB7)
      0xFFFFFFFF

unfoldable pub crc_shifts : ℕ → ℕ → ℕ
crc_shifts zero checksum = checksum
crc_shifts (suc n) checksum = crc_shifts n (crc_shift checksum)

unfoldable pub crc_loop : Bytes → ℕ → ℕ
crc_loop [] checksum = checksum
crc_loop (value ∷ rest) checksum = crc_loop rest (crc_shifts 8 (bit_xor checksum (value * 2 ^ 24)))

unfoldable pub ogg_crc : Bytes → ℕ
ogg_crc bytes = crc_loop bytes 0

-- `while remaining >= 255`; the fuel `len(payload)` is more than enough.
unfoldable pub lacing : ℕ → ℕ → List ℕ
lacing zero remaining = remaining ∷ []
lacing (suc fuel) remaining =
    let rest = lacing fuel (remaining - 255) in
    if leb 255 remaining then 255 ∷ rest else remaining ∷ []

-- The page before its checksum is written over the four zero bytes.
unfoldable pub raw_page : Bytes → Bytes → Bytes → Bytes → Bytes → Bytes → Bytes → Bytes
raw_page kind granule serial sequence count segment_table payload =
    codes "OggS"
    ++ (kind
        ++ (granule
            ++ (serial
                ++ (sequence ++ ((0 ∷ 0 ∷ 0 ∷ 0 ∷ []) ++ (count ++ (segment_table ++ payload)))))))

unfoldable pub ogg_page : Bytes → ℕ → ℕ → ℕ → ℕ → Result VoiceError Bytes
ogg_page payload serial sequence granule flags = do
  segment_table ← bytes_of (lacing (length payload) (length payload))
  kind ← bytes_of (0 ∷ flags ∷ [])
  granule_bytes ← pack_u 8 granule
  serial_bytes ← pack_u 4 serial
  sequence_bytes ← pack_u 4 sequence
  count ← bytes_of (length segment_table ∷ [])
  let page = raw_page kind granule_bytes serial_bytes sequence_bytes count segment_table payload
  checksum ← pack_u 4 (ogg_crc page)
  ok (take 22 page ++ (checksum ++ drop 26 page))

-- "BTHR"
abbrev pub stream_serial : ℕ
stream_serial = 0x42544852

abbrev pub vendor : Bytes
vendor = codes "Bluetooth HID Remote"

-- "OpusHead" and pack("<BBHIhB", 1, 1, 0, VOICE_SAMPLE_RATE, 0, 0)
abbrev pub opus_head : Bytes
opus_head =
    codes "OpusHead"
    ++ (le_bytes 1 1
        ++ (le_bytes 1 1
            ++ (le_bytes 2 0 ++ (le_bytes 4 voice_sample_rate ++ (le_bytes 2 0 ++ le_bytes 1 0)))))

abbrev pub opus_tags : Bytes
opus_tags = codes "OpusTags" ++ (le_bytes 4 (length vendor) ++ (vendor ++ le_bytes 4 0))

-- The loop over the packets: `index` and `granule` are its variables, `total` is len(packets).
unfoldable pub audio_pages : List Bytes → ℕ → ℕ → ℕ → Result VoiceError Bytes
audio_pages [] total index granule = ok []
audio_pages (packet ∷ packets) total index granule =
    let granule' = granule + voice_frame_samples_48khz in
    let flags = if index == total + 1 then 0x04 else 0 in
    ogg_page packet stream_serial index granule' flags >>= λ page.
    (audio_pages packets total (index + 1) granule' >>= λ pages. ok (page ++ pages))

unfoldable pub build_ogg_opus : List Bytes → Result VoiceError Bytes
build_ogg_opus packets =
    if length packets == 0
    then err empty_ogg
    else if ltb max_voice_packets (length packets)
    then err too_many_packets
    else if not (all is_supported_opus_packet packets)
    then err invalid_recorded_packet
    else do
      head ← ogg_page opus_head stream_serial 0 0 0x02
      tags ← ogg_page opus_tags stream_serial 1 0 0
      pages ← audio_pages packets (length packets) 2 0
      ok (head ++ (tags ++ pages))
