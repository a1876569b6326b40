-- ===== src/Voice/Ogg/Page.antt =====
-- One page, read back by a reader of the Ogg format: capture pattern, header fields, segment table,
-- payload, checksum.
use home_assistant_bluetooth.Prelude.{
  ℕ, zero, suc, ◌+◌, ◌-◌, ◌*◌, ◌/◌, ◌^◌, ◌≤◌, ◌<◌, ◌≡◌, refl, ◌∙◌, ap, inl, inr, Bool-cases, leb,
  true, ◌&&◌, Option, none, some, List, [], ◌∷◌, ◌++◌, arith, ltb, lt→ltb, ◌==◌, nat_eq, text_eq,
  if◌then◌else◌, length, take, drop, take-append_left, drop-append_left, all, get_elem?, codes, ok,
  ==_iff,
}
use mathlib.Core.List.{append_assoc}
use Prim.Native.Nat.{bit_xor}
use home_assistant_bluetooth.Prelude.Bits.{bit_and-mask}
use home_assistant_bluetooth.Prelude.Bytes.{
  Bytes, le_bytes, from_bytes_little, from_bytes_little-le_bytes,
}
use home_assistant_bluetooth.Voice.Ogg.Crc.{page_crc, page_crc-ogg_crc}
use home_assistant_bluetooth.Voice.Ogg.{
  pack_u, bytes_of, crc_shift, crc_shifts, crc_loop, ogg_crc, lacing, raw_page, ogg_page,
}

pub record OggPage : Type 0 where
  pub flags : ℕ
  pub granule : ℕ
  pub serial : ℕ
  pub sequence : ℕ
  pub payload : Bytes

-- The size of a packet by its lacing values: each 255 is followed by another value, and the first smaller
-- one ends the packet and the table.
unfoldable pub packet_size : List ℕ → Option ℕ
packet_size [] = none
packet_size (value ∷ values) =
    let rest = packet_size values in
    if value == 255
    then elim (rest) [ none ↦ none | some size ↦ some (255 + size) ]
    else elim values [ [] ↦ some value | next ∷ others ↦ none ]

-- The first page of a stream and the bytes behind it; `none` for a bad capture pattern, version or
-- checksum and for a page that does not hold one packet.
unfoldable pub read_page : Bytes → Option (OggPage × Bytes)
read_page bytes = elim (get_elem? bytes 26) [
  | none ↦ none
  | some count ↦
      let segment_table = take count (drop 27 bytes) in
      let body = drop count (drop 27 bytes) in
      elim (packet_size segment_table) [
        | none ↦ none
        | some size ↦
            let payload = take size body in
            let zeroed =
              take 22 bytes
              ++ (0 ∷ 0 ∷ 0 ∷ 0 ∷ drop 26 (take 27 bytes))
              ++ (segment_table ++ payload) in
            if take 5 bytes == codes "OggS" ++ 0 ∷ []
              && from_bytes_little (take 4 (drop 22 bytes)) == page_crc zeroed
            then some (
              record {
                flags = from_bytes_little (take 1 (drop 5 bytes));
                granule = from_bytes_little (take 8 (drop 6 bytes));
                serial = from_bytes_little (take 4 (drop 14 bytes));
                sequence = from_bytes_little (take 4 (drop 18 bytes));
                payload = payload;
              },
              drop size body,
            )
            else none
      ]
]

packet_size_full :
    (values : List ℕ) (size : ℕ)
    → packet_size values ≡ some size
    → packet_size (255 ∷ values) ≡ some (255 + size)
unfolding packet_size
packet_size_full values size h = ground (arith, h)

-- The segment table of a packet.
lacing-packet_size : (fuel n : ℕ) → n ≤ fuel → packet_size (lacing fuel n) ≡ some n
unfolding lacing
lacing-packet_size zero n h = unfold packet_size in ground (arith)
lacing-packet_size (suc fuel) n h = elim (Bool-cases (leb 255 n)) [
  | inl full ↦
      let back : 255 + (n - 255) ≡ n = ground arith in
      rw full (
        packet_size_full (lacing fuel (n - 255)) (n - 255)
          (lacing-packet_size fuel (n - 255) (ground arith))
        ∙ ap some back)
  | inr short ↦ rw short (unfold packet_size in ground arith)
]

lacing_facts :
    (fuel n : ℕ)
    → n ≤ fuel
    → (all (λ x. ltb x 256) (lacing fuel n) ≡ true) × (length (lacing fuel n) ≡ n / 255 + 1)
unfolding lacing
lacing_facts zero n h = (ground arith, omega arith)
lacing_facts (suc fuel) n h = ground (arith, lacing_facts fuel (n - 255))

crc_shift-lt : (c : ℕ) → crc_shift c < 2 ^ 32
unfolding crc_shift
crc_shift-lt c = omega (arith, bit_and-mask 32)

crc_shifts-lt : (n c : ℕ) → c < 2 ^ 32 → crc_shifts n c < 2 ^ 32
unfolding crc_shifts
crc_shifts-lt zero c h = h
crc_shifts-lt (suc n) c h = crc_shifts-lt n (crc_shift c) (crc_shift-lt c)

crc_shifts-pos : (n c : ℕ) → crc_shifts (suc n) c < 2 ^ 32
unfolding crc_shifts
crc_shifts-pos n c = crc_shifts-lt n (crc_shift c) (crc_shift-lt c)

one_byte : (v : ℕ) → from_bytes_little (v ∷ []) ≡ v
unfolding from_bytes_little
one_byte v = omega arith

same_number : (n : ℕ) → (n == n) ≡ true
same_number n = (==_iff n n).1 refl

crc_loop-lt : (bytes : Bytes) (c : ℕ) → c < 2 ^ 32 → crc_loop bytes c < 2 ^ 32
unfolding crc_loop
crc_loop-lt [] c h = h
crc_loop-lt (b ∷ bs) c h = crc_loop-lt bs _ (crc_shifts-pos 7 (bit_xor c (b * 2 ^ 24)))

pack_u-ok : (n x : ℕ) → x < 256 ^ n → pack_u n x ≡ ok (le_bytes n x)
unfolding pack_u
pack_u-ok n x h = rw (lt→ltb x (256 ^ n) h)

bytes_of-ok : (xs : List ℕ) → all (λ x. ltb x 256) xs ≡ true → bytes_of xs ≡ ok xs
unfolding bytes_of
bytes_of-ok xs h = rw h

module _ (payload : Bytes) (serial sequence granule flags : ℕ) where
  segments : List ℕ
  segments = lacing (length payload) (length payload)

  segments-packet_size : packet_size segments ≡ some (length payload)
  unfolding segments
  segments-packet_size = lacing-packet_size (length payload) (length payload) (omega arith)

  zeroed : Bytes
  zeroed =
      raw_page (0 ∷ flags ∷ []) (le_bytes 8 granule) (le_bytes 4 serial) (le_bytes 4 sequence)
        (length segments ∷ []) segments payload

  written : Bytes
  written = take 22 zeroed ++ (le_bytes 4 (ogg_crc zeroed) ++ drop 26 zeroed)

  checksum-lt : ogg_crc zeroed < 2 ^ 32
  unfolding ogg_crc
  checksum-lt = crc_loop-lt zeroed 0 (omega arith)

  abbrev pub page_record : OggPage
  page_record = record {
    flags = flags;
    granule = granule;
    serial = serial;
    sequence = sequence;
    payload = payload;
  }

  module _ (hp : length payload < 65025) (hg : granule < 256 ^ 8) (hs : serial < 256 ^ 4)
      (hq : sequence < 256 ^ 4) (hf : flags < 256) where
    ogg_page-written : ogg_page payload serial sequence granule flags ≡ ok written
    unfolding ogg_page written zeroed segments
    ogg_page-written =
        let (small, count) = lacing_facts (length payload) (length payload) (omega arith) in
        rw (
          bytes_of-ok (lacing (length payload) (length payload)) small,
          bytes_of-ok (0 ∷ flags ∷ []) (ground arith),
          pack_u-ok 8 granule hg,
          pack_u-ok 4 serial hs,
          pack_u-ok 4 sequence hq,
          bytes_of-ok (length (lacing (length payload) (length payload)) ∷ []) (ground arith),
          pack_u-ok 4 (ogg_crc zeroed) checksum-lt,
        )

    -- The reader on a written page and the bytes behind it.
    read_page-written : (rest : Bytes) → read_page (written ++ rest) ≡ some (page_record, rest)
    unfolding read_page written zeroed raw_page
    read_page-written rest =
        let (small, count) = lacing_facts (length payload) (length payload) (omega arith) in
        rw (
          append_assoc segments payload rest,
          read_page,
          take-append_left segments (payload ++ rest),
          segments-packet_size,
          append_assoc segments payload rest,
          take-append_left segments (payload ++ rest),
          drop-append_left segments (payload ++ rest),
          take-append_left payload rest,
          drop-append_left payload rest,
          page_crc-ogg_crc zeroed,
          from_bytes_little-le_bytes 4 (ogg_crc zeroed) checksum-lt,
          same_number (ogg_crc zeroed),
          from_bytes_little-le_bytes 8 granule hg,
          from_bytes_little-le_bytes 4 serial hs,
          from_bytes_little-le_bytes 4 sequence hq,
          one_byte flags,
        )

-- For a payload under 65025 bytes and fields that fit their widths, `_ogg_page` returns a page, and
-- whatever follows the page, a reader checks its pattern and checksum, gets the flags, granule,
-- serial, sequence and payload back, and goes on behind it.
pub ogg_page-read :
    (payload : Bytes) (serial sequence granule flags : ℕ)
    → length payload < 65025
    → granule < 256 ^ 8
    → serial < 256 ^ 4
    → sequence < 256 ^ 4
    → flags < 256
    → (page : Bytes) × (ogg_page payload serial sequence granule flags ≡ ok page)
      × ((rest : Bytes)
          → read_page (page ++ rest)
            ≡ some (page_record payload serial sequence granule flags, rest))
ogg_page-read payload serial sequence granule flags hp hg hs hq hf = (
  written payload serial sequence granule flags,
  ogg_page-written payload serial sequence granule flags hp hg hs hq hf,
  read_page-written payload serial sequence granule flags hp hg hs hq hf,
)
