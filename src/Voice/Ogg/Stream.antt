-- ===== src/Voice/Ogg/Stream.antt =====
-- The whole stream of an utterance, read back page by page.
use home_assistant_bluetooth.Prelude.{
  ℕ, zero, suc, ◌+◌, ◌-◌, ◌*◌, ◌≤◌, ◌<◌, ◌≡◌, ◌↔◌, refl, true, false, Option, none, some, List, [],
  ◌∷◌, ◌++◌, arith, ◌==◌, nat_eq, if◌then◌else◌, length, all, get_elem?, ok, ==_iff,
}
use native.Mathlib.Numerals.{add-two}
use home_assistant_bluetooth.Prelude.Bytes.{Bytes}
use home_assistant_bluetooth.Voice.Ogg.{
  is_supported_opus_packet, ogg_page, audio_pages, build_ogg_opus, opus_head, opus_tags,
  stream_serial,
}
use home_assistant_bluetooth.Voice.Ogg.Page.{OggPage, read_page, page_record, ogg_page-read}

-- The pages of a stream, at most `fuel` of them.
unfoldable pub read_pages : ℕ → Bytes → Option (List OggPage)
read_pages zero bytes = if length bytes == 0 then some [] else none
read_pages (suc fuel) bytes = elim (read_page bytes) [
  | none ↦ if length bytes == 0 then some [] else none
  | some (page, rest) ↦ elim (read_pages fuel rest) [
    | none ↦ none
    | some pages ↦ some (page ∷ pages)
  ]
]

-- The audio pages that an utterance stands for: numbered from `index`, 960 samples of 48 kHz each,
-- the last one marked as the end of the stream.
unfoldable pub utterance_pages : List Bytes → ℕ → List OggPage
utterance_pages [] index = []
utterance_pages (packet ∷ []) index =
    page_record packet stream_serial index (960 * (index - 1)) 4 ∷ []
utterance_pages (packet ∷ next ∷ packets) index =
    page_record packet stream_serial index (960 * (index - 1)) 0
    ∷ utterance_pages (next ∷ packets) (index + 1)

abbrev pub head_page : OggPage
head_page = page_record opus_head stream_serial 0 0 2

abbrev pub tags_page : OggPage
tags_page = page_record opus_tags stream_serial 1 0 0

-- The framing test accepts exactly the packets of 80 bytes whose first byte is 0xB8: the three checks
-- on the parts of that byte never reject one.
pub is_supported_opus_packet_iff :
    (packet : Bytes)
    → (is_supported_opus_packet packet ≡ true)
      ↔ ((length packet ≡ 80) × (get_elem? packet 0 ≡ some 0xB8))
unfolding is_supported_opus_packet
is_supported_opus_packet_iff [] = (λ e. cc, λ e. absurd (omega arith))
is_supported_opus_packet_iff (toc ∷ rest) = (λ e. ground arith, back)
  where
    back :
        (length (toc ∷ rest) ≡ 80) × (get_elem? (toc ∷ rest) 0 ≡ some 0xB8)
        → is_supported_opus_packet (toc ∷ rest) ≡ true
    back e =
        let size : length rest ≡ 79 = omega (arith, e.0) in
        let first : toc ≡ 184 = ground arith in rw (first, is_supported_opus_packet, size)

read_pages-page :
    (fuel : ℕ) (bytes rest : Bytes) (page : OggPage) (pages : List OggPage)
    → read_page bytes ≡ some (page, rest)
    → read_pages fuel rest ≡ some pages
    → read_pages (suc fuel) bytes ≡ some (page ∷ pages)
unfolding read_pages
read_pages-page fuel bytes rest page pages e h = ground arith

-- One round of the loop over the packets.
audio_page :
    (packet : Bytes) (index granule flags : ℕ)
    → is_supported_opus_packet packet ≡ true
    → 2 ≤ index
    → index ≤ 752
    → granule ≡ 960 * (index - 2)
    → flags < 256
    → (page : Bytes) × (ogg_page packet stream_serial index (granule + 960) flags ≡ ok page)
      × ((rest : Bytes)
          → read_page (page ++ rest)
            ≡ some (page_record packet stream_serial index (960 * (index - 1)) flags, rest))
audio_page packet index granule flags s lo hi g f =
    let size = ((is_supported_opus_packet_iff packet).0 s).0 in
    let step : granule + 960 ≡ 960 * (index - 1) = omega arith in
    rw step (
      ogg_page-read packet stream_serial index (960 * (index - 1)) flags (omega arith) (omega arith)
        (omega arith) (omega arith) f)

audio_pages-read :
    (packets : List Bytes) (total index granule : ℕ)
    → all is_supported_opus_packet packets ≡ true
    → index + length packets ≡ total + 2
    → 2 ≤ index
    → granule ≡ 960 * (index - 2)
    → total ≤ 750
    → (bytes : Bytes) × (audio_pages packets total index granule ≡ ok bytes)
      × (read_pages (length packets) bytes ≡ some (utterance_pages packets index))
unfolding audio_pages utterance_pages
audio_pages-read [] total index granule s c i g t = ([], refl, unfold read_pages in refl)
audio_pages-read (packet ∷ []) total index granule s c i g t =
    let (page, e, r) =
      audio_page packet index granule 4 (ground arith) i (omega arith) g (omega arith) in
    let last : (index == total + 1) ≡ true = (==_iff index (total + 1)).1 (omega arith) in
    (
      page ++ [],
      rw (last, e),
      read_pages-page 0 (page ++ []) [] _ [] (r []) (unfold read_pages in refl),
    )
audio_pages-read (packet ∷ next ∷ packets) total index granule s c i g t =
    let (page, e, r) =
      audio_page packet index granule 0 (ground arith) i (omega arith) g (omega arith) in
    let more : (index == total + 1) ≡ false = ground arith in
    let (pages, e', r') =
      audio_pages-read (next ∷ packets) total (index + 1) (granule + 960) (ground arith)
        (omega arith) (omega arith) (omega arith) t in
    (page ++ pages, rw (more, e, e'), read_pages-page _ (page ++ pages) pages _ _ (r pages) r')

-- For 1 to 750 supported packets the stream is built without an error, and a reader finds in it the
-- head page, the tags page, and one page for each packet: numbered from 2, with the packet as payload
-- and 960 samples more than the page before, the last one and no other marked as the end.
pub build_ogg_opus-read :
    (packets : List Bytes)
    → 0 < length packets
    → length packets ≤ 750
    → all is_supported_opus_packet packets ≡ true
    → (stream : Bytes) × (build_ogg_opus packets ≡ ok stream)
      × (read_pages (length packets + 2) stream
          ≡ some (head_page ∷ tags_page ∷ utterance_pages packets 2))
unfolding build_ogg_opus
build_ogg_opus-read packets lo hi s =
    let (head, e, r) =
      ogg_page-read opus_head stream_serial 0 0 2 (omega arith) (omega arith) (omega arith)
        (omega arith) (omega arith) in
    let (tags, e', r') =
      ogg_page-read opus_tags stream_serial 1 0 0 (omega arith) (omega arith) (omega arith)
        (omega arith) (omega arith) in
    let (pages, e'', r'') =
      audio_pages-read packets (length packets) 2 0 s (omega arith) (omega arith) (omega arith)
        hi in
    (
      head ++ (tags ++ pages),
      ground (arith, e, e', e''),
      rw add-two (
          read_pages-page (suc (length packets)) (head ++ (tags ++ pages)) (tags ++ pages) head_page
            _ (r (tags ++ pages))
            (read_pages-page (length packets) (tags ++ pages) pages tags_page _ (r' pages) r'')),
    )
