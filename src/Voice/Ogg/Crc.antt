-- ===== src/Voice/Ogg/Crc.antt =====
-- The checksum of an Ogg page, as the format defines it, against `_ogg_crc`.
use Prim.Native.Nat.{bit_and, bit_xor}
use home_assistant_bluetooth.Prelude.{
  ℕ, zero, suc, ◌+◌, ◌*◌, ◌/◌, ◌%◌, ◌^◌, ◌≡◌, refl, sym, ◌∙◌, ap, [], ◌∷◌, ◌==◌, nat_eq,
  if◌then◌else◌, arith,
}
use home_assistant_bluetooth.Prelude.Bits.{bit_and-mask, bit_and-bit}
use home_assistant_bluetooth.Prelude.Bytes.{Bytes}
use home_assistant_bluetooth.Voice.Ogg.{crc_shift, crc_shifts, crc_loop, ogg_crc}

-- The generator polynomial without its leading term: x^26 + x^23 + x^22 + x^16 + x^12 + x^11 + x^10 + x^8
-- + x^7 + x^5 + x^4 + x^2 + x + 1.
abbrev polynomial : ℕ
polynomial =
    2 ^ 26
    + 2 ^ 23
    + 2 ^ 22
    + 2 ^ 16
    + 2 ^ 12
    + 2 ^ 11
    + 2 ^ 10
    + 2 ^ 8
    + 2 ^ 7
    + 2 ^ 5
    + 2 ^ 4
    + 2 ^ 2
    + 2
    + 1

-- The 32-bit register times x, reduced by the generator where its top bit goes out.
unfoldable pub times_x : ℕ → ℕ
times_x c = (if c / 2 ^ 31 % 2 == 0 then c * 2 else bit_xor (c * 2) polynomial) % 2 ^ 32

unfoldable pub times_x_pow : ℕ → ℕ → ℕ
times_x_pow zero c = c
times_x_pow (suc n) c = times_x_pow n (times_x c)

-- The register starts at 0, and a byte is added to its top.
unfoldable pub remainder : Bytes → ℕ → ℕ
remainder [] c = c
remainder (b ∷ bytes) c = remainder bytes (times_x_pow 8 (bit_xor c (b * 2 ^ 24)))

unfoldable pub page_crc : Bytes → ℕ
page_crc bytes = remainder bytes 0

top_bit : (c : ℕ) → (bit_and c 0x80000000 == 0) ≡ (c / 2 ^ 31 % 2 == 0)
top_bit c = ground (arith, bit_and-bit 31 c)

crc_shift-times_x : (c : ℕ) → crc_shift c ≡ times_x c
unfolding crc_shift times_x
crc_shift-times_x c = bit_and-mask 32 _ ∙ rw (top_bit c) refl

crc_shifts-times_x_pow : (n c : ℕ) → crc_shifts n c ≡ times_x_pow n c
unfolding crc_shifts times_x_pow
crc_shifts-times_x_pow zero c = refl
crc_shifts-times_x_pow (suc n) c =
    crc_shifts-times_x_pow n (crc_shift c) ∙ ap (times_x_pow n) (crc_shift-times_x c)

crc_loop-remainder : (bytes : Bytes) (c : ℕ) → crc_loop bytes c ≡ remainder bytes c
unfolding crc_loop remainder
crc_loop-remainder [] c = refl
crc_loop-remainder (b ∷ bytes) c =
    crc_loop-remainder bytes _
    ∙ ap (remainder bytes) (crc_shifts-times_x_pow 8 (bit_xor c (b * 2 ^ 24)))

pub page_crc-ogg_crc : (bytes : Bytes) → page_crc bytes ≡ ogg_crc bytes
unfolding page_crc ogg_crc
page_crc-ogg_crc bytes = sym (crc_loop-remainder bytes 0)
