-- ===== src/Keymap/Profiles/Keys.antt =====
-- Usage keys: `_parse_usage_key` on the four digits of a page and of a usage.
use home_assistant_bluetooth.Prelude.{
  ℕ, ◌+◌, ◌*◌, ◌/◌, ◌%◌, ◌<◌, ◌≡◌, refl, ap, ◌∙◌, inl, inr, false, ◌||◌, some, [], ◌∷◌, ◌++◌, ◌==◌,
  nat_eq, arith, Text, Bool-cases,
}
use home_assistant_bluetooth.Prelude.Int.{pos}
use home_assistant_bluetooth.Keymap.Names.{
  hex4, hex_front, hex_digit, digit_value, hex_digits, hex_body, signed_hex, int16, strip,
  drop_while, drop_while_end, is_space, split, split_parts,
}
use home_assistant_bluetooth.Keymap.Profiles.{text_key, parse_usage_key, usage_parts, usage_numbers}

-- A digit is read back, and is no separator, sign or space.
digit_value-hex_digit : (d : ℕ) → d < 16 → digit_value (hex_digit d) ≡ some d
unfolding digit_value hex_digit
digit_value-hex_digit d h = ground arith

record IsPlain (c : ℕ) : Type 0 where
  space : is_space c ≡ false
  sign : (c == b'-' || c == b'+') ≡ false
  separator : (c == b':') ≡ false
  prefix : (c == b'x' || c == b'X') ≡ false

hex_digit-IsPlain : (d : ℕ) → d < 16 → IsPlain (hex_digit d)
unfolding hex_digit is_space
hex_digit-IsPlain d h = ground arith

module _ (a b c d : ℕ) (p : IsPlain a) (q : IsPlain b) (r : IsPlain c) (s : IsPlain d) where
  strip-four : strip is_space (a ∷ b ∷ c ∷ d ∷ []) ≡ a ∷ b ∷ c ∷ d ∷ []
  unfolding strip drop_while drop_while_end
  strip-four = rw (p.space, s.space, drop_while, drop_while_end) refl

  split_parts-four :
      (rest : Text)
      → split_parts b':' (a ∷ b ∷ c ∷ d ∷ rest)
        ≡ (a ∷ b ∷ c ∷ d ∷ (split_parts b':' rest).0, (split_parts b':' rest).1)
  unfolding split_parts
  split_parts-four rest = rw (p.separator, q.separator, r.separator, s.separator, split_parts) refl

  module _ (w x y z : ℕ) (dw : digit_value a ≡ some w) (dx : digit_value b ≡ some x)
      (dy : digit_value c ≡ some y) (dz : digit_value d ≡ some z) where
    hex_digits-four :
        hex_digits false 0 (a ∷ b ∷ c ∷ d ∷ []) ≡ some (((w * 16 + x) * 16 + y) * 16 + z)
    unfolding hex_digits
    hex_digits-four = rw (dw, dx, dy, dz, hex_digits) (ap some (omega arith))

    hex_body-four : hex_body (a ∷ b ∷ c ∷ d ∷ []) ≡ some (((w * 16 + x) * 16 + y) * 16 + z)
    unfolding hex_body
    hex_body-four = elim (Bool-cases (a == b'0')) [
      | inl e ↦ rw (e, q.prefix, hex_body) hex_digits-four
      | inr e ↦ rw (e, hex_body) hex_digits-four
    ]

    int16-four : int16 (a ∷ b ∷ c ∷ d ∷ []) ≡ some (pos (((w * 16 + x) * 16 + y) * 16 + z))
    unfolding int16 signed_hex
    int16-four =
        let not_minus : (a == b'-') ≡ false = ground (arith, p.sign) in
        let not_plus : (a == b'+') ≡ false = ground (arith, p.sign) in
        rw (strip-four, not_minus, not_plus, hex_body-four, signed_hex) refl

-- Four digits give the number back.
digits-sum :
    (n : ℕ)
    → n < 65536
    → (((n / 4096 % 16) * 16 + n / 256 % 16) * 16 + n / 16 % 16) * 16 + n % 16 ≡ n
digits-sum n h = omega arith

small : (n : ℕ) → n % 16 < 16
small n = omega arith

abbrev four : ℕ → Text
four n =
    hex_digit (n / 4096 % 16)
    ∷ hex_digit (n / 256 % 16)
    ∷ hex_digit (n / 16 % 16)
    ∷ hex_digit (n % 16)
    ∷ []

hex4-four : (n : ℕ) → n < 65536 → hex4 n ≡ four n
unfolding hex4 hex_front
hex4-four n h = let none_above : n / 65536 ≡ 0 = omega (arith, h) in rw none_above refl

int16-digits : (n : ℕ) → n < 65536 → int16 (four n) ≡ some (pos n)
int16-digits n h =
    int16-four _ _ _ _ (hex_digit-IsPlain _ (small (n / 4096)))
      (hex_digit-IsPlain _ (small (n / 256))) (hex_digit-IsPlain _ (small (n / 16)))
      (hex_digit-IsPlain _ (small n)) _ _ _ _ (digit_value-hex_digit _ (small (n / 4096)))
      (digit_value-hex_digit _ (small (n / 256))) (digit_value-hex_digit _ (small (n / 16)))
      (digit_value-hex_digit _ (small n))
    ∙ ap (λ k. some (pos k)) (digits-sum n h)

split-four :
    (page usage_id : ℕ)
    → split b':' (four page ++ b':' ∷ four usage_id) ≡ four page ∷ four usage_id ∷ []
unfolding split split_parts hex_digit
split-four page usage_id =
    let plain : (n : ℕ) → IsPlain (hex_digit (n % 16)) = λ n. hex_digit-IsPlain _ (small n) in
    rw
      (
        split_parts-four _ _ _ _ (plain (page / 4096)) (plain (page / 256)) (plain (page / 16))
            (plain page) (b':' ∷ four usage_id),
        split_parts-four _ _ _ _ (plain (usage_id / 4096)) (plain (usage_id / 256))
            (plain (usage_id / 16)) (plain usage_id) [],
        split_parts,
      )
      refl

-- The usage key that is written as four hexadecimal digits of the page, a colon and four digits of the
-- usage is read back as that page and usage.
pub parse_usage_key-hex4 :
    (page usage_id : ℕ)
    → page < 65536
    → usage_id < 65536
    → parse_usage_key (text_key (hex4 page ++ b':' ∷ hex4 usage_id)) ≡ some (page, usage_id)
unfolding parse_usage_key usage_parts usage_numbers
parse_usage_key-hex4 page usage_id h k =
    rw
      (
        hex4-four page h,
        hex4-four usage_id k,
        split-four page usage_id,
        int16-digits page h,
        int16-digits usage_id k,
        usage_numbers,
      )
      (ground arith)
