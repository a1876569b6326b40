-- ===== src/Keymap/Names.antt =====
-- The name functions of keymap.py, and the methods of `str` that they call. `upper` is that of ASCII
-- letters; other code points stay as they are.
use home_assistant_bluetooth.Prelude.{
  ℕ, zero, suc, ◌++◌, ◌+◌, ◌-◌, ◌*◌, ◌/◌, ◌%◌, ◌≤◌, ◌≡◌, arith, Bool, true, false, ◌&&◌, ◌||◌, not,
  Option, none, some, List, [], ◌∷◌, ltb, leb, ◌==◌, nat_eq, text_eq, if◌then◌else◌, map, length,
  take, drop, Text, codes,
}
use home_assistant_bluetooth.Prelude.Int.{ℤ, pos, neg}

-- str.isspace() of one code point.
unfoldable pub is_space : ℕ → Bool
is_space c =
    (leb 9 c && leb c 13)
    || (leb 28 c && leb c 32)
    || c == 0x85
    || c == 0xA0
    || c == 0x1680
    || (leb 0x2000 c && leb c 0x200A)
    || c == 0x2028
    || c == 0x2029
    || c == 0x202F
    || c == 0x205F
    || c == 0x3000

unfoldable pub drop_while : (ℕ → Bool) → Text → Text
drop_while p [] = []
drop_while p (c ∷ s) = let rest = drop_while p s in if p c then rest else c ∷ s

unfoldable pub drop_while_end : (ℕ → Bool) → Text → Text
drop_while_end p [] = []
drop_while_end p (c ∷ s) = elim (drop_while_end p s) [
  | [] ↦ if p c then [] else c ∷ []
  | d ∷ t ↦ c ∷ d ∷ t
]

-- s.strip(chars), for the characters that satisfy `p`.
unfoldable pub strip : (ℕ → Bool) → Text → Text
strip p s = drop_while_end p (drop_while p s)

unfoldable pub upper_char : ℕ → ℕ
upper_char c = if leb b'a' c && leb c b'z' then c - 32 else c

unfoldable pub upper : Text → Text
upper = map upper_char

unfoldable pub removeprefix : Text → Text → Text
removeprefix prefix s = if take (length prefix) s == prefix then drop (length prefix) s else s

unfoldable pub normalize_android_name : Text → Text
normalize_android_name name = removeprefix (codes "KEYCODE_") (upper (strip is_space name))

-- [A-Z0-9]
unfoldable pub is_name_char : ℕ → Bool
is_name_char c = (leb b'A' c && leb c b'Z') || (leb b'0' c && leb c b'9')

-- re.sub(r"[^A-Z0-9]+", "_", s): `inside` says that the run at hand has its `_` already.
unfoldable pub squash : Bool → Text → Text
squash inside [] = []
squash inside (c ∷ s) =
    let rest = squash (not (is_name_char c)) s in
    if is_name_char c then c ∷ rest else if inside then rest else b'_' ∷ rest

unfoldable pub normalize_hid_name : Text → Text
normalize_hid_name name = strip (λ c. c == b'_') (squash false (upper name))

unfoldable pub hex_digit : ℕ → ℕ
hex_digit d = if ltb d 10 then 48 + d else 55 + d

-- The digits in front of the last four; a number has at least as many units as digits, so `n` is fuel
-- enough for `n`.
unfoldable pub hex_front : ℕ → ℕ → Text
hex_front zero n = []
hex_front (suc fuel) n =
    let front = hex_front fuel (n / 16) in if n == 0 then [] else front ++ hex_digit (n % 16) ∷ []

-- More fuel changes nothing.
hex_front_enough : (fuel n : ℕ) → n ≤ fuel → hex_front (suc fuel) n ≡ hex_front fuel n
unfolding hex_front
hex_front_enough zero n h = ground arith
hex_front_enough (suc fuel) n h = ground (arith, hex_front_enough fuel (n / 16) (omega arith))

-- f"{n:04X}": four digits, and more where the number needs them.
unfoldable pub hex4 : ℕ → Text
hex4 n =
    hex_front (n / 65536) (n / 65536)
    ++ hex_digit (n / 4096 % 16)
      ∷ hex_digit (n / 256 % 16)
      ∷ hex_digit (n / 16 % 16)
      ∷ hex_digit (n % 16)
      ∷ []

unfoldable pub digit_value : ℕ → Option ℕ
digit_value c =
    if leb b'0' c && leb c b'9'
    then some (c - 48)
    else if leb b'A' c && leb c b'F'
    then some (c - 55)
    else if leb b'a' c && leb c b'f'
    then some (c - 87)
    else none

-- Hexadecimal digits, with single underscores between them; `ready` says that the character before was
-- a digit.
unfoldable pub hex_digits : Bool → ℕ → Text → Option ℕ
hex_digits ready acc [] = if ready then some acc else none
hex_digits ready acc (c ∷ s) =
    let underscore = hex_digits false acc s in
    elim (digit_value c) [
      | some d ↦ hex_digits true (acc * 16 + d) s
      | none ↦ if c == b'_' && ready then underscore else none
    ]

-- The optional 0x or 0X, behind which one underscore may stand.
unfoldable pub hex_body : Text → Option ℕ
hex_body (zero_char ∷ x ∷ s) =
    if zero_char == b'0' && (x == b'x' || x == b'X')
    then elim (s) [
      | [] ↦ none
      | c ∷ t ↦ if c == b'_' then hex_digits false 0 t else hex_digits false 0 (c ∷ t)
    ]
    else hex_digits false 0 (zero_char ∷ x ∷ s)
hex_body s = hex_digits false 0 s

abbrev pub Option-ℤ : (ℕ → ℤ) → Option ℕ → Option ℤ
Option-ℤ f none = none
Option-ℤ f (some n) = some (f n)

-- int(s, 16); `none` is ValueError.
unfoldable pub signed_hex : Text → Option ℤ
signed_hex [] = none
signed_hex (c ∷ s) =
    if c == b'-'
    then Option-ℤ (λ n. neg (pos n)) (hex_body s)
    else if c == b'+'
    then Option-ℤ pos (hex_body s)
    else Option-ℤ pos (hex_body (c ∷ s))

unfoldable pub int16 : Text → Option ℤ
int16 s = signed_hex (strip is_space s)

-- s.split(sep) at a single character: the part at hand and the parts behind it.
unfoldable pub split_parts : ℕ → Text → Text × List Text
split_parts sep [] = ([], [])
split_parts sep (c ∷ s) =
    let (part, parts) = split_parts sep s in
    if c == sep then ([], part ∷ parts) else (c ∷ part, parts)

unfoldable pub split : ℕ → Text → List Text
split sep s = let (part, parts) = split_parts sep s in part ∷ parts
