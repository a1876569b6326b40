-- ===== src/Hidraw/Lines.antt =====
-- `_parse_uevent` reads back the lines that the kernel prints.
use home_assistant_bluetooth.Prelude.{
  ℕ, ◌≡◌, refl, sym, ap, ◌∙◌, Bool, true, false, ◌&&◌, not, some, List, [], ◌∷◌, ◌++◌, ◌==◌, nat_eq,
  text_eq, arith, Text,
}
use mathlib.Core.List.{append-nil, append_assoc}
use home_assistant_bluetooth.Prelude.Dict.{put}
use home_assistant_bluetooth.Hidraw.{
  Properties, partition, parse_lines, is_boundary, split_lines, parse_uevent,
}

-- "key=item\n" for each entry.
unfoldable pub print : List (Text × Text) → Text
print [] = []
print ((key, item) ∷ entries) = key ++ b'=' ∷ (item ++ 10 ∷ print entries)

-- Each entry is put into the dict, a later one over an earlier one.
unfoldable pub put_all : List (Text × Text) → Properties → Properties
put_all [] d = d
put_all ((key, item) ∷ entries) d = put_all entries (put d key item)

unfoldable pub is_plain : Text → Bool
is_plain [] = true
is_plain (c ∷ s) = not (is_boundary c) && is_plain s

unfoldable pub is_key : Text → Bool
is_key [] = true
is_key (c ∷ s) = not (is_boundary c) && not (c == b'=') && is_key s

-- Keys without `=`, and neither keys nor items with a line boundary.
unfoldable pub are_entries : List (Text × Text) → Bool
are_entries [] = true
are_entries ((key, item) ∷ entries) = is_key key && is_plain item && are_entries entries

split-boundary : (line text : Text) → split_lines line (10 ∷ text) ≡ line ∷ split_lines [] text
unfolding split_lines is_boundary
split-boundary line [] = refl
split-boundary line (d ∷ text) = refl

no_return : (c : ℕ) → is_boundary c ≡ false → (c == 13) ≡ false
unfolding is_boundary
no_return c h = ground arith

split-plain_char :
    (line : Text) (c d : ℕ) (text : Text)
    → is_boundary c ≡ false
    → split_lines line (c ∷ d ∷ text) ≡ split_lines (line ++ c ∷ []) (d ∷ text)
unfolding split_lines
split-plain_char line c d text h = rw (no_return c h, h, split_lines) refl

-- The rest of a line, up to its boundary.
split-rest :
    (line rest text : Text)
    → is_plain rest ≡ true
    → split_lines line (rest ++ 10 ∷ text) ≡ (line ++ rest) ∷ split_lines [] text
unfolding is_plain
split-rest line [] text h =
    split-boundary line text ∙ ap (λ l. l ∷ split_lines [] text) (sym (append-nil line))
split-rest line (c ∷ []) text h =
    split-plain_char line c 10 text (ground arith) ∙ split-boundary (line ++ c ∷ []) text
split-rest line (c ∷ d ∷ rest) text h =
    split-plain_char line c d (rest ++ 10 ∷ text) (ground arith)
    ∙ (split-rest (line ++ c ∷ []) (d ∷ rest) text (ground arith)
        ∙ ap (λ l. l ∷ split_lines [] text) (append_assoc line (c ∷ []) (d ∷ rest)))

is_plain-entry :
    (key item : Text)
    → is_key key ≡ true
    → is_plain item ≡ true
    → is_plain (key ++ b'=' ∷ item) ≡ true
unfolding is_plain is_key is_boundary
is_plain-entry [] item h k = k
is_plain-entry (c ∷ key) item h k = ground (arith, is_plain-entry key item)

partition-entry :
    (key item : Text) → is_key key ≡ true → partition (key ++ b'=' ∷ item) ≡ some (key, item)
unfolding partition is_key
partition-entry [] item h = refl
partition-entry (c ∷ key) item h =
    let other : (c == b'=') ≡ false = ground arith in
    rw (other, partition-entry key item (ground arith), partition) refl

entry_lines : List (Text × Text) → List Text
entry_lines [] = []
entry_lines ((key, item) ∷ entries) = (key ++ b'=' ∷ item) ∷ entry_lines entries

split-print :
    (entries : List (Text × Text))
    → are_entries entries ≡ true
    → split_lines [] (print entries) ≡ entry_lines entries
unfolding print are_entries entry_lines
split-print [] h = unfold split_lines in refl
split-print ((key, item) ∷ entries) h =
    ap (split_lines []) (sym (append_assoc key (b'=' ∷ item) (10 ∷ print entries)))
    ∙ (split-rest [] (key ++ b'=' ∷ item) (print entries)
          (is_plain-entry key item (ground arith) (ground arith))
        ∙ ap (λ ls. (key ++ b'=' ∷ item) ∷ ls) (split-print entries (ground arith)))

parse-entry_lines :
    (entries : List (Text × Text)) (d : Properties)
    → are_entries entries ≡ true
    → parse_lines (entry_lines entries) d ≡ put_all entries d
unfolding parse_lines entry_lines put_all are_entries
parse-entry_lines [] d h = refl
parse-entry_lines ((key, item) ∷ entries) d h =
    rw (partition-entry key item (ground arith), parse_lines)
      (parse-entry_lines entries (put d key item) (ground arith))

-- The lines `key=item` that are printed for entries, each with its line break, are read back as those
-- entries, put into the dict one after the other, where no key has `=` and no key or item has a line
-- boundary. An item may have `=`.
pub parse_uevent-print :
    (entries : List (Text × Text))
    → are_entries entries ≡ true
    → parse_uevent (print entries) ≡ put_all entries []
unfolding parse_uevent
parse_uevent-print entries h =
    ap (λ ls. parse_lines ls []) (split-print entries h) ∙ parse-entry_lines entries [] h
