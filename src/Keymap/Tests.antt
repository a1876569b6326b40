-- ===== src/Keymap/Tests.antt =====
-- Runs of the key mapping, and its theorems at concrete usages.
use home_assistant_bluetooth.Prelude.{
  ◌≡◌, refl, none, some, [], ◌∷◌, codes, inr, pair_eq, text_eq, nat_eq,
}
use home_assistant_bluetooth.Prelude.Dict.{get}
use home_assistant_bluetooth.Hid.Types.{HidUsage}
use home_assistant_bluetooth.Keymap.Tables.{google_tv_usage_names}
use home_assistant_bluetooth.Keymap.Names.{
  normalize_hid_name, strip, drop_while, drop_while_end, squash, is_name_char, upper, upper_char,
  hex4, hex_front, hex_digit, int16, signed_hex, hex_body, hex_digits, digit_value, is_space,
  normalize_android_name, removeprefix, split, split_parts,
}
use home_assistant_bluetooth.Prelude.Int.{pos}
use home_assistant_bluetooth.Keymap.Mapper.{
  KeyMapper, key_profile_google_tv, resolve, builtin_key_mapper,
}
use home_assistant_bluetooth.Keymap.Mapper.Total.{Resolves}
use home_assistant_bluetooth.Keymap.Mapper.Builtin.{
  builtin_key_mapper-Resolves, google_tv-extends, google_choice,
}

-- The Back key of the Google TV remote's own table.
abbrev back_usage : HidUsage
back_usage = record { usage_page = 0x0C; usage_id = 0x0006; name = none }

normalize_test : normalize_hid_name (codes "AC  Search (next)") ≡ codes "AC_SEARCH_NEXT"
unfolding normalize_hid_name strip drop_while drop_while_end squash is_name_char upper upper_char
normalize_test = refl

normalize_android_test : normalize_android_name (codes " keycode_Back ") ≡ codes "BACK"
unfolding normalize_android_name strip drop_while drop_while_end is_space upper upper_char
    removeprefix
normalize_android_test = refl

int16_test : int16 (codes " 0x_0C2 ") ≡ some (pos 194)
unfolding int16 signed_hex hex_body hex_digits digit_value is_space strip drop_while drop_while_end
int16_test = refl

hex4_test : hex4 0x221 ≡ codes "0221"
unfolding hex4 hex_front hex_digit
hex4_test = refl

hex4_long_test : hex4 0xFF000001 ≡ codes "FF000001"
unfolding hex4 hex_front hex_digit
hex4_long_test = refl

split_test : split b':' (codes "0C:221") ≡ codes "0C" ∷ codes "221" ∷ []
unfolding split split_parts
split_test = refl

builtin_key_mapper-Resolves_example :
    (mapper : KeyMapper) × (builtin_key_mapper key_profile_google_tv ≡ some mapper)
    × Resolves mapper.namespace (resolve mapper back_usage)
builtin_key_mapper-Resolves_example =
    builtin_key_mapper-Resolves key_profile_google_tv back_usage (inr (inr refl))

google_tv-extends_example :
    (mapper : KeyMapper) × (builtin_key_mapper key_profile_google_tv ≡ some mapper)
    × (resolve mapper back_usage
        ≡ google_choice (0x0C, 0x0006) (get google_tv_usage_names (0x0C, 0x0006)))
google_tv-extends_example = google_tv-extends back_usage
