-- ===== src/Keymap/Codes.antt =====
-- custom_components/bluetooth_hid_remote/android_keycodes.py: ANDROID_KEY_CODES, in the order of the
-- source, in three parts.
mod Low
mod Middle
mod High
pub use Low.{low_key_codes}
pub use Middle.{middle_key_codes}
pub use High.{high_key_codes}
use home_assistant_bluetooth.Prelude.{ℕ, String, List, [], ◌∷◌, ◌++◌, Text, codes}
use home_assistant_bluetooth.Prelude.Dict.{Dict}

abbrev pub text_keys : List (String × ℕ) → Dict Text ℕ
text_keys [] = []
text_keys ((k, v) ∷ entries) = (codes k, v) ∷ text_keys entries

unfoldable pub android_key_codes : Dict Text ℕ
android_key_codes = text_keys (low_key_codes ++ (middle_key_codes ++ high_key_codes))
