-- ===== src/Manager/Paths.antt =====
-- `characteristic_handle_from_path`, `parse_report_reference` and `event_type_for_report` of manager.py.
use home_assistant_bluetooth.Prelude.{
  ℕ, Bool, false, ◌||◌, not, Option, none, some, [], ◌∷◌, ◌==◌, nat_eq, text_eq, if◌then◌else◌,
  length, take, drop, Text, codes,
}
use home_assistant_bluetooth.Prelude.Bytes.{Bytes}
use home_assistant_bluetooth.Prelude.Int.{ℤ}
use home_assistant_bluetooth.Keymap.Names.{int16}

-- any(data)
unfoldable pub any : Bytes → Bool
any [] = false
any (b ∷ bs) = not (b == 0) || any bs

-- The text behind the last occurrence of the marker: `path.rsplit(marker, 1)[1]`.
unfoldable pub after_last : Text → Text → Option Text
after_last marker [] = none
after_last marker (c ∷ s) = elim (after_last marker s) [
  | some suffix ↦ some suffix
  | none ↦
      if take (length marker) (c ∷ s) == marker then some (drop (length marker) (c ∷ s)) else none
]

unfoldable pub characteristic_handle_from_path : Text → Option ℤ
characteristic_handle_from_path path = elim (after_last (codes "/char") path) [
  | none ↦ none
  | some suffix ↦ int16 suffix
]

unfoldable pub parse_report_reference : Bytes → Option (ℕ × ℕ)
parse_report_reference (report_id ∷ report_type ∷ []) = some (report_id, report_type)
parse_report_reference _ = none
