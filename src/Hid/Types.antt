-- ===== src/Hid/Types.antt =====
-- The dataclasses of hid.py. The HID Usage Tables database is a third-party package: its two
-- look-ups are the record `UsageTables`.
use home_assistant_bluetooth.Prelude.{ℕ, Bool, Option, List, Text}

pub record HidUsage : Type 0 where
  pub usage_page : ℕ
  pub usage_id : ℕ
  pub name : Option Text

pub record HidInputField : Type 0 where
  pub report_id : ℕ
  pub bit_offset : ℕ
  pub report_size : ℕ
  pub report_count : ℕ
  pub usage_page : ℕ
  pub variable : Bool
  pub usages : List (ℕ × ℕ)
  pub usage_minimum : Option (ℕ × ℕ)
  pub usage_maximum : Option (ℕ × ℕ)

-- `UsagePages.get_description(page)` and `UsagePages.get_subdata(page).get_description(id)` of
-- hid_parser; `none` stands for the KeyError or ValueError that they raise.
pub record UsageTables : Type 0 where
  pub page_description : ℕ → Option Text
  pub usage_description : ℕ → ℕ → Option Text
