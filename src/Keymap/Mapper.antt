-- ===== src/Keymap/Mapper.antt =====
-- KeyIdentity, KeyMapper and the built-in profiles of keymap.py, and the attributes that they give to a
-- usage. `none` is a KeyError of ANDROID_KEY_CODES[name].
pub mod Total
pub mod Builtin
use home_assistant_bluetooth.Prelude.{
  ℕ, zero, suc, ◌+◌, Bool, true, false, Option, none, some, List, [], ◌∷◌, ◌++◌, ◌==◌, nat_eq,
  pair_eq, text_eq, if◌then◌else◌, Text, codes, Result, ok, err,
}
use home_assistant_bluetooth.Prelude.Dict.{Dict, get, get_or, put}
use home_assistant_bluetooth.Hid.Types.{HidUsage}
use home_assistant_bluetooth.Keymap.Codes.{android_key_codes}
use home_assistant_bluetooth.Keymap.Tables.{
  UsageKey, android_tv_usage_names, google_tv_usage_names, linux_compat,
}
use home_assistant_bluetooth.Keymap.Names.{normalize_hid_name, hex4}

-- The profile names of const.py.
abbrev pub key_profile_android_tv : Text
key_profile_android_tv = codes "android_tv"

abbrev pub key_profile_google_tv : Text
key_profile_google_tv = codes "google_tv"

abbrev pub key_profile_hid : Text
key_profile_hid = codes "hid"

pub record KeyIdentity : Type 0 where
  pub namespace : Text
  pub code : ℕ
  pub name : Text

pub record KeyMapper : Type 0 where
  pub profile : Text
  pub namespace : Text
  pub base : Text
  pub overrides : Dict UsageKey KeyIdentity

unfoldable pub hid_fallback : HidUsage → Text
hid_fallback usage = codes "HID_" ++ (hex4 usage.usage_page ++ (codes "_" ++ hex4 usage.usage_id))

-- `_normalize_hid_name(usage.name) if usage.name else _hid_fallback(usage)`
unfoldable pub hid_name : HidUsage → Option Text → Text
hid_name usage none = hid_fallback usage
hid_name usage (some []) = hid_fallback usage
hid_name usage (some (c ∷ s)) = normalize_hid_name (c ∷ s)

unfoldable pub hid_identity : HidUsage → KeyIdentity
hid_identity usage = record {
  namespace = codes "hid";
  code = usage.usage_id;
  name = hid_name usage usage.name;
}

-- KeyIdentity("android", ANDROID_KEY_CODES[name], name)
unfoldable pub named_identity : Text → Option KeyIdentity
named_identity name = elim (get android_key_codes name) [
  | none ↦ none
  | some code ↦ some (record { namespace = codes "android"; code = code; name = name })
]

-- `_LINUX_HID_KEYBOARD_ANDROID_COMPAT.get(key[1])`, on the Keyboard page.
unfoldable pub compat_name : UsageKey → Option Text
compat_name key =
    if key.0 == 0x07
    then elim (get linux_compat key.1) [ none ↦ none | some (linux, name) ↦ some name ]
    else none

unfoldable pub android_name : UsageKey → Text
android_name key = elim (get android_tv_usage_names key) [
  | some name ↦ name
  | none ↦ elim (compat_name key) [ some name ↦ name | none ↦ codes "UNKNOWN" ]
]

unfoldable pub android_identity : UsageKey → Option KeyIdentity
android_identity key = named_identity (android_name key)

unfoldable pub resolve : KeyMapper → HidUsage → Option KeyIdentity
resolve mapper usage =
    let key : UsageKey = (usage.usage_page, usage.usage_id) in
    elim (get mapper.overrides key) [
      | some identity ↦ some identity
      | none ↦
          if mapper.base == key_profile_android_tv
          then android_identity key
          else some (hid_identity usage)
    ]

unfoldable pub android_overrides : Dict UsageKey Text → Option (Dict UsageKey KeyIdentity)
android_overrides [] = some []
android_overrides ((usage, name) ∷ entries) = elim (named_identity name) [
  | none ↦ none
  | some identity ↦ elim (android_overrides entries) [
    | none ↦ none
    | some rest ↦ some ((usage, identity) ∷ rest)
  ]
]

-- `none` is KeyMapError, or the KeyError of a table.
unfoldable pub builtin_key_mapper : Text → Option KeyMapper
builtin_key_mapper profile =
    if profile == key_profile_hid
    then some
        (record { profile = profile; namespace = codes "hid"; base = profile; overrides = [] })
    else if profile == key_profile_android_tv
    then some
        (record { profile = profile; namespace = codes "android"; base = profile; overrides = [] })
    else if profile == key_profile_google_tv
    then elim (android_overrides google_tv_usage_names) [
      | none ↦ none
      | some overrides ↦ some (record {
        profile = profile;
        namespace = codes "android";
        base = key_profile_android_tv;
        overrides = overrides;
      })
    ]
    else none

-- The dict of `mapped_key_attributes`, its keys as fields.
pub record KeyAttributes : Type 0 where
  pub key_profile : Text
  pub key_namespace : Text
  pub key_code : ℕ
  pub key_name : Text
  pub hid_usage_page : ℕ
  pub hid_usage_page_hex : Text
  pub hid_usage_page_name : Text
  pub hid_usage_id : ℕ
  pub hid_usage_id_hex : Text
  pub hid_usage_name : Option Text

-- `page_name` is usage.usage_page_name.
unfoldable pub mapped_key_attributes : (ℕ → Text) → KeyMapper → HidUsage → Option KeyAttributes
mapped_key_attributes page_name mapper usage = elim (resolve mapper usage) [
  | none ↦ none
  | some identity ↦ some (record {
    key_profile = mapper.profile;
    key_namespace = identity.namespace;
    key_code = identity.code;
    key_name = identity.name;
    hid_usage_page = usage.usage_page;
    hid_usage_page_hex = codes "0x" ++ hex4 usage.usage_page;
    hid_usage_page_name = page_name usage.usage_page;
    hid_usage_id = usage.usage_id;
    hid_usage_id_hex = codes "0x" ++ hex4 usage.usage_id;
    hid_usage_name = usage.name;
  })
]
