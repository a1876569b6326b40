-- ===== src/Keymap/Profiles.antt =====
-- The custom profiles of keymap.py: `parse_custom_profiles` with its helpers, `CustomKeyProfile`,
-- `async_load_custom_profiles` and `async_create_key_mapper`. `none` is that the code raises.
pub mod Valid
pub mod Mappers
pub mod Keys
pub mod Tests
use home_assistant_bluetooth.Prelude.{
  ℕ, Bool, true, false, ◌&&◌, ◌||◌, not, Option, none, some, List, [], ◌∷◌, leb, ◌==◌, nat_eq,
  pair_eq, text_eq, if◌then◌else◌, Text, codes,
}
use home_assistant_bluetooth.Prelude.Int.{ℤ, pos}
use home_assistant_bluetooth.Prelude.Dict.{Dict, get, put, contains}
use home_assistant_bluetooth.Keymap.Codes.{android_key_codes}
use home_assistant_bluetooth.Keymap.Tables.{UsageKey}
use home_assistant_bluetooth.Keymap.Names.{int16, split, strip, is_space, normalize_android_name}
use home_assistant_bluetooth.Keymap.Mapper.{
  KeyIdentity, KeyMapper, key_profile_android_tv, key_profile_google_tv, key_profile_hid,
  named_identity, builtin_key_mapper,
}

-- A key of a decoded YAML mapping: a string, or something else by its text.
pub data Key : Type 0 where
  text_key : Text → Key
  scalar : Text → Key

-- A decoded YAML value, and the entries of a mapping. `opaque` is null, a float, a date or a list, which
-- the code never looks into.
mutual
  pub data Value : Type 0 where
    text : Text → Value
    integer : ℤ → Value
    boolean : Bool → Value
    opaque : Value
    mapping : Entries → Value

  pub data Entries : Type 0 where
    no_entries : Entries
    entry : Key → Value → Entries → Entries

-- raw.get(key)
unfoldable pub field : Entries → Text → Option Value
field no_entries key = none
field (entry (scalar s) value rest) key = field rest key
field (entry (text_key s) value rest) key =
    let found = field rest key in if s == key then some value else found

-- raw.get(key, default)
unfoldable pub field_or : Entries → Text → Value → Value
field_or raw key default = elim (field raw key) [ none ↦ default | some value ↦ value ]

-- set(raw) <= set(keys)
unfoldable pub only : List Text → Entries → Bool
only keys no_entries = true
only keys (entry (scalar s) value rest) = false
only keys (entry (text_key s) value rest) = contains keys s && only keys rest

unfoldable pub usage_numbers : Option ℤ → Option ℤ → Option UsageKey
usage_numbers (some (pos page)) (some (pos usage_id)) =
    if leb page 0xFFFF && leb usage_id 0xFFFF then some (page, usage_id) else none
usage_numbers _ _ = none

unfoldable pub usage_parts : List Text → Option UsageKey
usage_parts (page ∷ usage_id ∷ []) = usage_numbers (int16 page) (int16 usage_id)
usage_parts _ = none

unfoldable pub parse_usage_key : Key → Option UsageKey
parse_usage_key (scalar s) = none
parse_usage_key (text_key value) = usage_parts (split b':' value)

-- `namespace == "android"`
unfoldable pub is_android : Text → Bool
is_android namespace = namespace == codes "android"

-- ANDROID_KEY_CODES.get(name) == code
unfoldable pub is_android_key : Text → ℕ → Bool
is_android_key key_name key_code = elim (get android_key_codes key_name) [
  | none ↦ false
  | some code ↦ code == key_code
]

-- key_code and key_name of a mapping.
unfoldable pub explicit_identity : Option Value → Option Value → Text → Option KeyIdentity
explicit_identity (some (integer (pos key_code))) (some (text key_name)) namespace =
    let stripped = strip is_space key_name in
    let chosen = if is_android namespace then normalize_android_name key_name else stripped in
    if stripped == [] || (is_android namespace && not (is_android_key chosen key_code))
    then none
    else some (record { namespace = namespace; code = key_code; name = chosen })
explicit_identity _ _ namespace = none

unfoldable pub parse_mapping_value : Value → UsageKey → Text → Option KeyIdentity
parse_mapping_value (text value) usage_key namespace =
    if is_android namespace
    then named_identity (normalize_android_name value)
    else some (record { namespace = namespace; code = usage_key.1; name = value })
parse_mapping_value (mapping raw) usage_key namespace =
    if only (codes "key_code" ∷ codes "key_name" ∷ []) raw
    then explicit_identity (field raw (codes "key_code")) (field raw (codes "key_name")) namespace
    else none
parse_mapping_value _ usage_key namespace = none

unfoldable pub parse_mappings :
    Entries → Text → Dict UsageKey KeyIdentity → Option (Dict UsageKey KeyIdentity)
parse_mappings no_entries namespace mappings = some mappings
parse_mappings (entry raw_key raw_value rest) namespace mappings = elim (parse_usage_key raw_key) [
  | none ↦ none
  | some usage_key ↦ elim (parse_mapping_value raw_value usage_key namespace) [
    | none ↦ none
    | some identity ↦ parse_mappings rest namespace (put mappings usage_key identity)
  ]
]

pub record CustomKeyProfile : Type 0 where
  pub name : Text
  pub namespace : Text
  pub extends : Text
  pub mappings : Dict UsageKey KeyIdentity

unfoldable pub mapper : CustomKeyProfile → KeyMapper
mapper custom = record {
  profile = custom.name;
  namespace = custom.namespace;
  base = custom.extends;
  overrides = custom.mappings;
}

-- `extends not in (KEY_PROFILE_HID, KEY_PROFILE_ANDROID_TV)`
unfoldable pub supported_base : Value → Option Text
supported_base (text extends) =
    if extends == key_profile_hid || extends == key_profile_android_tv then some extends else none
supported_base _ = none

unfoldable pub base_namespace : Text → Text
base_namespace extends = if extends == key_profile_android_tv then codes "android" else codes "hid"

-- A value that equals the text.
unfoldable pub is_text : Text → Value → Bool
is_text expected (text value) = value == expected
is_text expected _ = false

-- `raw_profile.get("mappings", {})`
unfoldable pub raw_mappings : Value → Option Entries
raw_mappings (mapping raw) = some raw
raw_mappings _ = none

unfoldable pub extended_profile : Text → Entries → Text → Option CustomKeyProfile
extended_profile name raw_profile extends =
    if is_text (base_namespace extends)
      (field_or raw_profile (codes "namespace") (text (base_namespace extends)))
    then elim (raw_mappings (field_or raw_profile (codes "mappings") (mapping no_entries))) [
      | none ↦ none
      | some raw ↦ elim (parse_mappings raw (base_namespace extends) []) [
        | none ↦ none
        | some mappings ↦ some (record {
          name = name;
          namespace = base_namespace extends;
          extends = extends;
          mappings = mappings;
        })
      ]
    ]
    else none

unfoldable pub is_builtin : Text → Bool
is_builtin profile =
    profile == key_profile_hid
    || profile == key_profile_android_tv
    || profile == key_profile_google_tv

-- One round of the loop over `raw_profiles.items()`.
unfoldable pub parse_profile : Key → Value → Option CustomKeyProfile
parse_profile (text_key profile) (mapping raw_profile) =
    if profile == [] || is_builtin profile
    then none
    else if only (codes "extends" ∷ codes "namespace" ∷ codes "mappings" ∷ []) raw_profile
    then elim (supported_base (field_or raw_profile (codes "extends") (text key_profile_hid))) [
      | none ↦ none
      | some extends ↦ extended_profile profile raw_profile extends
    ]
    else none
parse_profile _ _ = none

unfoldable pub parse_profiles :
    Entries → Dict Text CustomKeyProfile → Option (Dict Text CustomKeyProfile)
parse_profiles no_entries profiles = some profiles
parse_profiles (entry key raw_profile rest) profiles = elim (parse_profile key raw_profile) [
  | none ↦ none
  | some custom ↦ parse_profiles rest (put profiles custom.name custom)
]

unfoldable pub parse_custom_profiles : Entries → Option (Dict Text CustomKeyProfile)
parse_custom_profiles data_entries =
    if only (codes "profiles" ∷ []) data_entries
    then elim (raw_mappings (field_or data_entries (codes "profiles") (mapping no_entries))) [
      | none ↦ none
      | some raw_profiles ↦ parse_profiles raw_profiles []
    ]
    else none

-- What the configuration directory has under KEYMAP_FILENAME.
pub data File : Type 0 where
  missing unreadable : File
  document : Entries → File

unfoldable pub load_custom_profiles : File → Option (Dict Text CustomKeyProfile)
load_custom_profiles missing = some []
load_custom_profiles unreadable = none
load_custom_profiles (document data_entries) = parse_custom_profiles data_entries

unfoldable pub create_key_mapper : File → Text → Option KeyMapper
create_key_mapper file profile =
    if is_builtin profile then builtin_key_mapper profile else elim (load_custom_profiles file) [
      | none ↦ none
      | some profiles ↦ elim (get profiles profile) [
        | none ↦ none
        | some custom ↦ some (mapper custom)
      ]
    ]
