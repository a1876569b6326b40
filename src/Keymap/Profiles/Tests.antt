-- ===== src/Keymap/Profiles/Tests.antt =====
-- A keymap file with one profile, and the theorems at it.
use home_assistant_bluetooth.Prelude.{
  ◌≡◌, refl, some, none, [], ◌∷◌, ◌++◌, nat_eq, pair_eq, text_eq, Text, codes, arith,
}
use home_assistant_bluetooth.Prelude.Dict.{get, put, contains}
use home_assistant_bluetooth.Hid.Types.{HidUsage}
use home_assistant_bluetooth.Keymap.Codes.{android_key_codes}
use home_assistant_bluetooth.Keymap.Names.{
  hex4, digit_value, hex_digits, hex_body, signed_hex, int16, strip, drop_while, drop_while_end,
  is_space, split, split_parts, normalize_android_name, upper, upper_char, removeprefix,
}
use home_assistant_bluetooth.Keymap.Mapper.{
  KeyMapper, key_profile_android_tv, named_identity, resolve,
}
use home_assistant_bluetooth.Keymap.Mapper.Total.{Resolves}
use home_assistant_bluetooth.Keymap.Profiles.{
  text_key, text, mapping, Entries, no_entries, entry, field, field_or, only, usage_numbers,
  usage_parts, parse_usage_key, is_android, parse_mapping_value, parse_mappings, mapper,
  supported_base, base_namespace, is_text, raw_mappings, extended_profile, is_builtin,
  parse_profile, parse_profiles, parse_custom_profiles, document, load_custom_profiles,
  create_key_mapper,
}
use home_assistant_bluetooth.Keymap.Profiles.Mappers.{create_key_mapper-Resolves}
use home_assistant_bluetooth.Keymap.Profiles.Keys.{parse_usage_key-hex4}

abbrev mine : Text
mine = codes "mine"

-- profiles: {mine: {extends: android_tv, mappings: {"000C:0221": " keycode_search"}}}
abbrev keymap_file : Entries
keymap_file =
    entry (text_key (codes "profiles"))
      (mapping (
        entry (text_key mine)
          (mapping (
            entry (text_key (codes "extends")) (text key_profile_android_tv) (
              entry (text_key (codes "mappings"))
                (mapping (
                  entry (text_key (codes "000C:0221")) (text (codes " keycode_search")) no_entries))
                no_entries)))
          no_entries))
      no_entries

abbrev mine_mapper : KeyMapper
mine_mapper = record {
  profile = mine;
  namespace = codes "android";
  base = key_profile_android_tv;
  overrides =
      ((12, 0x221), record { namespace = codes "android"; code = 84; name = codes "SEARCH" }) ∷ [];
}

mine_created : create_key_mapper (document keymap_file) mine ≡ some mine_mapper
unfolding create_key_mapper load_custom_profiles parse_custom_profiles parse_profiles parse_profile
    is_builtin extended_profile raw_mappings is_text base_namespace supported_base mapper
    parse_mappings parse_mapping_value is_android parse_usage_key usage_parts usage_numbers only
    field_or field named_identity android_key_codes get put contains digit_value hex_digits hex_body
    signed_hex int16 strip drop_while drop_while_end is_space split split_parts
    normalize_android_name upper upper_char removeprefix
mine_created = refl

abbrev next_usage : HidUsage
next_usage = record { usage_page = 12; usage_id = 0x221; name = none }

create_key_mapper-Resolves_example : Resolves mine_mapper.namespace (resolve mine_mapper next_usage)
create_key_mapper-Resolves_example =
    create_key_mapper-Resolves (document keymap_file) mine mine_mapper next_usage mine_created

parse_usage_key-hex4_example :
    parse_usage_key (text_key (hex4 12 ++ b':' ∷ hex4 0x221)) ≡ some (12, 0x221)
parse_usage_key-hex4_example = parse_usage_key-hex4 12 0x221 (omega arith) (omega arith)
