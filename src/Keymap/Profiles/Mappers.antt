-- ===== src/Keymap/Profiles/Mappers.antt =====
-- Every mapper that is created resolves every usage in its own namespace.
use mathlib.Core.Path.{subst}
use home_assistant_bluetooth.Prelude.{
  ◌≡◌, ◌≢◌, refl, inl, inr, ◌||◌, Option, none, some, [], ◌∷◌, ◌==◌, nat_eq, pair_eq, text_eq,
  arith, Text, codes, Bool-cases, text_beq_iff,
}
use home_assistant_bluetooth.Prelude.Dict.{Dict, get, put, get-put}
use home_assistant_bluetooth.Hid.Types.{HidUsage}
use home_assistant_bluetooth.Keymap.Mapper.{
  KeyMapper, key_profile_android_tv, key_profile_hid, builtin_key_mapper, resolve,
}
use home_assistant_bluetooth.Keymap.Mapper.Total.{IsConsistent, Resolves, resolve-Resolves}
use home_assistant_bluetooth.Keymap.Mapper.Builtin.{builtin_key_mapper-IsConsistent}
use home_assistant_bluetooth.Keymap.Profiles.{
  Key, text_key, Value, text, mapping, Entries, no_entries, entry, field_or, only, parse_mappings,
  CustomKeyProfile, mapper, supported_base, base_namespace, is_text, raw_mappings, extended_profile,
  is_builtin, parse_profile, parse_profiles, parse_custom_profiles, File, missing, unreadable,
  document, load_custom_profiles, create_key_mapper,
}
use home_assistant_bluetooth.Keymap.Profiles.Valid.{
  Given, Given-some, Given-elim, IsUsable, parse_mappings-AllValues,
}

Given-map :
    {A : Type 0} (P Q : A → Type 0) (r : Option A) → ((a : A) → P a → Q a) → Given P r → Given Q r
Given-map P Q none f g = tt
Given-map P Q (some a) f g = f a g

base_namespace-android :
    (extends : Text) → extends ≡ key_profile_android_tv → base_namespace extends ≡ codes "android"
unfolding base_namespace
base_namespace-android extends e = ground (arith, text_beq_iff extends key_profile_android_tv)

base_namespace-hid :
    (extends : Text) → extends ≢ key_profile_android_tv → base_namespace extends ≡ codes "hid"
unfolding base_namespace
base_namespace-hid extends e = ground (arith, text_beq_iff extends key_profile_android_tv)

extended_profile-IsUsable :
    (profile : Text) (raw : Entries) (extends : Text)
    → Given (IsUsable profile) (extended_profile profile raw extends)
unfolding extended_profile
extended_profile-IsUsable profile raw extends =
    elim (Bool-cases (
      is_text (base_namespace extends)
        (field_or raw (codes "namespace") (text (base_namespace extends))))) [
          | inr e ↦ rw (e, extended_profile) tt
          | inl e ↦
              rw (e, extended_profile)
                (Given-elim _ _
                  (raw_mappings (field_or raw (codes "mappings") (mapping no_entries)))
                  (λ r f.
                    Given-elim _ _ (parse_mappings r (base_namespace extends) []) (λ mappings g.
                      record {
                        named = refl;
                        consistent =
                            unfold mapper in
                            record {
                              on_android = base_namespace-android extends;
                              elsewhere = base_namespace-hid extends;
                              overriding =
                                  Given-some _ _ mappings
                                    (parse_mappings-AllValues r (base_namespace extends) [] tt) g;
                            };
                      })))
        ]

parse_profile-IsUsable :
    (key : Key) (value : Value)
    → Given (λ custom. IsUsable custom.name custom) (parse_profile key value)
unfolding parse_profile
parse_profile-IsUsable (text_key profile) (mapping raw) =
    elim (Bool-cases (profile == [] || is_builtin profile)) [
      | inl e ↦ rw (e, parse_profile) tt
      | inr e ↦
          elim (Bool-cases
            (only (codes "extends" ∷ codes "namespace" ∷ codes "mappings" ∷ []) raw)) [
              | inr o ↦ rw (e, o, parse_profile) tt
              | inl o ↦
                  rw (e, o, parse_profile)
                    (Given-elim _ _
                      (supported_base (field_or raw (codes "extends") (text key_profile_hid)))
                      (λ extends f.
                        Given-map (IsUsable profile) (λ c. IsUsable c.name c) _
                          (λ c u. record { named = refl; consistent = u.consistent })
                          (extended_profile-IsUsable profile raw extends)))
            ]
    ]
parse_profile-IsUsable _ _ = tt

-- Every profile of the dict is usable under its key.
abbrev AreUsable : Dict Text CustomKeyProfile → Type 0
AreUsable profiles =
    (profile : Text) (custom : CustomKeyProfile)
    → get profiles profile ≡ some custom
    → IsUsable profile custom

put-AreUsable :
    (profiles : Dict Text CustomKeyProfile) (new : CustomKeyProfile)
    → AreUsable profiles
    → IsUsable new.name new
    → AreUsable (put profiles new.name new)
put-AreUsable profiles new h u profile custom g = elim (Bool-cases (new.name == profile)) [
  | inl e ↦
      let at_put : get (put profiles new.name new) profile ≡ some new =
        rw (get-put profiles new.name profile new, e) refl in
      let same : new ≡ custom = ground arith in
      subst (λ c. IsUsable profile c) same
        record { named = (text_beq_iff new.name profile).0 e; consistent = u.consistent }
  | inr e ↦ h profile custom (rw (get-put profiles new.name profile new, e) at g)
]

parse_profiles-AreUsable :
    (raw : Entries) (profiles : Dict Text CustomKeyProfile)
    → AreUsable profiles
    → Given AreUsable (parse_profiles raw profiles)
unfolding parse_profiles
parse_profiles-AreUsable no_entries profiles h = h
parse_profiles-AreUsable (entry key value rest) profiles h =
    Given-elim _ _ (parse_profile key value) (λ custom e.
      parse_profiles-AreUsable rest (put profiles custom.name custom) (
        put-AreUsable profiles custom h
          (Given-some _ _ custom (parse_profile-IsUsable key value) e)))

none-AreUsable : AreUsable []
unfolding get
none-AreUsable profile custom e = cc

load-AreUsable : (file : File) → Given AreUsable (load_custom_profiles file)
unfolding load_custom_profiles parse_custom_profiles
load-AreUsable missing = none-AreUsable
load-AreUsable unreadable = tt
load-AreUsable (document raw) = elim (Bool-cases (only (codes "profiles" ∷ []) raw)) [
  | inl e ↦
      rw (e, parse_custom_profiles)
        (Given-elim _ _ (raw_mappings (field_or raw (codes "profiles") (mapping no_entries)))
          (λ r f. parse_profiles-AreUsable r [] none-AreUsable))
  | inr e ↦ rw (e, parse_custom_profiles) tt
]

create_key_mapper-IsConsistent :
    (file : File) (profile : Text) → Given IsConsistent (create_key_mapper file profile)
unfolding create_key_mapper
create_key_mapper-IsConsistent file profile = elim (Bool-cases (is_builtin profile)) [
  | inl e ↦
      rw (e, create_key_mapper)
        (given (builtin_key_mapper profile) (λ m. builtin_key_mapper-IsConsistent profile m))
  | inr e ↦
      rw (e, create_key_mapper)
        (Given-elim _ _ (load_custom_profiles file) (λ profiles f.
          Given-elim _ _ (get profiles profile) (λ custom g.
            (Given-some _ _ profiles (load-AreUsable file) f profile custom g).consistent)))
]
  where
    given :
        (r : Option KeyMapper)
        → ((m : KeyMapper) → r ≡ some m → IsConsistent m)
        → Given IsConsistent r
    given none k = tt
    given (some m) k = k m refl

-- Every mapper that is created for a profile, from the built-in tables or from a keymap file that was
-- accepted, resolves every HID usage, to an identity in the mapper's own namespace; in the Android
-- namespace the code is the one that ANDROID_KEY_CODES gives to the name.
pub create_key_mapper-Resolves :
    (file : File) (profile : Text) (chosen : KeyMapper) (usage : HidUsage)
    → create_key_mapper file profile ≡ some chosen
    → Resolves chosen.namespace (resolve chosen usage)
create_key_mapper-Resolves file profile chosen usage e =
    resolve-Resolves chosen usage
      (Given-some _ _ chosen (create_key_mapper-IsConsistent file profile) e)
