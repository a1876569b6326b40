-- ===== src/Keymap/Mapper/Builtin.antt =====
-- The built-in profiles: each resolves every usage, and Google TV extends Android TV.
use mathlib.Core.Path.{subst}
use home_assistant_bluetooth.Prelude.{
  ◌≡◌, ◌≢◌, ◌⊎◌, refl, sym, true, false, Option, none, some, [], ◌∷◌, ◌==◌, pair_eq, text_eq, arith,
  Text, codes, Bool-cases, Option-cases, inl, inr, text_beq_iff,
}
use home_assistant_bluetooth.Prelude.Dict.{Dict, get, AllValues}
use home_assistant_bluetooth.Hid.Types.{HidUsage}
use home_assistant_bluetooth.Keymap.Tables.{UsageKey, google_tv_usage_names}
use home_assistant_bluetooth.Keymap.Mapper.{
  KeyIdentity, KeyMapper, key_profile_hid, key_profile_android_tv, key_profile_google_tv, resolve,
  builtin_key_mapper, android_overrides, named_identity, android_identity,
}
use home_assistant_bluetooth.Keymap.Mapper.Total.{
  IsConsistent, IsIdentity, Resolves, resolve-Resolves, android_overrides-Resolves, google_tv_known,
  all_values-get, named_identity-Resolves, known,
}

google_mapper : Dict UsageKey KeyIdentity → KeyMapper
google_mapper overrides = record {
  profile = key_profile_google_tv;
  namespace = codes "android";
  base = key_profile_android_tv;
  overrides = overrides;
}

not_android : ◌≢◌ {A = Text} key_profile_hid key_profile_android_tv
not_android e = ground (arith, text_beq_iff key_profile_hid key_profile_android_tv)

plain_mapper : Text → Text → KeyMapper
plain_mapper profile namespace = record {
  profile = profile;
  namespace = namespace;
  base = profile;
  overrides = [];
}

plain_hid-IsConsistent : IsConsistent (plain_mapper key_profile_hid (codes "hid"))
unfolding plain_mapper
plain_hid-IsConsistent = record {
  on_android = λ e. absurd (not_android e);
  elsewhere = λ e. refl;
  overriding = tt;
}

plain_android-IsConsistent : IsConsistent (plain_mapper key_profile_android_tv (codes "android"))
unfolding plain_mapper
plain_android-IsConsistent = record {
  on_android = λ e. refl;
  elsewhere = λ n. absurd (n refl);
  overriding = tt;
}

google_mapper-IsConsistent :
    (overrides : Dict UsageKey KeyIdentity)
    → AllValues (IsIdentity (codes "android")) overrides
    → IsConsistent (google_mapper overrides)
unfolding google_mapper
google_mapper-IsConsistent overrides a = record {
  on_android = λ e. refl;
  elsewhere = λ n. absurd (n refl);
  overriding = a;
}

builtin_hid : builtin_key_mapper key_profile_hid ≡ some (plain_mapper key_profile_hid (codes "hid"))
unfolding builtin_key_mapper plain_mapper
builtin_hid = refl

builtin_android :
    builtin_key_mapper key_profile_android_tv
    ≡ some (plain_mapper key_profile_android_tv (codes "android"))
unfolding builtin_key_mapper plain_mapper
builtin_android = refl

builtin_google :
    (overrides : Dict UsageKey KeyIdentity)
    → android_overrides google_tv_usage_names ≡ some overrides
    → builtin_key_mapper key_profile_google_tv ≡ some (google_mapper overrides)
unfolding builtin_key_mapper google_mapper
builtin_google overrides e = rw (e, builtin_key_mapper)

builtin_none :
    (profile : Text)
    → (profile == key_profile_hid) ≡ false
    → (profile == key_profile_android_tv) ≡ false
    → (profile == key_profile_google_tv) ≡ false
    → builtin_key_mapper profile ≡ none
unfolding builtin_key_mapper
builtin_none profile h a g = rw (h, a, g, builtin_key_mapper)

moved :
    (profile known : Text) (built mapper : KeyMapper)
    → (profile == known) ≡ true
    → builtin_key_mapper known ≡ some built
    → builtin_key_mapper profile ≡ some mapper
    → IsConsistent built
    → IsConsistent mapper
moved profile known built mapper h b e c =
    let same : profile ≡ known = (text_beq_iff profile known).0 h in
    let agree : built ≡ mapper = ground (arith, same, b) in subst IsConsistent agree c

pub builtin_key_mapper-IsConsistent :
    (profile : Text) (mapper : KeyMapper)
    → builtin_key_mapper profile ≡ some mapper
    → IsConsistent mapper
builtin_key_mapper-IsConsistent profile mapper e = elim (Bool-cases (profile == key_profile_hid)) [
  | inl h ↦
      moved profile key_profile_hid (plain_mapper key_profile_hid (codes "hid")) mapper h
        builtin_hid e plain_hid-IsConsistent
  | inr h ↦ elim (Bool-cases (profile == key_profile_android_tv)) [
    | inl a ↦
        moved profile key_profile_android_tv (plain_mapper key_profile_android_tv (codes "android"))
          mapper a builtin_android e plain_android-IsConsistent
    | inr a ↦ elim (Bool-cases (profile == key_profile_google_tv)) [
      | inl g ↦
          let (overrides, o, all) =
            android_overrides-Resolves google_tv_usage_names google_tv_known in
          moved profile key_profile_google_tv (google_mapper overrides) mapper g
            (builtin_google overrides o) e (google_mapper-IsConsistent overrides all)
      | inr g ↦ ground (arith, builtin_none profile h a g)
    ]
  ]
]

abbrev pub IsBuiltin : Text → Type 0
IsBuiltin profile =
    (profile ≡ key_profile_hid)
    ⊎ ((profile ≡ key_profile_android_tv) ⊎ (profile ≡ key_profile_google_tv))

builtin_key_mapper_total :
    (profile : Text)
    → IsBuiltin profile
    → (mapper : KeyMapper) × (builtin_key_mapper profile ≡ some mapper)
builtin_key_mapper_total profile (inl h) =
    (plain_mapper key_profile_hid (codes "hid"), rw h builtin_hid)
builtin_key_mapper_total profile (inr (inl h)) =
    (plain_mapper key_profile_android_tv (codes "android"), rw h builtin_android)
builtin_key_mapper_total profile (inr (inr h)) =
    let (overrides, o, all) = android_overrides-Resolves google_tv_usage_names google_tv_known in
    (google_mapper overrides, rw h (builtin_google overrides o))

-- Each of the three built-in profiles has a mapper, and it resolves every HID usage, to an identity in
-- its own namespace; under the two Android profiles the code is the one that ANDROID_KEY_CODES gives to
-- the name. So no look-up in the tables raises KeyError.
pub builtin_key_mapper-Resolves :
    (profile : Text) (usage : HidUsage)
    → IsBuiltin profile
    → (mapper : KeyMapper) × (builtin_key_mapper profile ≡ some mapper)
      × Resolves mapper.namespace (resolve mapper usage)
builtin_key_mapper-Resolves profile usage known_profile =
    let (mapper, e) = builtin_key_mapper_total profile known_profile in
    (mapper, e, resolve-Resolves mapper usage (builtin_key_mapper-IsConsistent profile mapper e))

abbrev pub google_choice : UsageKey → Option Text → Option KeyIdentity
google_choice key (some name) = named_identity name
google_choice key none = android_identity key

override_choice : Option Text → Option KeyIdentity
override_choice (some name) = named_identity name
override_choice none = none

android_overrides-get :
    (names : Dict UsageKey Text) (overrides : Dict UsageKey KeyIdentity) (key : UsageKey)
    → android_overrides names ≡ some overrides
    → get overrides key ≡ override_choice (get names key)
unfolding android_overrides get override_choice
android_overrides-get [] overrides key e = ground arith
android_overrides-get ((k, name) ∷ names) overrides key e =
    elim (Option-cases (named_identity name)) [
      | inl n ↦ ground arith
      | inr (identity, n) ↦ elim (Option-cases (android_overrides names)) [
        | inl r ↦ ground arith
        | inr (rest, r) ↦ elim (Bool-cases (k == key)) [
          | inl hit ↦ ground arith
          | inr miss ↦ ground (arith, android_overrides-get names rest key r)
        ]
      ]
    ]

resolve-google :
    (overrides : Dict UsageKey KeyIdentity) (usage : HidUsage)
    → android_overrides google_tv_usage_names ≡ some overrides
    → resolve (google_mapper overrides) usage
      ≡ google_choice
          (usage.usage_page, usage.usage_id)
          (get google_tv_usage_names (usage.usage_page, usage.usage_id))
unfolding resolve google_mapper override_choice
resolve-google overrides usage o =
    let key : UsageKey = (usage.usage_page, usage.usage_id) in
    let found = android_overrides-get google_tv_usage_names overrides key o in
    elim (Option-cases (get google_tv_usage_names key)) [
      | inl n ↦
          let g : get overrides (usage.usage_page, usage.usage_id) ≡ none = rw n at found in
          rw (g, n, resolve) refl
      | inr (name, n) ↦
          let (identity, i, _) =
            named_identity-Resolves name
              (all_values-get known google_tv_usage_names key name google_tv_known n) in
          let g : get overrides (usage.usage_page, usage.usage_id) ≡ some identity =
            rw (n, i) at found in
          rw (g, n, resolve) (sym i)
    ]

-- The Google TV profile has a mapper; it gives a usage of its own table the identity of that table's
-- name, and every other usage the identity that the Android TV profile gives it.
pub google_tv-extends :
    (usage : HidUsage)
    → (mapper : KeyMapper) × (builtin_key_mapper key_profile_google_tv ≡ some mapper)
      × (resolve mapper usage
          ≡ google_choice
              (usage.usage_page, usage.usage_id)
              (get google_tv_usage_names (usage.usage_page, usage.usage_id)))
google_tv-extends usage =
    let (overrides, o, all) = android_overrides-Resolves google_tv_usage_names google_tv_known in
    (google_mapper overrides, builtin_google overrides o, resolve-google overrides usage o)
