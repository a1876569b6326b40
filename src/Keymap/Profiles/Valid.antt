-- ===== src/Keymap/Profiles/Valid.antt =====
-- Every identity of an accepted custom profile agrees with the profile's namespace.
use home_assistant_bluetooth.Prelude.{
  ℕ, ◌≡◌, ◌≢◌, refl, sym, ◌∙◌, inl, inr, true, false, Option, none, some, [], ◌∷◌, ◌==◌, nat_eq,
  pair_eq, text_eq, arith, Text, codes, Bool-cases, Option-cases, text_beq_iff,
}
use mathlib.Core.Path.{subst}
use mathlib.Core.Bool.{false≢true}
use home_assistant_bluetooth.Prelude.Int.{pos}
use home_assistant_bluetooth.Prelude.Dict.{Dict, get, put, AllValues, AllValues-put}
use home_assistant_bluetooth.Keymap.Codes.{android_key_codes}
use home_assistant_bluetooth.Keymap.Tables.{UsageKey}
use home_assistant_bluetooth.Keymap.Names.{strip, is_space, normalize_android_name}
use home_assistant_bluetooth.Keymap.Mapper.{KeyIdentity, named_identity}
use home_assistant_bluetooth.Keymap.Mapper.Total.{IsIdentity, IsConsistent}
use home_assistant_bluetooth.Keymap.Profiles.{
  Value, text, integer, mapping, Entries, no_entries, entry, field, only, parse_usage_key,
  is_android, is_android_key, explicit_identity, parse_mapping_value, parse_mappings,
  CustomKeyProfile, mapper,
}

-- What holds of a result, where there is one.
abbrev pub Given {ℓ} : {A : Type 0} → (A → Type ℓ) → Option A → Type ℓ
Given P none = Unit
Given P (some a) = P a

pub Given-some {ℓ} :
    {A : Type 0} (P : A → Type ℓ) (r : Option A) (a : A) → Given P r → r ≡ some a → P a
Given-some P none a g e = cc
Given-some P (some b) a g e = let same : b ≡ a = ground arith in subst P same g

-- A bind of Option: every result of the whole comes from a result of the part.
pub Given-elim {ℓ} :
    {A B : Type 0} (P : B → Type ℓ) (f : A → Option B) (r : Option A)
    → ((a : A) → r ≡ some a → Given P (f a))
    → Given P (elim r [ none ↦ none | some a ↦ f a ])
Given-elim P f none k = tt
Given-elim P f (some a) k = k a refl

named_identity-IsIdentity :
    (name : Text) → Given (IsIdentity (codes "android")) (named_identity name)
unfolding named_identity
named_identity-IsIdentity name = elim (Option-cases (get android_key_codes name)) [
  | inl e ↦ rw (e, named_identity) tt
  | inr (code, e) ↦ rw (e, named_identity) record { same = refl; coded = λ a. e }
]

is_android_key-get :
    (name : Text) (code : ℕ)
    → is_android_key name code ≡ true
    → get android_key_codes name ≡ some code
unfolding is_android_key
is_android_key-get name code h = elim (Option-cases (get android_key_codes name)) [
  | inl e ↦ absurd (false≢true (rw (e, is_android_key) at h))
  | inr (c, e) ↦
      let hit : (c == code) ≡ true = rw (e, is_android_key) at h in
      rw ((nat_eq.beq_iff c code).0 hit) at e
]

not_android : (namespace : Text) → is_android namespace ≡ false → namespace ≢ codes "android"
unfolding is_android
not_android namespace h same =
    false≢true (sym h ∙ (text_beq_iff namespace (codes "android")).1 same)

android_same : (namespace : Text) → is_android namespace ≡ true → namespace ≡ codes "android"
unfolding is_android
android_same namespace h = (text_beq_iff namespace (codes "android")).0 h

-- A key_code and a key_name that are accepted agree with the namespace.
explicit-IsIdentity :
    (code : ℕ) (key_name namespace : Text)
    → Given
        (IsIdentity namespace)
        (explicit_identity (some (integer (pos code))) (some (text key_name)) namespace)
unfolding explicit_identity
explicit-IsIdentity code key_name namespace = elim (Bool-cases (strip is_space key_name == [])) [
  | inl e ↦ rw (e, explicit_identity) tt
  | inr e ↦ elim (Bool-cases (is_android namespace)) [
    | inr a ↦
        rw (e, a, explicit_identity)
          record { same = refl; coded = λ s. absurd (not_android namespace a s) }
    | inl a ↦ elim (Bool-cases (is_android_key (normalize_android_name key_name) code)) [
      | inl k ↦
          rw (e, a, k, explicit_identity)
            record {
              same = refl;
              coded = λ s. is_android_key-get (normalize_android_name key_name) code k;
            }
      | inr k ↦ rw (e, a, k, explicit_identity) tt
    ]
  ]
]

explicit_identity-IsIdentity :
    (code key_name : Option Value) (namespace : Text)
    → Given (IsIdentity namespace) (explicit_identity code key_name namespace)
unfolding explicit_identity
explicit_identity-IsIdentity (some (integer (pos n))) (some (text s)) namespace =
    unfold explicit_identity in explicit-IsIdentity n s namespace
explicit_identity-IsIdentity _ _ namespace = tt

parse_mapping_value-IsIdentity :
    (value : Value) (usage_key : UsageKey) (namespace : Text)
    → Given (IsIdentity namespace) (parse_mapping_value value usage_key namespace)
unfolding parse_mapping_value
parse_mapping_value-IsIdentity (text s) usage_key namespace =
    elim (Bool-cases (is_android namespace)) [
      | inl a ↦
          rw (a, parse_mapping_value, android_same namespace a)
            (named_identity-IsIdentity (normalize_android_name s))
      | inr a ↦
          rw (a, parse_mapping_value)
            record { same = refl; coded = λ s. absurd (not_android namespace a s) }
    ]
parse_mapping_value-IsIdentity (mapping raw) usage_key namespace =
    elim (Bool-cases (only (codes "key_code" ∷ codes "key_name" ∷ []) raw)) [
      | inl e ↦
          rw (e, parse_mapping_value)
            (explicit_identity-IsIdentity (field raw (codes "key_code"))
              (field raw (codes "key_name")) namespace)
      | inr e ↦ rw (e, parse_mapping_value) tt
    ]
parse_mapping_value-IsIdentity _ usage_key namespace = tt

pub parse_mappings-AllValues :
    (raw : Entries) (namespace : Text) (mappings : Dict UsageKey KeyIdentity)
    → AllValues (IsIdentity namespace) mappings
    → Given (AllValues (IsIdentity namespace)) (parse_mappings raw namespace mappings)
unfolding parse_mappings
parse_mappings-AllValues no_entries namespace mappings h = h
parse_mappings-AllValues (entry key value rest) namespace mappings h =
    Given-elim _ _ (parse_usage_key key) (λ usage_key e.
      Given-elim _ _ (parse_mapping_value value usage_key namespace) (λ identity f.
        parse_mappings-AllValues rest namespace (put mappings usage_key identity) (
          AllValues-put (IsIdentity namespace) mappings usage_key identity h (
            Given-some (IsIdentity namespace) _ identity
              (parse_mapping_value-IsIdentity value usage_key namespace) f))))

-- A profile of this name whose mapper is consistent.
pub record IsUsable (profile : Text) (custom : CustomKeyProfile) : Type 0 where
  pub named : custom.name ≡ profile
  pub consistent : IsConsistent (mapper custom)
