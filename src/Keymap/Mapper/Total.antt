-- ===== src/Keymap/Mapper/Total.antt =====
-- Every usage has an identity under every built-in profile, and its Android code is that of its name.
use home_assistant_bluetooth.Prelude.{
  ℕ, ◌≡◌, ◌≢◌, refl, Bool, true, ◌&&◌, Option, some, [], ◌∷◌, ◌==◌, nat_eq, pair_eq, text_eq, arith,
  Text, codes, Bool-cases, Option-cases, inl, inr, text_beq_iff, Eq,
}
use mathlib.Core.Bool.{false≢true}
use home_assistant_bluetooth.Prelude.Dict.{Dict, get, has, AllValues, AllValues-get}
use home_assistant_bluetooth.Hid.Types.{HidUsage}
use home_assistant_bluetooth.Keymap.Codes.{android_key_codes}
use home_assistant_bluetooth.Keymap.Tables.{
  UsageKey, android_tv_usage_names, google_tv_usage_names, linux_compat,
}
use home_assistant_bluetooth.Keymap.Mapper.{
  KeyIdentity, KeyMapper, key_profile_android_tv, resolve, android_overrides, named_identity,
  android_identity, android_name, compat_name, hid_identity,
}

-- The loop at the end of keymap.py: every built-in name is an Android KeyEvent name.
abbrev pub known : Text → Bool
known name = has android_key_codes name

unfoldable pub all_values {ℓ} : {K V : Type ℓ} → (V → Bool) → Dict K V → Bool
all_values p [] = true
all_values p ((k, v) ∷ d) = p v && all_values p d

pub all_values-get {ℓ} :
    {K V : Type ℓ} ⦃e : Eq K⦄ (p : V → Bool) (d : Dict K V) (k : K) (v : V)
    → all_values p d ≡ true
    → get d k ≡ some v
    → p v ≡ true
unfolding all_values get
all_values-get p [] k v h g = cc
all_values-get p ((j, w) ∷ d) k v h g = ground (arith, all_values-get p d k v)

android_tv_known : all_values known android_tv_usage_names ≡ true
unfolding all_values has get android_tv_usage_names android_key_codes
android_tv_known = refl

pub google_tv_known : all_values known google_tv_usage_names ≡ true
unfolding all_values has get google_tv_usage_names android_key_codes
google_tv_known = refl

linux_known : all_values (λ (e : ℕ × Text). known e.1) linux_compat ≡ true
unfolding all_values has get linux_compat android_key_codes
linux_known = refl

-- In the Android namespace a code is the one that ANDROID_KEY_CODES gives to the name.
pub record IsIdentity (namespace : Text) (identity : KeyIdentity) : Type 0 where
  pub same : identity.namespace ≡ namespace
  pub coded : namespace ≡ codes "android" → get android_key_codes identity.name ≡ some identity.code

abbrev pub Resolves : Text → Option KeyIdentity → Type 0
Resolves namespace r =
    (identity : KeyIdentity) × (r ≡ some identity) × IsIdentity namespace identity

pub named_identity-Resolves :
    (name : Text) → known name ≡ true → Resolves (codes "android") (named_identity name)
unfolding has named_identity
named_identity-Resolves name h = elim (Option-cases (get android_key_codes name)) [
  | inl e ↦ absurd (false≢true (rw (e, has) at h))
  | inr (code, e) ↦ (
    record { namespace = codes "android"; code = code; name = name },
    rw (e, named_identity),
    record { same = refl; coded = λ _. e },
  )
]

compat_name-known : (key : UsageKey) (name : Text) → compat_name key ≡ some name → known name ≡ true
unfolding compat_name
compat_name-known key name h = elim (Option-cases (get linux_compat key.1)) [
  | inl e ↦ ground arith
  | inr ((linux, found), e) ↦
      let same : found ≡ name = ground arith in
      rw same at (
        all_values-get (λ (e : ℕ × Text). known e.1) linux_compat key.1 (linux, found) linux_known
          e)
]

unknown_known : known (codes "UNKNOWN") ≡ true
unfolding has get android_key_codes
unknown_known = refl

android_name-known : (key : UsageKey) → known (android_name key) ≡ true
unfolding android_name
android_name-known key = elim (Option-cases (get android_tv_usage_names key)) [
  | inr (name, e) ↦
      rw (e, android_name) (all_values-get known android_tv_usage_names key name android_tv_known e)
  | inl e ↦ elim (Option-cases (compat_name key)) [
    | inr (name, c) ↦ rw (e, c, android_name) (compat_name-known key name c)
    | inl c ↦ rw (e, c, android_name) unknown_known
  ]
]

-- A mapper whose overrides and base agree with its namespace.
pub record IsConsistent (mapper : KeyMapper) : Type 0 where
  pub on_android : mapper.base ≡ key_profile_android_tv → mapper.namespace ≡ codes "android"
  pub elsewhere : mapper.base ≢ key_profile_android_tv → mapper.namespace ≡ codes "hid"
  pub overriding : AllValues (IsIdentity mapper.namespace) mapper.overrides

hid_not_android : ◌≢◌ {A = Text} (codes "hid") (codes "android")
hid_not_android e = ground (arith, text_beq_iff (codes "hid") (codes "android"))

hid_identity-IsIdentity : (usage : HidUsage) → IsIdentity (codes "hid") (hid_identity usage)
unfolding hid_identity
hid_identity-IsIdentity usage = record { same = refl; coded = λ e. absurd (hid_not_android e) }

-- Under a consistent mapper every usage resolves, to an identity in the mapper's namespace; in the
-- Android namespace its code is the one of its name.
pub resolve-Resolves :
    (mapper : KeyMapper) (usage : HidUsage)
    → IsConsistent mapper
    → Resolves mapper.namespace (resolve mapper usage)
unfolding resolve
resolve-Resolves mapper usage c =
    elim (Option-cases (get mapper.overrides (usage.usage_page, usage.usage_id))) [
      | inr (identity, e) ↦ (
        identity,
        rw (e, resolve),
        AllValues-get (IsIdentity mapper.namespace) mapper.overrides
            (usage.usage_page, usage.usage_id) identity c.overriding e,
      )
      | inl e ↦ elim (Bool-cases (mapper.base == key_profile_android_tv)) [
        | inl b ↦
            rw (e, b, resolve, c.on_android ((text_beq_iff mapper.base key_profile_android_tv).0 b))
              (unfold android_identity in
                named_identity-Resolves (android_name (usage.usage_page, usage.usage_id))
                  (android_name-known (usage.usage_page, usage.usage_id)))
        | inr b ↦
            rw
              (
                e,
                b,
                resolve,
                c.elsewhere
                    (λ same. ground (arith, text_beq_iff mapper.base key_profile_android_tv)),
              )
              (hid_identity usage, refl, hid_identity-IsIdentity usage)
      ]
    ]

pub android_overrides-Resolves :
    (names : Dict UsageKey Text)
    → all_values known names ≡ true
    → (overrides : Dict UsageKey KeyIdentity) × (android_overrides names ≡ some overrides)
      × AllValues (IsIdentity (codes "android")) overrides
unfolding android_overrides all_values
android_overrides-Resolves [] h = ([], refl, tt)
android_overrides-Resolves ((usage, name) ∷ names) h =
    let (identity, e, i) = named_identity-Resolves name (ground arith) in
    let (rest, e', r) = android_overrides-Resolves names (ground arith) in
    ((usage, identity) ∷ rest, rw (e, e', android_overrides), (i, r))
