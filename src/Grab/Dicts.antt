-- ===== src/Grab/Dicts.antt =====
-- Dicts whose keys differ, and how often a value stands in one.
use home_assistant_bluetooth.Prelude.{
  ℕ, ◌+◌, ◌≡◌, refl, inl, inr, Bool, true, false, ◌||◌, some, [], ◌∷◌, ◌==◌, nat_eq, text_eq,
  text_beq_iff, arith, Text, Bool-cases, if◌then◌else◌,
}
use home_assistant_bluetooth.Prelude.Dict.{Dict, get, put, pop, has, get-put, get-pop}

abbrev pub bit : Bool → ℕ
bit true = 1
bit false = 0

-- How many entries have the value.
unfoldable pub owners : ℕ → Dict Text ℕ → ℕ
owners fd [] = 0
owners fd ((path, held) ∷ d) = bit (held == fd) + owners fd d

abbrev pub Distinct : Dict Text ℕ → Type 0
Distinct [] = Unit
Distinct ((path, fd) ∷ d) = (has d path ≡ false) × Distinct d

pub has-put : (d : Dict Text ℕ) (k j : Text) (v : ℕ) → has (put d k v) j ≡ (k == j || has d j)
unfolding has
has-put d k j v = ground (arith, get-put d k j v)

pub has-pop : (d : Dict Text ℕ) (k j : Text) → has (pop d k) j ≡ (if k == j then false else has d j)
unfolding has
has-pop d k j = ground (arith, get-pop d k j)

pub put-Distinct :
    (d : Dict Text ℕ) (k : Text) (v : ℕ) → has d k ≡ false → Distinct d → Distinct (put d k v)
unfolding put has get
put-Distinct [] k v h u = (refl, tt)
put-Distinct ((j, w) ∷ d) k v h u = elim (Bool-cases (j == k)) [
  | inl e ↦ rw e u
  | inr e ↦ rw e (
    ground (arith, has-put d k j v, text_beq_iff j k, text_beq_iff k j, u.0),
    put-Distinct d k v (ground arith) u.1,
  )
]

pub pop-Distinct : (d : Dict Text ℕ) (k : Text) → Distinct d → Distinct (pop d k)
unfolding pop
pop-Distinct [] k u = tt
pop-Distinct ((j, w) ∷ d) k u = elim (Bool-cases (j == k)) [
  | inl e ↦ rw e (pop-Distinct d k u.1)
  | inr e ↦ rw e (ground (arith, has-pop d k j, u.0), pop-Distinct d k u.1)
]

pub owners-put :
    (fd v : ℕ) (d : Dict Text ℕ) (k : Text)
    → has d k ≡ false
    → owners fd (put d k v) ≡ bit (v == fd) + owners fd d
unfolding owners put has get
owners-put fd v [] k h = refl
owners-put fd v ((j, w) ∷ d) k h = ground (arith, owners-put fd v d k)

pop-absent : (d : Dict Text ℕ) (k : Text) → has d k ≡ false → pop d k ≡ d
unfolding pop has get
pop-absent [] k h = refl
pop-absent ((j, w) ∷ d) k h = ground (arith, pop-absent d k)

pub owners-pop :
    (fd v : ℕ) (d : Dict Text ℕ) (k : Text)
    → Distinct d
    → get d k ≡ some v
    → bit (v == fd) + owners fd (pop d k) ≡ owners fd d
unfolding owners pop get
owners-pop fd v [] k u g = ground arith
owners-pop fd v ((j, w) ∷ d) k u g = elim (Bool-cases (j == k)) [
  | inl e ↦
      let same : j ≡ k = (text_beq_iff j k).0 e in
      let absent : has d k ≡ false = rw same at u.0 in ground (arith, pop-absent d k absent)
  | inr e ↦ ground (arith, owners-pop fd v d k u.1 (ground arith))
]
