-- ===== src/Prelude/Dict.antt =====
-- Python's dict as a list of entries in insertion order, and its set as a list without repeats.
use mathlib.Core.Path.{◌≡◌, refl, subst}
use mathlib.Core.Logic.{inl, inr}
use mathlib.Core.Bool.{Bool, true, false, ◌||◌}
use mathlib.Core.List.{List, [], ◌∷◌, ◌++◌}
use mathlib.Core.Option.{Option, none, some}
use native.Mathlib.Omega.{arith}
use home_assistant_bluetooth.Prelude.Tests.{if◌then◌else◌, Bool-cases}
use home_assistant_bluetooth.Prelude.Classes.{Eq, ◌==◌}

abbrev pub Dict {ℓ κ} : Type ℓ → Type κ → Type (ℓ ⊔ κ)
Dict K V = List (K × V)

module _ {ℓ κ} {K : Type ℓ} {V : Type κ} ⦃e : Eq K⦄ where
  -- d.get(k)
  unfoldable pub get : Dict K V → K → Option V
  get [] k = none
  get ((j, v) ∷ d) k = if j == k then some v else get d k

  -- d[k] = v: an old key keeps its place.
  unfoldable pub put : Dict K V → K → V → Dict K V
  put [] k v = (k, v) ∷ []
  put ((j, w) ∷ d) k v = if j == k then (j, v) ∷ d else (j, w) ∷ put d k v

  -- d.pop(k, None)
  unfoldable pub pop : Dict K V → K → Dict K V
  pop [] k = []
  pop ((j, v) ∷ d) k = let rest = pop d k in if j == k then rest else (j, v) ∷ rest

  -- d.get(k, default)
  unfoldable pub get_or : Dict K V → K → V → V
  unfolding get
  get_or d k v = elim (get d k) [ none ↦ v | some w ↦ w ]

  -- k in d
  unfoldable pub has : Dict K V → K → Bool
  unfolding get
  has d k = elim (get d k) [ none ↦ false | some _ ↦ true ]

  pub get-put :
      (d : Dict K V) (k j : K) (v : V) → get (put d k v) j ≡ (if k == j then some v else get d j)
  unfolding get put
  get-put [] k j v = refl
  get-put ((i, w) ∷ d) k j v =
      ground (arith, e.beq_iff k j, e.beq_iff i k, e.beq_iff i j, get-put d k j v)

  pub get-pop : (d : Dict K V) (k j : K) → get (pop d k) j ≡ (if k == j then none else get d j)
  unfolding get pop
  get-pop [] k j = ground arith
  get-pop ((i, w) ∷ d) k j =
      ground (arith, e.beq_iff k j, e.beq_iff i k, e.beq_iff i j, get-pop d k j)

  pub get_or-put :
      (d : Dict K V) (k j : K) (v w : V)
      → get_or (put d k v) j w ≡ (if k == j then v else get_or d j w)
  unfolding get_or
  get_or-put d k j v w = ground (arith, get-put d k j v)

pub ruleset dict_laws = (get-put, get-pop, get_or-put)

module _ {ℓ} {K : Type ℓ} ⦃e : Eq K⦄ where
  -- k in s
  unfoldable pub contains : List K → K → Bool
  contains [] k = false
  contains (j ∷ s) k = j == k || contains s k

  -- s.add(k)
  unfoldable pub add : List K → K → List K
  unfolding contains
  add s k = if contains s k then s else s ++ k ∷ []

  -- s.discard(k)
  unfoldable pub discard : List K → K → List K
  discard [] k = []
  discard (j ∷ s) k = let rest = discard s k in if j == k then rest else j ∷ rest

  contains-append_one : (s : List K) (k j : K) → contains (s ++ k ∷ []) j ≡ (contains s j || k == j)
  unfolding contains
  contains-append_one [] k j = ground arith
  contains-append_one (i ∷ s) k j = ground (arith, contains-append_one s k j)

  pub contains-add :
      (s : List K) (k j : K) → contains (add s k) j ≡ (if k == j then true else contains s j)
  unfolding add
  contains-add s k j = ground (arith, e.beq_iff k j, contains-append_one s k j)

  pub contains-discard :
      (s : List K) (k j : K) → contains (discard s k) j ≡ (if k == j then false else contains s j)
  unfolding contains discard
  contains-discard [] k j = ground arith
  contains-discard (i ∷ s) k j =
      ground (arith, e.beq_iff k j, e.beq_iff i k, e.beq_iff i j, contains-discard s k j)

pub ruleset set_laws = (contains-add, contains-discard)

-- A predicate on every value of a dict.
abbrev pub AllValues {ℓ κ ι} : {K : Type ℓ} {V : Type κ} → (V → Type ι) → Dict K V → Type ι
AllValues P [] = Unit
AllValues P ((k, v) ∷ d) = P v × AllValues P d

module _ {ℓ κ ι} {K : Type ℓ} {V : Type κ} ⦃e : Eq K⦄ (P : V → Type ι) where
  pub AllValues-get : (d : Dict K V) (k : K) (v : V) → AllValues P d → get d k ≡ some v → P v
  unfolding get
  AllValues-get [] k v h g = cc
  AllValues-get ((j, w) ∷ d) k v h g = elim (Bool-cases (j == k)) [
    | inl hit ↦ let same : w ≡ v = ground arith in subst P same h.0
    | inr miss ↦ AllValues-get d k v h.1 (ground arith)
  ]

  pub AllValues-put : (d : Dict K V) (k : K) (v : V) → AllValues P d → P v → AllValues P (put d k v)
  unfolding put
  AllValues-put [] k v h p = (p, tt)
  AllValues-put ((j, w) ∷ d) k v h p = elim (Bool-cases (j == k)) [
    | inl hit ↦ rw hit (p, h.1)
    | inr miss ↦ rw miss (h.0, AllValues-put d k v h.1 p)
  ]
