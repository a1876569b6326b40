-- ===== src/Pairing/Flow/Rebuilds.antt =====
-- A bond is rebuilt only where that was asked for.
use home_assistant_bluetooth.Prelude.{
  ◌≡◌, sym, inl, inr, refl, Bool, true, false, ◌||◌, Text, arith, Bool-cases, Result-cases, Result,
  ok, err,
}
use mathlib.Core.Bool.{false≢true}
use home_assistant_bluetooth.Pairing.Bonds.{
  Device, service_pending, verification, verify_existing_bond,
}
use home_assistant_bluetooth.Pairing.Session
use home_assistant_bluetooth.Pairing.Session.{
  Failure, pairing, Session, Env, Coroutine, continue, ◌>>◌, return, now, properties_now,
}
use home_assistant_bluetooth.Pairing.Fresh.{PairingResult, verified}
use home_assistant_bluetooth.Pairing.Fresh.Ends.{Ends}
use home_assistant_bluetooth.Pairing.Fresh.Verified.{Anyhow, anything}
use home_assistant_bluetooth.Pairing.Flow.{
  find_device, pending_bond, check_bond, after_check, timeout_becomes, pair_found, pair_with,
  pair_once, pair_hogp_device,
}

-- Where no result asks for a rebuild, the rebuild does not matter.
continue-same :
    {A B : Type 0} (P : A → Type 0) (f g : A → Coroutine B) (r : Result Failure A × Session)
    → Ends (λ a s. P a) Anyhow r
    → ((a : A) (s : Session) → P a → f a s ≡ g a s)
    → continue f r ≡ continue g r
continue-same P f g (ok a, s) p k = k a s p
continue-same P f g (err e, s) p k = refl

-- No rebuild is asked for, where a check returns at all.
abbrev Kept : Result Failure Bool × Session → Type 0
Kept r = Ends (λ b t. b ≡ false) Anyhow r

then-Kept :
    {A : Type 0} (f : A → Coroutine Bool) (r : Result Failure A × Session)
    → ((a : A) (s : Session) → Kept (f a s))
    → Kept (continue f r)
then-Kept f (ok a, s) k = k a s
then-Kept f (err e, s) k = tt

module _ (env : Env) (address : Text) where
  pending_bond-Kept : (p : Text) (s : Session) → Kept (pending_bond env address p false s)
  unfolding pending_bond ◌>>◌ Session.◌>>=◌ return
  pending_bond-Kept p s =
      then-Kept {A = Unit {0}} _
        (Session.try_except (Session.wait_for_hogp_service env p)
          (λ f. Session.raise (timeout_becomes service_pending f)) s)
        (λ u t.
          then-Kept _ (properties_now env p t)
            (λ d t. then-Kept {A = Unit {0}} _ (verified env p d t) (λ u t. refl)))

  check_bond-Kept :
      (p : Text) (d : Device) (s : Session) → Kept (check_bond env address p d false s)
  unfolding check_bond
  check_bond-Kept p d s = elim (Result-cases (verify_existing_bond (now env s) p d)) [
    | inl (u, e) ↦ rw (e, check_bond) refl
    | inr (service_pending, e) ↦ rw (e, check_bond) (pending_bond-Kept p s)
    | inr (verification, e) ↦ rw (e, check_bond) tt
    | inr (x, e) ↦ rw (e, check_bond) (ground arith)
  ]

  module _ (r r' : Coroutine PairingResult) where
    after_check-same :
        (p : Text) (d : Device) (b : Bool) (s : Session)
        → b ≡ false
        → after_check env address r p d b s ≡ after_check env address r' p d b s
    unfolding after_check
    after_check-same p d true s h = absurd (false≢true (sym h))
    after_check-same p d false s h = refl

    pair_found-same :
        (p : Text) (d : Device) (s : Session)
        → pair_found env address r false p d s ≡ pair_found env address r' false p d s
    unfolding pair_found Session.◌>>=◌
    pair_found-same p d s = elim (Bool-cases (d.paired || d.bonded)) [
      | inl e ↦
          rw (e, pair_found)
            (continue-same (λ b. b ≡ false) _ _ (check_bond env address p d false s)
              (check_bond-Kept p d s) (λ b t h. after_check-same p d b t h))
      | inr e ↦ rw (e, pair_found) refl
    ]

    -- Without permission to replace a bond, a pairing never reaches the rebuild.
    pair_with-same :
        (s : Session) → pair_with env address r false s ≡ pair_with env address r' false s
    unfolding pair_with Session.◌>>=◌
    pair_with-same s =
        continue-same (λ p. Unit) _ _ (find_device env address s) (anything _)
          (λ p s u.
            continue-same (λ d. Unit) _ _ (properties_now env p s) (anything _)
              (λ d s u. pair_found-same p d s))

  -- Without permission to replace a bond, pairing a remote is the pairing that has no rebuild.
  pub pair_hogp_device-same :
      (s : Session) → pair_hogp_device env address false s ≡ pair_once env address s
  unfolding pair_hogp_device pair_once
  pair_hogp_device-same s = pair_with-same _ _ s
