-- ===== src/Pairing/Flow/Verified.antt =====
-- What a result of `async_pair_hogp_device` says of the device.
use home_assistant_bluetooth.Prelude.{
  ◌≡◌, sym, inl, inr, refl, Bool, true, false, ◌||◌, Text, arith, Bool-cases, Result-cases, Result,
  ok, err,
}
use mathlib.Core.Path.{subst}
use mathlib.Core.Bool.{false≢true}
use home_assistant_bluetooth.Pairing.Bonds.{
  Device, service_pending, verification, device_properties, verify_existing_bond,
}
use home_assistant_bluetooth.Pairing.Session
use home_assistant_bluetooth.Pairing.Session.{
  Failure, Session, Env, Coroutine, continue, return, raise, ◌>>◌, try_except, try_finally, now,
  properties_now, open_bus, set_trusted, wait_for_hogp_service,
}
use home_assistant_bluetooth.Pairing.Fresh.{PairingResult, verified, checked_request}
use home_assistant_bluetooth.Pairing.Fresh.Ends.{Ends, continue-Ends}
use home_assistant_bluetooth.Pairing.Fresh.Verified.{
  Anyhow, anything, Checked, Proven, pair_fresh-Proven,
}
use home_assistant_bluetooth.Pairing.Flow.{
  find_device, adapter_of, rebuild_body, rebuild_clean_up, rebuild_hogp_bond, pending_bond,
  check_bond, already, trust_bond, after_check, pair_found, pair_with, pair_once, disconnect,
  no_discovery, timeout_becomes,
}

-- A result names a device that was checked.
abbrev pub Confirmed : Env → PairingResult → Type 0
Confirmed env r = Checked env r.device_path

abbrev pub Confirms : Env → Result Failure PairingResult × Session → Type 0
Confirms env o = Ends (λ r x. Confirmed env r) Anyhow o

then-Confirms :
    {A : Type 0} (env : Env) (f : A → Coroutine PairingResult) (r : Result Failure A × Session)
    → ((a : A) (s : Session) → Confirms env (f a s))
    → Confirms env (continue f r)
then-Confirms env f r k =
    continue-Ends (λ a x. Unit) (λ r x. Confirmed env r) Anyhow f r (anything r) (λ a s u. k a s)

Proven-Confirms :
    (env : Env) (p : Text) (o : Result Failure PairingResult × Session)
    → Ends (λ r x. Proven env p r) Anyhow o
    → Confirms env o
Proven-Confirms env p (ok r, s) h = subst (λ q. Checked env q) (sym h.0) h.1
Proven-Confirms env p (err e, s) h = tt

module _ (env : Env) (address : Text) where
  verified-Checked :
      (p : Text) (d : Device) (s : Session)
      → device_properties (now env s) p ≡ ok d
      → Ends (λ u x. Checked env p) Anyhow (verified env p d s)
  unfolding verified now
  verified-Checked p d s h = elim (Result-cases (verify_existing_bond (now env s) p d)) [
    | inl (tt, e) ↦
        rw (e, verified) record { checked_at = s.time; device = d; exported = h; bonded = e }
    | inr (x, e) ↦ rw (e, verified) tt
  ]

  pending_bond-Checked :
      (p : Text) (b : Bool) (s : Session)
      → Ends (λ b x. b ≡ false → Checked env p) Anyhow (pending_bond env address p b s)
  unfolding pending_bond ◌>>◌ Session.◌>>=◌ return properties_now
  pending_bond-Checked p true s = λ e. absurd (false≢true (sym e))
  pending_bond-Checked p false s =
      continue-Ends {A = Unit {0}} (λ u x. Unit) (λ b x. b ≡ false → Checked env p) Anyhow _
        (try_except (wait_for_hogp_service env p) (λ f. raise (timeout_becomes service_pending f))
          s)
        (anything _)
        (λ u t k. elim (Result-cases (device_properties (now env t) p)) [
          | inl (d, e) ↦
              rw (e, properties_now)
                (continue-Ends (λ u x. Checked env p) (λ b x. b ≡ false → Checked env p) Anyhow _
                  (verified env p d t) (verified-Checked p d t e) (λ u t c e. c))
          | inr (x, e) ↦ rw (e, properties_now) tt
        ])

  -- A check that asks for no rebuild has seen a complete bond.
  check_bond-Checked :
      (p : Text) (d : Device) (b : Bool) (s : Session)
      → device_properties (now env s) p ≡ ok d
      → Ends (λ b x. b ≡ false → Checked env p) Anyhow (check_bond env address p d b s)
  unfolding check_bond now
  check_bond-Checked p d b s h = elim (Result-cases (verify_existing_bond (now env s) p d)) [
    | inl (tt, e) ↦
        rw (e, check_bond)
          (λ k. record { checked_at = s.time; device = d; exported = h; bonded = e })
    | inr (service_pending, e) ↦ rw (e, check_bond) (pending_bond-Checked p b s)
    | inr (verification, e) ↦
        rw (e, check_bond)
          (elim (Bool-cases b) [
            | inl t ↦ rw t (λ k. absurd (false≢true (sym k)))
            | inr f ↦ rw f tt
          ])
    | inr (x, e) ↦ rw (e, check_bond) (ground arith)
  ]

  already-Confirms :
      (p : Text) (s : Session) → Checked env p → Confirms env (already env address p s)
  unfolding already return
  already-Confirms p s c = c

  trust_bond-Confirms :
      (p : Text) (d : Device) (s : Session)
      → Checked env p
      → Confirms env (trust_bond env address p d s)
  unfolding trust_bond ◌>>◌
  trust_bond-Confirms p d s c = elim (Bool-cases (env.reread s.time d).trusted) [
    | inl e ↦ rw (e, trust_bond) (already-Confirms p s c)
    | inr e ↦
        rw (e, trust_bond)
          (then-Confirms env _ (open_bus env s) (λ u s.
            then-Confirms env _ (try_finally (checked_request env (set_trusted p)) disconnect s)
              (λ u s. already-Confirms p s c)))
  ]

  module _ (rebuild : Coroutine PairingResult)
      (rebuilt : (s : Session) → Confirms env (rebuild s)) where
    after_check-Confirms :
        (p : Text) (d : Device) (b : Bool) (s : Session)
        → (b ≡ false → Checked env p)
        → Confirms env (after_check env address rebuild p d b s)
    unfolding after_check
    after_check-Confirms p d true s c = rebuilt s
    after_check-Confirms p d false s c = trust_bond-Confirms p d s (c refl)

    pair_found-Confirms :
        (b : Bool) (p : Text) (d : Device) (s : Session)
        → device_properties (now env s) p ≡ ok d
        → Confirms env (pair_found env address rebuild b p d s)
    unfolding pair_found Session.◌>>=◌
    pair_found-Confirms b p d s h = elim (Bool-cases (d.paired || d.bonded)) [
      | inl e ↦
          rw (e, pair_found)
            (continue-Ends (λ b x. b ≡ false → Checked env p) (λ r x. Confirmed env r) Anyhow _
              (check_bond env address p d b s) (check_bond-Checked p d b s h)
              (λ c t k. after_check-Confirms p d c t k))
      | inr e ↦
          rw (e, pair_found)
            (then-Confirms env _ (adapter_of env address d s)
              (λ a t. Proven-Confirms env p _ (pair_fresh-Proven env p a d t)))
    ]

    pub pair_with-Confirms :
        (b : Bool) (s : Session) → Confirms env (pair_with env address rebuild b s)
    unfolding pair_with properties_now Session.◌>>=◌
    pair_with-Confirms b s = then-Confirms env _ (find_device env address s) (λ p s.
        elim (Result-cases (device_properties (now env s) p)) [
          | inl (d, e) ↦ rw (e, properties_now) (pair_found-Confirms b p d s e)
          | inr (x, e) ↦ rw (e, properties_now) tt
        ])

    pub rebuild_hogp_bond-Confirms :
        (s : Session) → Confirms env (rebuild_hogp_bond env address rebuild s)
    unfolding rebuild_hogp_bond Session.◌>>=◌ ◌>>◌
    rebuild_hogp_bond-Confirms s = then-Confirms env _ (find_device env address s) (λ p s.
        then-Confirms env _ (properties_now env p s) (λ d s.
          then-Confirms env _ (adapter_of env address d s) (λ a s.
            then-Confirms env _ (open_bus env s) (λ u s.
              then-Confirms env _ (no_discovery s) (λ u s.
                then-Confirms env _
                  (try_finally (rebuild_body env address p a) (rebuild_clean_up env address a) s)
                  (λ u s. rebuilt s))))))

  pub pair_once-Confirms : (s : Session) → Confirms env (pair_once env address s)
  unfolding pair_once raise
  pair_once-Confirms s = pair_with-Confirms _ (λ t. tt) false s
