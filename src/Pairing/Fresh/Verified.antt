-- ===== src/Pairing/Fresh/Verified.antt =====
-- What a successful pairing has checked.
use home_assistant_bluetooth.Prelude.{
  ℕ, ◌≡◌, inl, inr, refl, Option, none, some, Text, arith, Result-cases, Result, ok, err,
}
use home_assistant_bluetooth.Pairing.Bonds.{
  Device, PairingError, device_properties, verify_existing_bond,
}
use home_assistant_bluetooth.Pairing.Session
use home_assistant_bluetooth.Pairing.Session.{
  Failure, pairing, Session, Env, Coroutine, continue, recover, outcome_of, return, raise,
  try_except, try_finally, note, request, now, properties_now, open_bus, bus_opened, log, success,
  set_trusted, start_discovery, register_agent, request_default_agent, wait_for_hogp_service,
}
use home_assistant_bluetooth.Pairing.Fresh.{
  PairingResult, verified, finishing, forget_timeout, settle, finish, conclude, fresh_body,
  pair_fresh, prepare, fresh_clean_up, checked_request, prefer_le, mark_discovery, mark_agent,
  mark_pair, attempt,
}
use home_assistant_bluetooth.Pairing.Fresh.Ends.{Ends, continue-Ends, recover-Ends, Reply-cases}

abbrev pub Anyhow : Failure → Session → Type 0
Anyhow e s = Unit

pub anything : {A : Type 0} (r : Result Failure A × Session) → Ends (λ a s. Unit) Anyhow r
anything (ok a, s) = tt
anything (err e, s) = tt

module _ (env : Env) (device_path : Text) where
  -- At some moment BlueZ exported the device with a complete bond and its HID service.
  pub record Checked : Type 0 where
    pub checked_at : ℕ
    pub device : Device
    pub exported : device_properties (env.exports checked_at) device_path ≡ ok device
    pub bonded : verify_existing_bond (env.exports checked_at) device_path device ≡ ok tt

  -- A result for the device, which was checked.
  abbrev pub Proven : PairingResult → Type 0
  Proven r = (r.device_path ≡ device_path) × Checked

  trust-Checked :
      (d : Device) (s t : Session)
      → device_properties (now env s) device_path ≡ ok d
      → verify_existing_bond (now env s) device_path d ≡ ok tt
      → Ends (λ u x. Checked) Anyhow (request env (set_trusted device_path) t)
  unfolding request now
  trust-Checked d s t p v = elim (Reply-cases (env.replies t.time)) [
    | inl e ↦ rw (e, request) record { checked_at = s.time; device = d; exported = p; bonded = v }
    | inr (f, e) ↦ rw (e, request) tt
  ]

  verified-Checked :
      (d : Device) (s : Session)
      → device_properties (now env s) device_path ≡ ok d
      → Ends
          (λ u x. Checked)
          Anyhow
          (continue (λ u. request env (set_trusted device_path)) (verified env device_path d s))
  unfolding verified
  verified-Checked d s p = elim (Result-cases (verify_existing_bond (now env s) device_path d)) [
    | inl (tt, e) ↦ rw (e, verified) (trust-Checked d s s p e)
    | inr (x, e) ↦ rw (e, verified) tt
  ]

  finishing-Checked : (s : Session) → Ends (λ u x. Checked) Anyhow (finishing env device_path s)
  unfolding finishing properties_now try_except Session.◌>>◌ Session.◌>>=◌
  finishing-Checked s =
      continue-Ends (λ u x. Unit) (λ u x. Checked) Anyhow _
        (recover (forget_timeout env) (wait_for_hogp_service env device_path s)) (anything _)
        (λ u t k. elim (Result-cases (device_properties (now env t) device_path)) [
          | inl (d, e) ↦ rw (e, properties_now) (verified-Checked d t e)
          | inr (x, e) ↦ rw (e, properties_now) tt
        ])

  settle-Checked :
      (f : Failure) (s : Session) → Ends (λ e x. e ≡ none → Checked) Anyhow (settle env f s)
  unfolding settle
  settle-Checked f s = ground arith

  finish-Checked :
      (error : Option PairingError) (s : Session)
      → Ends (λ e x. e ≡ none → Checked) Anyhow (finish env device_path error s)
  unfolding finish try_except return Session.◌>>◌
  finish-Checked (some e) s = λ h. ground arith
  finish-Checked none s =
      recover-Ends (λ e x. e ≡ none → Checked) Anyhow Anyhow (settle env) _
        (continue-Ends (λ u x. Checked) (λ e x. e ≡ none → Checked) Anyhow _
          (finishing env device_path s) (finishing-Checked s) (λ u t c h. c))
        (λ f t u. settle-Checked f t)

  conclude-Checked :
      (error : Option PairingError) (s : Session)
      → (error ≡ none → Checked)
      → Ends (λ r x. Proven r) Anyhow (conclude env device_path error s)
  unfolding conclude
  conclude-Checked (some e) s c = tt
  conclude-Checked none s c = (refl, c refl)

  then-Checked :
      {A : Type 0} (f : A → Coroutine PairingResult) (r : Result Failure A × Session)
      → ((a : A) (s : Session) → Ends (λ r x. Proven r) Anyhow (f a s))
      → Ends (λ r x. Proven r) Anyhow (continue f r)
  then-Checked f r k =
      continue-Ends (λ a x. Unit) (λ r x. Proven r) Anyhow f r (anything r) (λ a s u. k a s)

  fresh_body-Checked :
      (adapter_path : Text) (initial : Device) (s : Session)
      → Ends (λ r x. Proven r) Anyhow (fresh_body env device_path adapter_path initial s)
  unfolding fresh_body Session.◌>>◌ Session.◌>>=◌
  fresh_body-Checked adapter_path initial s =
      then-Checked _ (checked_request env (start_discovery adapter_path) s) (λ u s.
        then-Checked _ (mark_discovery s) (λ u s.
          then-Checked _ (prefer_le env device_path initial s) (λ u s.
            then-Checked _ (checked_request env register_agent s) (λ u s.
              then-Checked _ (mark_agent s) (λ u s.
                then-Checked _ (checked_request env request_default_agent s) (λ u s.
                  then-Checked _ (mark_pair s) (λ u s.
                    then-Checked _ (attempt env device_path s) (λ error s.
                      continue-Ends (λ e x. e ≡ none → Checked) (λ r x. Proven r) Anyhow _
                        (finish env device_path error s) (finish-Checked error s)
                        (λ e t c. conclude-Checked e t c)))))))))

  outcome-Checked :
      (r : Result Failure PairingResult × Session) (c : Result Failure (Unit {0}) × Session)
      → Ends (λ r x. Proven r) Anyhow r
      → Ends (λ r x. Proven r) Anyhow (outcome_of r.0 c)
  outcome-Checked (ok a, s) (ok u, t) h = h
  outcome-Checked (ok a, s) (err e, t) h = tt
  outcome-Checked (err e, s) (ok u, t) h = tt
  outcome-Checked (err e, s) (err f, t) h = tt

  pub pair_fresh-Proven :
      (adapter_path : Text) (initial : Device) (s : Session)
      → Ends (λ r x. Proven r) Anyhow (pair_fresh env device_path adapter_path initial s)
  unfolding pair_fresh try_finally Session.◌>>◌
  pair_fresh-Proven adapter_path initial s = then-Checked _ (open_bus env s) (λ u s.
      then-Checked _ (prepare env s) (λ u s.
        outcome-Checked (fresh_body env device_path adapter_path initial s)
          (fresh_clean_up env device_path adapter_path
            (fresh_body env device_path adapter_path initial s).1)
          (fresh_body-Checked adapter_path initial s)))
