-- ===== src/Pairing/Flow/Released.antt =====
-- Every entry point that starts with nothing held ends with nothing held.
use home_assistant_bluetooth.Prelude.{
  ℕ, zero, suc, ◌≡◌, ◌⊎◌, inl, inr, sym, ◌∙◌, Bool, true, false, Text, arith, Bool-cases,
  Result-cases, Result, ok, err,
}
use mathlib.Core.Bool.{false≢true}
use home_assistant_bluetooth.Pairing.Bonds.{
  Device, PairingError, device_properties, has_hogp_service, verify_existing_bond,
}
use home_assistant_bluetooth.Pairing.Session.{
  Failure, Reply, success, failure, Request, start_discovery, stop_discovery, set_trusted,
  remove_device, requested, bus_opened, Session, Env, Coroutine, continue, recover, outcome_of,
  return, raise, ◌>>◌, try_except, try_finally, log, note, request, now, properties_now, open_bus,
  sleep, poll_hogp_service,
}
use home_assistant_bluetooth.Pairing.Fresh.{
  PairingResult, checked_request, mark_discovery, verified,
}
use home_assistant_bluetooth.Pairing.Fresh.Traces.{
  holds_bus, holds_export, holds_agent, holds_discovery, agent_after, discovery_after, bond_after,
  leaves_bond, IsClean, Interrupted,
}
use home_assistant_bluetooth.Pairing.Fresh.Ends.{Ends, continue-Ends, Reply-cases}
use home_assistant_bluetooth.Pairing.Fresh.CleanUp.{IsReleased}
use home_assistant_bluetooth.Pairing.Flow.{lift_error, disconnect}

-- Nothing is held, and no attempted pairing is left.
pub record Idle (s : Session) : Type 0 where
  pub clean : IsClean s
  pub bond : leaves_bond s.events ≡ false

-- Where a coroutine raises: nothing is held, or its clean-up was cancelled.
abbrev pub Idles : Failure → Session → Type 0
Idles e s = Idle s ⊎ Interrupted s.events

abbrev pub Quiet : {A : Type 0} → Result Failure A × Session → Type 0
Quiet r = Ends (λ a. Idle) Idles r

-- An open bus, and a discovery that is held or not.
pub record Open (d : Bool) (s : Session) : Type 0 where
  pub bus : holds_bus s.events ≡ true
  pub export : holds_export s.events ≡ false
  pub agent : holds_agent s.events ≡ false
  pub discovery : holds_discovery s.events ≡ d
  pub bond : leaves_bond s.events ≡ false

abbrev pub Flagged : Session → Type 0
Flagged s = Open s.discovery_started s

pub Idle-Released : (r : Result Failure PairingResult) (s : Session) → Idle s → IsReleased (r, s)
Idle-Released r s i =
    inl record { clean = i.clean; bond = λ h. absurd (false≢true (sym i.bond ∙ h)) }

pub continue-Quiet :
    {A B : Type 0} (f : A → Coroutine B) (r : Result Failure A × Session)
    → Quiet r
    → ((a : A) (s : Session) → Idle s → Quiet (f a s))
    → Quiet (continue f r)
continue-Quiet f r q k = continue-Ends (λ a. Idle) (λ b. Idle) Idles f r q k

pub continue-Released :
    {A : Type 0} (f : A → Coroutine PairingResult) (r : Result Failure A × Session)
    → Quiet r
    → ((a : A) (s : Session) → Idle s → IsReleased (f a s))
    → IsReleased (continue f r)
continue-Released f (ok a, s) q k = k a s q
continue-Released f (err e, s) (inl i) k = Idle-Released (err e) s i
continue-Released f (err e, s) (inr b) k = inr b

pub lift-Quiet :
    {A : Type 0} (r : Result PairingError A) (s : Session) → Idle s → Quiet (lift_error r s)
lift-Quiet (ok a) s i = i
lift-Quiet (err e) s i = inl i

pub opened-Open : (s : Session) → Idle s → Open false (log bus_opened s)
unfolding log holds_bus holds_export holds_agent holds_discovery leaves_bond
opened-Open s i = ground (arith, i.clean)

pub disconnect-Idle : (s : Session) → Open false s → Idle (disconnect s).1
unfolding disconnect note holds_bus holds_export holds_agent holds_discovery leaves_bond
disconnect-Idle s o = ground arith

pub log-remove :
    (d : Bool) (p : Text) (r : Reply) (s : Session)
    → Open d s
    → Open d (log (requested (remove_device p) r) s)
unfolding log holds_bus holds_export holds_agent holds_discovery agent_after discovery_after
    bond_after leaves_bond
log-remove d p r s o = ground arith

pub log-trust :
    (d : Bool) (p : Text) (r : Reply) (s : Session)
    → Open d s
    → Open d (log (requested (set_trusted p) r) s)
unfolding log holds_bus holds_export holds_agent holds_discovery agent_after discovery_after
    bond_after leaves_bond
log-trust d p r s o = ground arith

pub log-start_failed :
    (a : Text) (f : Failure) (s : Session)
    → Flagged s
    → Flagged (log (requested (start_discovery a) (failure f)) s)
unfolding log holds_bus holds_export holds_agent holds_discovery agent_after discovery_after
    bond_after leaves_bond
log-start_failed a f s o = ground arith

pub log-start_done :
    (a : Text) (s : Session)
    → Flagged s
    → Flagged (mark_discovery (log (requested (start_discovery a) success) s)).1
unfolding log holds_bus holds_export holds_agent holds_discovery agent_after discovery_after
    bond_after leaves_bond mark_discovery
log-start_done a s o = ground arith

pub log-stop :
    (d : Bool) (a : Text) (r : Reply) (s : Session)
    → Open d s
    → Open false (log (requested (stop_discovery a) r) s)
unfolding log holds_bus holds_export holds_agent holds_discovery agent_after discovery_after
    bond_after leaves_bond
log-stop d a r s o = ground arith

module _ (env : Env) where
  pub request-Both :
      (r : Request) (s : Session) (P Q : Session → Type 0)
      → Q (log (requested r success) s)
      → ((f : Failure) → P (log (requested r (failure f)) s))
      → Ends (λ u. Q) (λ f. P) (checked_request env r s)
  unfolding checked_request try_except raise request
  request-Both r s P Q done failed = elim (Reply-cases (env.replies s.time)) [
    | inl e ↦ rw (e, request) done
    | inr (f, e) ↦ rw (e, request) (failed f)
  ]

  pub open_bus-then :
      {A : Type 0} (k : Coroutine A) (s : Session)
      → Idle s
      → Quiet (k (log bus_opened s))
      → Quiet (continue (λ u. k) (open_bus env s))
  unfolding open_bus
  open_bus-then k s i q = elim (Reply-cases (env.opens s.time)) [
    | inl e ↦ rw (e, open_bus) q
    | inr (f, e) ↦
        rw (e, open_bus)
          (inl record {
            clean = record {
              bus = i.clean.bus;
              export = i.clean.export;
              agent = i.clean.agent;
              discovery = i.clean.discovery;
            };
            bond = i.bond;
          })
  ]

  -- `try: … finally: bus.disconnect()` on an open bus.
  disconnected-Quiet :
      {A : Type 0} (r : Result Failure A × Session)
      → Ends (λ a. Open false) (λ f. Open false) r
      → Quiet (outcome_of r.0 (disconnect r.1))
  unfolding disconnect
  disconnected-Quiet (ok a, s) o = unfold disconnect in disconnect-Idle s o
  disconnected-Quiet (err e, s) o = inl (disconnect-Idle s o)

  pub properties_now-Quiet : (p : Text) (s : Session) → Idle s → Quiet (properties_now env p s)
  unfolding properties_now
  properties_now-Quiet p s i = elim (Result-cases (device_properties (now env s) p)) [
    | inl (d, e) ↦ rw (e, properties_now) i
    | inr (x, e) ↦ rw (e, properties_now) (inl i)
  ]

  pub sleep-Idle : (s : Session) → Idle s → Quiet (sleep env s)
  unfolding sleep
  sleep-Idle s i = elim (Reply-cases (env.sleeps s.time)) [
    | inl e ↦
        rw (e, sleep)
          record {
            clean = record {
              bus = i.clean.bus;
              export = i.clean.export;
              agent = i.clean.agent;
              discovery = i.clean.discovery;
            };
            bond = i.bond;
          }
    | inr (f, e) ↦
        rw (e, sleep)
          (inl record {
            clean = record {
              bus = i.clean.bus;
              export = i.clean.export;
              agent = i.clean.agent;
              discovery = i.clean.discovery;
            };
            bond = i.bond;
          })
  ]

  pub poll-Quiet : (n : ℕ) (p : Text) (s : Session) → Idle s → Quiet (poll_hogp_service env n p s)
  unfolding poll_hogp_service
  poll-Quiet zero p s i = elim (Bool-cases (has_hogp_service (now env s) p)) [
    | inl e ↦ rw (e, poll_hogp_service) i
    | inr e ↦ rw (e, poll_hogp_service) (inl i)
  ]
  poll-Quiet (suc n) p s i = elim (Bool-cases (has_hogp_service (now env s) p)) [
    | inl e ↦ rw (e, poll_hogp_service) i
    | inr e ↦
        rw (e, poll_hogp_service)
          (continue-Quiet _ (sleep env s) (sleep-Idle s i) (λ u t k. poll-Quiet n p t k))
  ]

  pub verified-Quiet : (p : Text) (d : Device) (s : Session) → Idle s → Quiet (verified env p d s)
  unfolding verified
  verified-Quiet p d s i = elim (Result-cases (verify_existing_bond (now env s) p d)) [
    | inl (u, e) ↦ rw (e, verified) i
    | inr (x, e) ↦ rw (e, verified) (inl i)
  ]

  pub re_raised-Quiet :
      {A : Type 0} (g : Failure → Failure) (r : Result Failure A × Session)
      → Quiet r
      → Quiet (recover (λ f. raise (g f)) r)
  unfolding raise
  re_raised-Quiet g (ok a, s) q = q
  re_raised-Quiet g (err e, s) q = q

  -- One request on an open bus, which is disconnected in the end.
  pub bus_call-Quiet :
      {A : Type 0} (r : Request) (a : A) (s : Session)
      → Idle s
      → ((p : Reply) (s : Session) → Open false s → Open false (log (requested r p) s))
      → Quiet (
          continue
            (λ u. try_finally (checked_request env r) disconnect >> return a)
            (open_bus env s))
  unfolding ◌>>◌ try_finally return
  bus_call-Quiet r a s i keep = open_bus-then _ s i (
      continue-Quiet _ _
        (disconnected-Quiet (checked_request env r (log bus_opened s)) (
          request-Both r (log bus_opened s) (Open false) (Open false)
            (keep success (log bus_opened s) (opened-Open s i))
            (λ f. keep (failure f) (log bus_opened s) (opened-Open s i))))
        (λ u t k. k))
