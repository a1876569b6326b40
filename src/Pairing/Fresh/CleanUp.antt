-- ===== src/Pairing/Fresh/CleanUp.antt =====
-- The `finally` of a pairing releases what its flags say, and removes the bond of a failed attempt.
use home_assistant_bluetooth.Prelude.{
  ◌≡◌, sym, ap, ◌∙◌, ◌⊎◌, inl, inr, refl, Bool, true, false, ◌&&◌, not, ◌∷◌, Text, arith, Result,
  ok, err,
}
use mathlib.Core.Bool.{false≢true}
use home_assistant_bluetooth.Pairing.Bonds.{Device, service_pending}
use home_assistant_bluetooth.Pairing.Session
use home_assistant_bluetooth.Pairing.Session.{
  Failure, pairing, dbus, timeout, other_exception, cancelled, Reply, success, failure, Request,
  stop_discovery, unregister_agent, remove_device, requested, Session, Env, Coroutine, continue,
  recover, outcome_of, result_of, return, raise, try_except, try_finally, swallow, log, note,
  request, open_bus, bus_opened,
}
use home_assistant_bluetooth.Pairing.Fresh.{
  PairingResult, released, fresh_clean_up, drop_bond, drop_agent, drop_discovery,
  unexport_and_disconnect, prepare, fresh_body, pair_fresh,
}
use home_assistant_bluetooth.Pairing.Fresh.Traces.{
  holds_bus, holds_export, holds_agent, holds_discovery, agent_after, discovery_after, bond_after,
  leaves_bond, Tracks, IsClean, Interrupted,
}
use home_assistant_bluetooth.Pairing.Fresh.Ends.{Ends, continue-Ends, Reply-cases}
use home_assistant_bluetooth.Pairing.Fresh.Mid.{Mid, Stops}
use home_assistant_bluetooth.Pairing.Fresh.Body.{fresh_body-Ends}

abbrev Broken : Failure → Session → Type 0
Broken e s = Interrupted s.events

-- What is left after the removal, and after the agent is unregistered.
record Removed (c : Bool) (s : Session) : Type 0 where
  tracks : Tracks s
  bond : c ≡ false → leaves_bond s.events ≡ false

record Unregistered (c : Bool) (s : Session) : Type 0 where
  bus : holds_bus s.events ≡ true
  export : holds_export s.events ≡ true
  agent : holds_agent s.events ≡ false
  discovery : holds_discovery s.events ≡ s.discovery_started
  bond : c ≡ false → leaves_bond s.events ≡ false

record Stopped (c : Bool) (s : Session) : Type 0 where
  agent : holds_agent s.events ≡ false
  discovery : holds_discovery s.events ≡ false
  bond : c ≡ false → leaves_bond s.events ≡ false

-- Nothing is held, and no bond of a pairing that did not complete is left.
pub record Cleaned (c : Bool) (s : Session) : Type 0 where
  pub clean : IsClean s
  pub bond : c ≡ false → leaves_bond s.events ≡ false

log-remove :
    (d : Text) (p : Reply) (c : Bool) (s : Session)
    → Tracks s
    → Removed c (log (requested (remove_device d) p) s)
unfolding log holds_bus holds_export holds_agent holds_discovery agent_after discovery_after
    bond_after leaves_bond
log-remove d p c s m = ground arith

kept-Removed :
    (s : Session)
    → (s.pair_started && not s.pair_complete) ≡ false
    → Tracks s
    → Removed s.pair_complete s
kept-Removed s h m = record { tracks = m; bond = λ c. ground (arith, m.attempted) }

log-unregister :
    (p : Reply) (c : Bool) (s : Session)
    → Removed c s
    → Unregistered c (log (requested unregister_agent p) s)
unfolding log holds_bus holds_export holds_agent holds_discovery agent_after discovery_after
    bond_after leaves_bond
log-unregister p c s m = ground arith

kept-Unregistered :
    (c : Bool) (s : Session) → s.agent_registered ≡ false → Removed c s → Unregistered c s
kept-Unregistered c s h m = ground arith

log-stop :
    (a : Text) (p : Reply) (c : Bool) (s : Session)
    → Unregistered c s
    → Stopped c (log (requested (stop_discovery a) p) s)
unfolding log holds_bus holds_export holds_agent holds_discovery agent_after discovery_after
    bond_after leaves_bond
log-stop a p c s m = ground arith

kept-Stopped :
    (c : Bool) (s : Session) → s.discovery_started ≡ false → Unregistered c s → Stopped c s
kept-Stopped c s h m = ground arith

unexport-Cleaned : (c : Bool) (s : Session) → Stopped c s → Cleaned c (unexport_and_disconnect s).1
unfolding unexport_and_disconnect note holds_bus holds_export holds_agent holds_discovery
    leaves_bond
unexport-Cleaned c s m = ground arith

module _ (env : Env) where
  pub released-Ends :
      (r : Request) (flag : Bool) (s : Session) (Q : Session → Type 0)
      → (flag ≡ true → (p : Reply) → Q (log (requested r p) s))
      → (flag ≡ false → Q s)
      → Interrupted (requested r (failure cancelled) ∷ s.events)
      → Ends (λ u. Q) Broken (released env r flag s)
  unfolding released try_except request swallow return log
  released-Ends r true s Q done kept broken = elim (Reply-cases (env.replies s.time)) [
    | inl e ↦ rw (e, request) (done refl success)
    | inr (cancelled, e) ↦ rw (e, request) broken
    | inr (pairing x, e) ↦ rw (e, request) (done refl (failure (pairing x)))
    | inr (dbus n d, e) ↦ rw (e, request) (done refl (failure (dbus n d)))
    | inr (timeout, e) ↦ rw (e, request) (done refl (failure timeout))
    | inr (other_exception, e) ↦ rw (e, request) (done refl (failure other_exception))
  ]
  released-Ends r false s Q done kept broken = kept refl

  fresh_clean_up-Ends :
      (device_path adapter_path : Text) (s : Session)
      → Tracks s
      → Ends (λ u. Cleaned s.pair_complete) Broken (fresh_clean_up env device_path adapter_path s)
  unfolding fresh_clean_up drop_bond drop_agent drop_discovery unexport_and_disconnect Session.◌>>◌
  fresh_clean_up-Ends device_path adapter_path s m =
      let c = s.pair_complete in
      continue-Ends (λ u. Removed c) (λ u. Cleaned c) Broken _ (drop_bond env device_path s)
        (released-Ends (remove_device device_path) (s.pair_started && not s.pair_complete) s
          (Removed c) (λ h p. log-remove device_path p c s m) (λ h. kept-Removed s h m) m.export)
        (λ u t k.
          continue-Ends (λ u. Unregistered c) (λ u. Cleaned c) Broken _ (drop_agent env t)
            (released-Ends unregister_agent t.agent_registered t (Unregistered c)
              (λ h p. log-unregister p c t k) (λ h. kept-Unregistered c t h k) tt)
            (λ u t k.
              continue-Ends (λ u. Stopped c) (λ u. Cleaned c) Broken _
                (drop_discovery env adapter_path t)
                (released-Ends (stop_discovery adapter_path) t.discovery_started t (Stopped c)
                  (λ h p. log-stop adapter_path p c t k) (λ h. kept-Stopped c t h k) k.agent)
                (λ u t k. unexport-Cleaned c t k)))

-- How a pairing ends: nothing is held any more, and a bond is left only by a pairing that succeeded or
-- whose services are still pending.
pub record Released (r : Result Failure PairingResult) (s : Session) : Type 0 where
  pub clean : IsClean s
  pub bond :
      leaves_bond s.events ≡ true
      → ((result : PairingResult) × (r ≡ ok result)) ⊎ (r ≡ err (pairing service_pending))

abbrev pub IsReleased : Result Failure PairingResult × Session → Type 0
IsReleased (r, s) = Released r s ⊎ Interrupted s.events

succeeds-Released :
    (a : PairingResult) (c : Bool) (r : Result Failure (Unit {0}) × Session)
    → Ends (λ u. Cleaned c) Broken r
    → IsReleased (outcome_of (ok a) r)
succeeds-Released a c (ok u, s) m = inl record { clean = m.clean; bond = λ h. inl (a, refl) }
succeeds-Released a c (err e, s) m = inr m

fails-Released :
    (e : Failure) (c : Bool) (r : Result Failure (Unit {0}) × Session)
    → (c ≡ true → e ≡ pairing service_pending)
    → Ends (λ u. Cleaned c) Broken r
    → IsReleased (outcome_of (err e) r)
fails-Released e true (ok u, s) p m =
    inl record { clean = m.clean; bond = λ h. inr (ap err (p refl)) }
fails-Released e false (ok u, s) p m =
    inl record { clean = m.clean; bond = λ h. absurd (false≢true (sym (m.bond refl) ∙ h)) }
fails-Released e c (err f, s) p m = inr m

module _ (env : Env) (device_path adapter_path : Text) (initial : Device) where
  body_done :
      (r : Result Failure PairingResult × Session)
      → Ends (λ a. Tracks) Stops r
      → IsReleased (outcome_of r.0 (fresh_clean_up env device_path adapter_path r.1))
  body_done (ok a, s) m =
      succeeds-Released a s.pair_complete (fresh_clean_up env device_path adapter_path s)
        (fresh_clean_up-Ends env device_path adapter_path s m)
  body_done (err e, s) m =
      fails-Released e s.pair_complete (fresh_clean_up env device_path adapter_path s) m.pending
        (fresh_clean_up-Ends env device_path adapter_path s m.tracks)

  prepared-Mid :
      (s : Session)
      → IsClean s
      → leaves_bond s.events ≡ false
      → Mid (prepare env (log bus_opened s)).1
  unfolding prepare log note holds_bus holds_export holds_agent holds_discovery leaves_bond
  prepared-Mid s c b = ground (arith, c.agent, c.discovery)

  -- A pairing that starts from nothing held ends with nothing held, whatever BlueZ answers and wherever
  -- the task is cancelled: the bus is disconnected, the agent unexported, an unregistration was asked for
  -- after a registration and a stop after a start of discovery. A removal of the device was asked for
  -- after every attempt, unless the pairing succeeds or only its services are still pending. The one
  -- exception is a cancellation while a call of the clean-up itself is awaited: that call is then the
  -- last event.
  pub pair_fresh-IsReleased :
      (s : Session)
      → IsClean s
      → leaves_bond s.events ≡ false
      → IsReleased (pair_fresh env device_path adapter_path initial s)
  unfolding pair_fresh prepare open_bus Session.◌>>◌ try_finally
  pair_fresh-IsReleased s c b = elim (Reply-cases (env.opens s.time)) [
    | inl e ↦
        rw (e, open_bus)
          (body_done
            (fresh_body env device_path adapter_path initial (prepare env (log bus_opened s)).1)
            (fresh_body-Ends env device_path adapter_path initial (prepare env (log bus_opened s)).1
              (prepared-Mid s c b)))
    | inr (f, e) ↦
        rw (e, open_bus)
          (inl record {
            clean = record {
              bus = c.bus;
              export = c.export;
              agent = c.agent;
              discovery = c.discovery;
            };
            bond = λ h. absurd (false≢true (sym b ∙ h));
          })
  ]
