-- ===== src/Pairing/Fresh/Mid.antt =====
-- The states of a pairing between its `try` and its `finally`, and the requests that keep them.
use home_assistant_bluetooth.Prelude.{
  ◌≡◌, refl, Bool, true, false, Text, arith, Result, ok, err, suc,
}
use home_assistant_bluetooth.Pairing.Bonds.{service_pending}
use home_assistant_bluetooth.Pairing.Session.{
  Failure, pairing, Reply, success, failure, Request, start_discovery, stop_discovery,
  set_preferred_bearer, set_trusted, pair, register_agent, request_default_agent, unregister_agent,
  remove_device, requested, Session, log,
}
use home_assistant_bluetooth.Pairing.Fresh.{mark_discovery, mark_agent}
use home_assistant_bluetooth.Pairing.Fresh.Traces.{
  holds_bus, holds_export, holds_agent, holds_discovery, agent_after, discovery_after, bond_after,
  leaves_bond, Tracks,
}
use home_assistant_bluetooth.Pairing.Fresh.Ends.{Ends}

-- Before the verification has an outcome, the pairing is not complete.
pub record Mid (s : Session) : Type 0 where
  pub tracks : Tracks s
  pub incomplete : s.pair_complete ≡ false

-- From Device1.Pair on.
pub record Late (s : Session) : Type 0 where
  pub mid : Mid s
  pub started : s.pair_started ≡ true

pub record Stops (e : Failure) (s : Session) : Type 0 where
  pub tracks : Tracks s
  pub pending : s.pair_complete ≡ true → e ≡ pairing service_pending

pub Mid-Stops : (e : Failure) (s : Session) → Mid s → Stops e s
Mid-Stops e s m = record { tracks = m.tracks; pending = λ c. ground (arith, m.incomplete) }

-- The requests that neither take nor release anything.
abbrev pub is_plain : Request → Bool
is_plain (set_preferred_bearer d) = true
is_plain (set_trusted d) = true
is_plain request_default_agent = true
is_plain _ = false

pub log-Mid :
    (r : Request) (p : Reply) (s : Session)
    → is_plain r ≡ true
    → Mid s
    → Mid (log (requested r p) s)
unfolding log holds_bus holds_export holds_agent holds_discovery agent_after discovery_after
    bond_after leaves_bond
log-Mid (set_preferred_bearer d) p s h m = ground arith
log-Mid (set_trusted d) p s h m = ground arith
log-Mid request_default_agent p s h m = ground arith
log-Mid (start_discovery a) p s h m = cc
log-Mid (stop_discovery a) p s h m = cc
log-Mid (pair a) p s h m = cc
log-Mid register_agent p s h m = cc
log-Mid unregister_agent p s h m = cc
log-Mid (remove_device a) p s h m = cc

-- A start of discovery and a registration take hold only where they succeed; the flag follows.
pub log-start_failed :
    (a : Text) (f : Failure) (s : Session)
    → Mid s
    → Mid (log (requested (start_discovery a) (failure f)) s)
unfolding log holds_bus holds_export holds_agent holds_discovery agent_after discovery_after
    bond_after leaves_bond
log-start_failed a f s m = ground arith

pub log-start_done :
    (a : Text) (s : Session)
    → Mid s
    → Mid (mark_discovery (log (requested (start_discovery a) success) s)).1
unfolding log holds_bus holds_export holds_agent holds_discovery agent_after discovery_after
    bond_after leaves_bond mark_discovery
log-start_done a s m = ground arith

pub log-register_failed :
    (f : Failure) (s : Session) → Mid s → Mid (log (requested register_agent (failure f)) s)
unfolding log holds_bus holds_export holds_agent holds_discovery agent_after discovery_after
    bond_after leaves_bond
log-register_failed f s m = ground arith

pub log-register_done :
    (s : Session) → Mid s → Mid (mark_agent (log (requested register_agent success) s)).1
unfolding log holds_bus holds_export holds_agent holds_discovery agent_after discovery_after
    bond_after leaves_bond mark_agent
log-register_done s m = ground arith

pub log-pair : (d : Text) (p : Reply) (s : Session) → Late s → Late (log (requested (pair d) p) s)
unfolding log holds_bus holds_export holds_agent holds_discovery agent_after discovery_after
    bond_after leaves_bond
log-pair d p s m = ground arith

pub log-trust :
    (d : Text) (p : Reply) (s : Session) → Late s → Late (log (requested (set_trusted d) p) s)
unfolding log
log-trust d p s m = record { mid = log-Mid (set_trusted d) p s refl m.mid; started = m.started }

pub waited-Late : (s : Session) → Late s → Late (record s { time = suc s.time })
waited-Late s m = ground arith

pub Late-Stops : (e : Failure) (s : Session) → Late s → Stops e s
Late-Stops e s m = Mid-Stops e s m.mid

pub weaker-Ends :
    {A : Type 0} (Q : A → Session → Type 0) (r : Result Failure A × Session)
    → Ends Q (λ f. Late) r
    → Ends Q Stops r
weaker-Ends Q (ok a, s) e = e
weaker-Ends Q (err f, s) e = Late-Stops f s e
