-- ===== src/Pairing/Fresh/Traces.antt =====
-- What a run holds on to, read from its events: the newest event comes first.
use home_assistant_bluetooth.Prelude.{◌≡◌, Bool, true, false, List, [], ◌∷◌}
use home_assistant_bluetooth.Pairing.Session.{
  Event, bus_opened, exported, unexported, disconnected, requested, Reply, success, failure,
  cancelled, Request, start_discovery, stop_discovery, register_agent, unregister_agent, pair,
  remove_device, Session,
}

-- The bus is open.
unfoldable pub holds_bus : List Event → Bool
holds_bus [] = false
holds_bus (bus_opened ∷ es) = true
holds_bus (disconnected ∷ es) = false
holds_bus (exported ∷ es) = holds_bus es
holds_bus (unexported ∷ es) = holds_bus es
holds_bus (requested r p ∷ es) = holds_bus es

-- The agent is exported.
unfoldable pub holds_export : List Event → Bool
holds_export [] = false
holds_export (exported ∷ es) = true
holds_export (unexported ∷ es) = false
holds_export (bus_opened ∷ es) = holds_export es
holds_export (disconnected ∷ es) = holds_export es
holds_export (requested r p ∷ es) = holds_export es

-- What a request with its reply makes of a registered agent, and of a discovery.
unfoldable pub agent_after : Request → Reply → Bool → Bool
agent_after register_agent success held = true
agent_after unregister_agent p held = false
agent_after r p held = held

unfoldable pub discovery_after : Request → Reply → Bool → Bool
discovery_after (start_discovery adapter) success held = true
discovery_after (stop_discovery adapter) p held = false
discovery_after r p held = held

-- An agent is registered that no call has unregistered.
unfoldable pub holds_agent : List Event → Bool
holds_agent [] = false
holds_agent (requested r p ∷ es) = agent_after r p (holds_agent es)
holds_agent (bus_opened ∷ es) = holds_agent es
holds_agent (disconnected ∷ es) = holds_agent es
holds_agent (exported ∷ es) = holds_agent es
holds_agent (unexported ∷ es) = holds_agent es

-- A discovery is started that no call has stopped.
unfoldable pub holds_discovery : List Event → Bool
holds_discovery [] = false
holds_discovery (requested r p ∷ es) = discovery_after r p (holds_discovery es)
holds_discovery (bus_opened ∷ es) = holds_discovery es
holds_discovery (disconnected ∷ es) = holds_discovery es
holds_discovery (exported ∷ es) = holds_discovery es
holds_discovery (unexported ∷ es) = holds_discovery es

-- A pairing was attempted and no removal of the device was asked for since.
unfoldable pub bond_after : Request → Bool → Bool
bond_after (pair device) left = true
bond_after (remove_device device) left = false
bond_after r left = left

unfoldable pub leaves_bond : List Event → Bool
leaves_bond [] = false
leaves_bond (requested r p ∷ es) = bond_after r (leaves_bond es)
leaves_bond (bus_opened ∷ es) = leaves_bond es
leaves_bond (disconnected ∷ es) = leaves_bond es
leaves_bond (exported ∷ es) = leaves_bond es
leaves_bond (unexported ∷ es) = leaves_bond es

-- Nothing is held.
pub record IsClean (s : Session) : Type 0 where
  pub bus : holds_bus s.events ≡ false
  pub export : holds_export s.events ≡ false
  pub agent : holds_agent s.events ≡ false
  pub discovery : holds_discovery s.events ≡ false

-- The last thing that happened is a call of a clean-up whose await was cancelled: the removal of the
-- device while the agent is exported, the unregistration, or the stop of the discovery once no agent is
-- left that was not asked to be unregistered.
abbrev pub Interrupted : List Event → Type 0
Interrupted (requested (remove_device device) (failure cancelled) ∷ es) = holds_export es ≡ true
Interrupted (requested unregister_agent (failure cancelled) ∷ es) = Unit
Interrupted (requested (stop_discovery adapter) (failure cancelled) ∷ es) = holds_agent es ≡ false
Interrupted _ = ⊥

-- Between `try` and `finally` the flags tell what is held.
pub record Tracks (s : Session) : Type 0 where
  pub bus : holds_bus s.events ≡ true
  pub export : holds_export s.events ≡ true
  pub agent : holds_agent s.events ≡ s.agent_registered
  pub discovery : holds_discovery s.events ≡ s.discovery_started
  pub attempted : leaves_bond s.events ≡ true → s.pair_started ≡ true
