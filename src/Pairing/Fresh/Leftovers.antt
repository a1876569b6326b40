-- ===== src/Pairing/Fresh/Leftovers.antt =====
-- What the requests with their replies leave in BlueZ, against what was asked for.
use home_assistant_bluetooth.Prelude.{◌≡◌, ◌⊎◌, inl, inr, refl, Bool, true, false, List, [], ◌∷◌}
use home_assistant_bluetooth.Pairing.Session.{
  Event, bus_opened, exported, unexported, disconnected, requested, success, failure,
  start_discovery, stop_discovery, set_preferred_bearer, set_trusted, register_agent,
  request_default_agent, unregister_agent, pair, remove_device,
}
use home_assistant_bluetooth.Pairing.Fresh.Traces.{
  holds_agent, holds_discovery, leaves_bond, agent_after, discovery_after, bond_after,
}

-- An agent is registered from a successful RegisterAgent to a successful UnregisterAgent.
unfoldable pub leftover_agent : List Event → Bool
leftover_agent [] = false
leftover_agent (requested register_agent success ∷ es) = true
leftover_agent (requested unregister_agent success ∷ es) = false
leftover_agent (e ∷ es) = leftover_agent es

-- The last UnregisterAgent since the last successful RegisterAgent failed.
unfoldable pub unregister_failed : List Event → Bool
unregister_failed [] = false
unregister_failed (requested register_agent success ∷ es) = false
unregister_failed (requested unregister_agent success ∷ es) = false
unregister_failed (requested unregister_agent (failure f) ∷ es) = true
unregister_failed (e ∷ es) = unregister_failed es

-- A discovery runs from a successful StartDiscovery to a successful StopDiscovery.
unfoldable pub leftover_discovery : List Event → Bool
leftover_discovery [] = false
leftover_discovery (requested (start_discovery adapter) success ∷ es) = true
leftover_discovery (requested (stop_discovery adapter) success ∷ es) = false
leftover_discovery (e ∷ es) = leftover_discovery es

-- The last StopDiscovery since the last successful StartDiscovery failed.
unfoldable pub stop_failed : List Event → Bool
stop_failed [] = false
stop_failed (requested (start_discovery adapter) success ∷ es) = false
stop_failed (requested (stop_discovery adapter) success ∷ es) = false
stop_failed (requested (stop_discovery adapter) (failure f) ∷ es) = true
stop_failed (e ∷ es) = stop_failed es

-- An attempted pairing, whatever its reply, is left until a successful RemoveDevice.
unfoldable pub leftover_bond : List Event → Bool
leftover_bond [] = false
leftover_bond (requested (pair device) p ∷ es) = true
leftover_bond (requested (remove_device device) success ∷ es) = false
leftover_bond (e ∷ es) = leftover_bond es

-- The last RemoveDevice since the last attempted pairing failed.
unfoldable pub removal_failed : List Event → Bool
removal_failed [] = false
removal_failed (requested (pair device) p ∷ es) = false
removal_failed (requested (remove_device device) success ∷ es) = false
removal_failed (requested (remove_device device) (failure f) ∷ es) = true
removal_failed (e ∷ es) = removal_failed es

-- Left in BlueZ: not asked for its end, or the call failed.
abbrev Explained : Bool → Bool → Bool → Type 0
Explained left asked failed = left ≡ true → (asked ≡ true) ⊎ (failed ≡ true)

pub leftover_agent-Explained :
    (es : List Event) → Explained (leftover_agent es) (holds_agent es) (unregister_failed es)
unfolding leftover_agent holds_agent unregister_failed agent_after
leftover_agent-Explained [] h = inl h
leftover_agent-Explained (requested (start_discovery a) success ∷ es) h =
    leftover_agent-Explained es h
leftover_agent-Explained (requested (start_discovery a) (failure f) ∷ es) h =
    leftover_agent-Explained es h
leftover_agent-Explained (requested (stop_discovery a) success ∷ es) h =
    leftover_agent-Explained es h
leftover_agent-Explained (requested (stop_discovery a) (failure f) ∷ es) h =
    leftover_agent-Explained es h
leftover_agent-Explained (requested (set_preferred_bearer a) success ∷ es) h =
    leftover_agent-Explained es h
leftover_agent-Explained (requested (set_preferred_bearer a) (failure f) ∷ es) h =
    leftover_agent-Explained es h
leftover_agent-Explained (requested (set_trusted a) success ∷ es) h = leftover_agent-Explained es h
leftover_agent-Explained (requested (set_trusted a) (failure f) ∷ es) h =
    leftover_agent-Explained es h
leftover_agent-Explained (requested (pair a) success ∷ es) h = leftover_agent-Explained es h
leftover_agent-Explained (requested (pair a) (failure f) ∷ es) h = leftover_agent-Explained es h
leftover_agent-Explained (requested register_agent success ∷ es) h = inl refl
leftover_agent-Explained (requested register_agent (failure f) ∷ es) h =
    leftover_agent-Explained es h
leftover_agent-Explained (requested request_default_agent success ∷ es) h =
    leftover_agent-Explained es h
leftover_agent-Explained (requested request_default_agent (failure f) ∷ es) h =
    leftover_agent-Explained es h
leftover_agent-Explained (requested unregister_agent success ∷ es) h = inr h
leftover_agent-Explained (requested unregister_agent (failure f) ∷ es) h = inr refl
leftover_agent-Explained (requested (remove_device a) success ∷ es) h =
    leftover_agent-Explained es h
leftover_agent-Explained (requested (remove_device a) (failure f) ∷ es) h =
    leftover_agent-Explained es h
leftover_agent-Explained (bus_opened ∷ es) h = leftover_agent-Explained es h
leftover_agent-Explained (exported ∷ es) h = leftover_agent-Explained es h
leftover_agent-Explained (unexported ∷ es) h = leftover_agent-Explained es h
leftover_agent-Explained (disconnected ∷ es) h = leftover_agent-Explained es h

pub leftover_discovery-Explained :
    (es : List Event) → Explained (leftover_discovery es) (holds_discovery es) (stop_failed es)
unfolding leftover_discovery holds_discovery stop_failed discovery_after
leftover_discovery-Explained [] h = inl h
leftover_discovery-Explained (requested (start_discovery a) success ∷ es) h = inl refl
leftover_discovery-Explained (requested (start_discovery a) (failure f) ∷ es) h =
    leftover_discovery-Explained es h
leftover_discovery-Explained (requested (stop_discovery a) success ∷ es) h = inr h
leftover_discovery-Explained (requested (stop_discovery a) (failure f) ∷ es) h = inr refl
leftover_discovery-Explained (requested (set_preferred_bearer a) success ∷ es) h =
    leftover_discovery-Explained es h
leftover_discovery-Explained (requested (set_preferred_bearer a) (failure f) ∷ es) h =
    leftover_discovery-Explained es h
leftover_discovery-Explained (requested (set_trusted a) success ∷ es) h =
    leftover_discovery-Explained es h
leftover_discovery-Explained (requested (set_trusted a) (failure f) ∷ es) h =
    leftover_discovery-Explained es h
leftover_discovery-Explained (requested (pair a) success ∷ es) h = leftover_discovery-Explained es h
leftover_discovery-Explained (requested (pair a) (failure f) ∷ es) h =
    leftover_discovery-Explained es h
leftover_discovery-Explained (requested register_agent success ∷ es) h =
    leftover_discovery-Explained es h
leftover_discovery-Explained (requested register_agent (failure f) ∷ es) h =
    leftover_discovery-Explained es h
leftover_discovery-Explained (requested request_default_agent success ∷ es) h =
    leftover_discovery-Explained es h
leftover_discovery-Explained (requested request_default_agent (failure f) ∷ es) h =
    leftover_discovery-Explained es h
leftover_discovery-Explained (requested unregister_agent success ∷ es) h =
    leftover_discovery-Explained es h
leftover_discovery-Explained (requested unregister_agent (failure f) ∷ es) h =
    leftover_discovery-Explained es h
leftover_discovery-Explained (requested (remove_device a) success ∷ es) h =
    leftover_discovery-Explained es h
leftover_discovery-Explained (requested (remove_device a) (failure f) ∷ es) h =
    leftover_discovery-Explained es h
leftover_discovery-Explained (bus_opened ∷ es) h = leftover_discovery-Explained es h
leftover_discovery-Explained (exported ∷ es) h = leftover_discovery-Explained es h
leftover_discovery-Explained (unexported ∷ es) h = leftover_discovery-Explained es h
leftover_discovery-Explained (disconnected ∷ es) h = leftover_discovery-Explained es h

pub leftover_bond-Explained :
    (es : List Event) → Explained (leftover_bond es) (leaves_bond es) (removal_failed es)
unfolding leftover_bond leaves_bond removal_failed bond_after
leftover_bond-Explained [] h = inl h
leftover_bond-Explained (requested (start_discovery a) success ∷ es) h =
    leftover_bond-Explained es h
leftover_bond-Explained (requested (start_discovery a) (failure f) ∷ es) h =
    leftover_bond-Explained es h
leftover_bond-Explained (requested (stop_discovery a) success ∷ es) h = leftover_bond-Explained es h
leftover_bond-Explained (requested (stop_discovery a) (failure f) ∷ es) h =
    leftover_bond-Explained es h
leftover_bond-Explained (requested (set_preferred_bearer a) success ∷ es) h =
    leftover_bond-Explained es h
leftover_bond-Explained (requested (set_preferred_bearer a) (failure f) ∷ es) h =
    leftover_bond-Explained es h
leftover_bond-Explained (requested (set_trusted a) success ∷ es) h = leftover_bond-Explained es h
leftover_bond-Explained (requested (set_trusted a) (failure f) ∷ es) h =
    leftover_bond-Explained es h
leftover_bond-Explained (requested (pair a) success ∷ es) h = inl refl
leftover_bond-Explained (requested (pair a) (failure f) ∷ es) h = inl refl
leftover_bond-Explained (requested register_agent success ∷ es) h = leftover_bond-Explained es h
leftover_bond-Explained (requested register_agent (failure f) ∷ es) h = leftover_bond-Explained es h
leftover_bond-Explained (requested request_default_agent success ∷ es) h =
    leftover_bond-Explained es h
leftover_bond-Explained (requested request_default_agent (failure f) ∷ es) h =
    leftover_bond-Explained es h
leftover_bond-Explained (requested unregister_agent success ∷ es) h = leftover_bond-Explained es h
leftover_bond-Explained (requested unregister_agent (failure f) ∷ es) h =
    leftover_bond-Explained es h
leftover_bond-Explained (requested (remove_device a) success ∷ es) h = inr h
leftover_bond-Explained (requested (remove_device a) (failure f) ∷ es) h = inr refl
leftover_bond-Explained (bus_opened ∷ es) h = leftover_bond-Explained es h
leftover_bond-Explained (exported ∷ es) h = leftover_bond-Explained es h
leftover_bond-Explained (unexported ∷ es) h = leftover_bond-Explained es h
leftover_bond-Explained (disconnected ∷ es) h = leftover_bond-Explained es h
