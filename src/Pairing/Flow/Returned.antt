-- ===== src/Pairing/Flow/Returned.antt =====
-- What the end of a pairing means for BlueZ, with the replies that the clean-up had.
use home_assistant_bluetooth.Prelude.{
  ◌≡◌, ◌∙◌, sym, ◌⊎◌, inl, inr, Bool, true, false, Result, ok, err,
}
use mathlib.Core.Bool.{false≢true}
use home_assistant_bluetooth.Pairing.Bonds.{service_pending}
use home_assistant_bluetooth.Pairing.Session.{Failure, pairing, Session}
use home_assistant_bluetooth.Pairing.Fresh.{PairingResult}
use home_assistant_bluetooth.Pairing.Fresh.Traces.{holds_bus, holds_export, Interrupted}
use home_assistant_bluetooth.Pairing.Fresh.CleanUp.{IsReleased}
use home_assistant_bluetooth.Pairing.Fresh.Leftovers.{
  leftover_agent, unregister_failed, leftover_discovery, stop_failed, leftover_bond, removal_failed,
  leftover_agent-Explained, leftover_discovery-Explained, leftover_bond-Explained,
}

-- An outcome after which a bond may stay.
abbrev pub KeepsBond : Result Failure PairingResult → Type 0
KeepsBond r = ((result : PairingResult) × (r ≡ ok result)) ⊎ (r ≡ err (pairing service_pending))

pub record GivenBack (r : Result Failure PairingResult) (s : Session) : Type 0 where
  pub bus : holds_bus s.events ≡ false
  pub export : holds_export s.events ≡ false
  pub agent : leftover_agent s.events ≡ true → unregister_failed s.events ≡ true
  pub discovery : leftover_discovery s.events ≡ true → stop_failed s.events ≡ true
  pub bond : leftover_bond s.events ≡ true → KeepsBond r ⊎ (removal_failed s.events ≡ true)

abbrev pub IsGivenBack : Result Failure PairingResult × Session → Type 0
IsGivenBack (r, s) = GivenBack r s ⊎ Interrupted s.events

-- What was asked to end is left only by a failure.
failed_only : {b c : Bool} → b ≡ false → (b ≡ true) ⊎ (c ≡ true) → c ≡ true
failed_only e (inl h) = absurd (false≢true (sym e ∙ h))
failed_only e (inr h) = h

kept_or_failed :
    {b c : Bool} {K : Type 0} → (b ≡ true → K) → (b ≡ true) ⊎ (c ≡ true) → K ⊎ (c ≡ true)
kept_or_failed k (inl h) = inl (k h)
kept_or_failed k (inr h) = inr h

pub given_back : (r : Result Failure PairingResult × Session) → IsReleased r → IsGivenBack r
given_back (r, s) (inl k) = inl record {
  bus = k.clean.bus;
  export = k.clean.export;
  agent = λ h. failed_only k.clean.agent (leftover_agent-Explained s.events h);
  discovery = λ h. failed_only k.clean.discovery (leftover_discovery-Explained s.events h);
  bond = λ h. kept_or_failed k.bond (leftover_bond-Explained s.events h);
}
given_back (r, s) (inr b) = inr b
