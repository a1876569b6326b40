-- ===== src/Pairing/Agent.antt =====
-- BluetoothHidPairingAgent of pairing.py: BlueZ's calls on the temporary agent, and whether the agent
-- answers or raises org.bluez.Error.Rejected.
use home_assistant_bluetooth.Prelude.{
  ℕ, ◌≡◌, refl, ◌↔◌, sym, Option, none, some, codes, casefold, Bool, true, false, ◌&&◌, ◌==◌,
  text_eq, Text, arith, text_beq_iff,
}
use home_assistant_bluetooth.Pairing.Bonds.{is_hogp, hid_service_uuid}
use mathlib.Core.Bool.{false≢true}

pub data AgentCall : Type 0 where
  release cancel : AgentCall
  request_pin_code request_passkey request_authorization : Text → AgentCall
  request_confirmation : Text → ℕ → AgentCall
  display_pin_code : Text → Text → AgentCall
  display_passkey : Text → ℕ → ℕ → AgentCall
  authorize_service : Text → Text → AgentCall

-- `_require_target` and what follows it: true where the method returns.
unfoldable pub agent_answers : Text → AgentCall → Bool
agent_answers target release = true
agent_answers target cancel = true
agent_answers target (request_pin_code device) = false
agent_answers target (request_passkey device) = false
agent_answers target (request_confirmation device passkey) = device == target
agent_answers target (request_authorization device) = device == target
agent_answers target (display_pin_code device pincode) = device == target
agent_answers target (display_passkey device passkey entered) = device == target
agent_answers target (authorize_service device uuid) = device == target && is_hogp uuid

-- The device that a call is about, and the Bluetooth service of an authorization.
abbrev pub device_of : AgentCall → Option Text
device_of release = none
device_of cancel = none
device_of (request_pin_code d) = some d
device_of (request_passkey d) = some d
device_of (request_authorization d) = some d
device_of (request_confirmation d passkey) = some d
device_of (display_pin_code d pincode) = some d
device_of (display_passkey d passkey entered) = some d
device_of (authorize_service d uuid) = some d

abbrev pub service_of : AgentCall → Option Text
service_of (authorize_service d uuid) = some uuid
service_of _ = none

-- The call wants a PIN code or a passkey back.
abbrev pub asks_code : AgentCall → Bool
asks_code (request_pin_code d) = true
asks_code (request_passkey d) = true
asks_code _ = false

-- Nothing is asked for another device or another service, and no code is asked for.
pub record IsAllowed (target : Text) (call : AgentCall) : Type 0 where
  pub own_device : (device : Text) → device_of call ≡ some device → device ≡ target
  pub hogp_service :
      (uuid : Text)
      → service_of call ≡ some uuid
      → casefold uuid ≡ codes "00001812-0000-1000-8000-00805f9b34fb"
  pub no_code : asks_code call ≡ false

some_same : (d x target : Text) → some d ≡ some x → d ≡ target → x ≡ target
some_same d x target h e = let same : d ≡ x = ground arith in rw same at e

casefold_same :
    (d x : Text) → some d ≡ some x → casefold d ≡ hid_service_uuid → casefold x ≡ hid_service_uuid
casefold_same d x h e = let same : d ≡ x = ground arith in rw same at e

device_same : (d target : Text) → (d == target) ≡ true → d ≡ target
device_same d target e = (text_beq_iff d target).0 e

-- The agent answers a call exactly when the device that the call names, if any, is the selected one, the
-- service that it names, if any, is the HID-over-GATT service (00001812-0000-1000-8000-00805f9b34fb in any case of
-- letters), and the call does not ask for a PIN code or a passkey. Every other call is rejected.
pub agent_answers_iff :
    (target : Text) (call : AgentCall) → (agent_answers target call ≡ true) ↔ IsAllowed target call
unfolding agent_answers is_hogp
agent_answers_iff target release =
    (λ e. record { own_device = λ d h. cc; hogp_service = λ u h. cc; no_code = refl }, λ h. refl)
agent_answers_iff target cancel =
    (λ e. record { own_device = λ d h. cc; hogp_service = λ u h. cc; no_code = refl }, λ h. refl)
agent_answers_iff target (request_pin_code d) =
    (λ e. absurd (false≢true e), λ h. absurd (false≢true (sym h.no_code)))
agent_answers_iff target (request_passkey d) =
    (λ e. absurd (false≢true e), λ h. absurd (false≢true (sym h.no_code)))
agent_answers_iff target (request_confirmation d n) = (
  λ e. record {
    own_device = λ x h. some_same d x target h (device_same d target e);
    hogp_service = λ u h. cc;
    no_code = refl;
  },
  λ h. (text_beq_iff d target).1 (h.own_device d refl),
)
agent_answers_iff target (request_authorization d) = (
  λ e. record {
    own_device = λ x h. some_same d x target h (device_same d target e);
    hogp_service = λ u h. cc;
    no_code = refl;
  },
  λ h. (text_beq_iff d target).1 (h.own_device d refl),
)
agent_answers_iff target (display_pin_code d p) = (
  λ e. record {
    own_device = λ x h. some_same d x target h (device_same d target e);
    hogp_service = λ u h. cc;
    no_code = refl;
  },
  λ h. (text_beq_iff d target).1 (h.own_device d refl),
)
agent_answers_iff target (display_passkey d p n) = (
  λ e. record {
    own_device = λ x h. some_same d x target h (device_same d target e);
    hogp_service = λ u h. cc;
    no_code = refl;
  },
  λ h. (text_beq_iff d target).1 (h.own_device d refl),
)
agent_answers_iff target (authorize_service d uuid) = (
  λ e. record {
    own_device = λ x h. some_same d x target h (device_same d target (ground arith));
    hogp_service = λ u h.
        casefold_same uuid u h ((text_beq_iff (casefold uuid) hid_service_uuid).0 (ground arith));
    no_code = refl;
  },
  λ h.
      let device : (d == target) ≡ true = (text_beq_iff d target).1 (h.own_device d refl) in
      let service : (casefold uuid == hid_service_uuid) ≡ true =
        (text_beq_iff (casefold uuid) hid_service_uuid).1 (h.hogp_service uuid refl) in
      rw (device, service) refl,
)
