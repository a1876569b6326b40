-- ===== src/Pairing.antt =====
-- custom_components/bluetooth_hid_remote/pairing.py: `Bonds` are the checks on what BlueZ exports,
-- `Agent` the temporary pairing agent, `Session` the state of one run and its awaits, `Fresh` the
-- pairing of an unpaired remote, `Flow` the entry points.
pub mod Bonds
pub mod Agent
pub mod Session
pub mod Fresh
pub mod Flow
pub mod Tests
