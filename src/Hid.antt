-- ===== src/Hid.antt =====
-- custom_components/bluetooth_hid_remote/hid.py: HID report descriptors and report decoding.
-- `Types` has the dataclasses, `Parse` the descriptor parser, `Decode` the report decoder, and
-- `Descriptor` the two together on the reports of a remote.
pub mod Types
pub mod Parse
pub mod Decode
pub mod Descriptor
pub mod Tests
