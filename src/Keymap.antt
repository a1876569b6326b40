-- ===== src/Keymap.antt =====
-- custom_components/bluetooth_hid_remote/keymap.py: key profiles over HID usages. `Codes` and `Tables`
-- are its data, `Names` its text functions, `Mapper` the built-in profiles, `Profiles` the custom ones.
pub mod Codes
pub mod Tables
pub mod Names
pub mod Mapper
pub mod Profiles
pub mod Tests
