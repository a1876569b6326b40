-- ===== src/Voice.antt =====
-- custom_components/bluetooth_hid_remote/voice.py: the voice transports of the remotes.
pub mod Types
pub mod Adpcm
pub mod Ogg
pub mod Buffers
pub mod Tests
