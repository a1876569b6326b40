-- ===== src/Manager.antt =====
-- custom_components/bluetooth_hid_remote/manager.py: the reports and the voice of one remote. `Paths`
-- parses BlueZ's object paths, `State` is the manager's fields, `Button` the search key and `_publish_report`,
-- `Values` what a notified value does, `Notifications` the subscriptions, `Connection` the change of the connection.
pub mod Paths
pub mod State
pub mod Button
pub mod Values
pub mod Connection
pub mod Control
pub mod Invariant
pub mod Undisturbed
pub mod Releases
pub mod Replay
pub mod Once
pub mod Notifications
pub mod Separation
pub mod Tests
