-- ===== src/Esp.antt =====
-- The smart switch of examples/esp32-smart-switch/src, and the BLE types of bhumi-mcu/src/ble.rs.
pub mod Nvs
pub mod State
pub mod Switch
pub mod Ble
pub mod Connection
pub mod Run
pub mod Wifi
pub mod Provision
pub mod Tests
