-- ===== src/Mqtt.antt =====
-- The MQTT adapter: src/pal/adapters/mqtt/mqtt_adapter.c.
pub mod Fields
pub mod Decode
pub mod Encode
pub mod Control
pub mod VarInt
pub mod Overlong
pub mod Bounds
pub mod Memory
pub mod Writes
pub mod Room
pub mod Format
pub mod Layout
pub mod Delivery
pub mod ReadPublish
pub mod Packet
pub mod RoundTrip
mod Tests
