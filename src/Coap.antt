-- ===== src/Coap.antt =====
-- The CoAP adapter: src/pal/adapters/coap/coap_adapter.c.
pub mod Fields
pub mod Parse
pub mod Decode
pub mod Encode
pub mod Control
pub mod Extension
pub mod Blocks
pub mod Parsing
pub mod Bounds
pub mod Handlers
pub mod Memory
pub mod Delivery
pub mod Leak
pub mod Path
pub mod Layout
pub mod Written
pub mod Format
pub mod ReadOption
pub mod ReadOptions
pub mod ReadMessage
pub mod Reading
pub mod Making
pub mod Rebuilding
pub mod ReadPath
pub mod ReadPacket
pub mod RoundTrip
pub mod RootPath
pub mod RefuseOption
pub mod EmptyOption
pub mod LongSegment
pub mod Room
mod Tests
