-- ===== src/Tests.antt =====
-- The theorems at concrete inputs, in the modules below.
mod Samples
mod Messages
mod Settings
mod Schemas
mod FieldTags
mod Files
mod Stores
mod Deliveries
mod Broker
mod Clients
mod Interleavings
