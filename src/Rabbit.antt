-- ===== src/Rabbit.antt =====
-- rabbitmq.go, in the modules below.
pub mod Broker
pub mod Triple
pub mod Connection
pub mod Requests
pub mod Replies
pub mod Deliveries
pub mod Loops
pub mod Consumers
