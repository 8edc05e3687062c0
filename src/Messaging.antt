-- ===== src/Messaging.antt =====
-- packages/messaging: the clients of the two brokers, without their libraries.
pub mod Rabbit
pub mod Kafka
pub mod Solves
