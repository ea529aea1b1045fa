-- ===== src/Messaging.antt =====
-- pkg/messaging: the consumers' loops over what their brokers deliver.
pub mod Backoff
pub mod Kafka
pub mod RabbitMq
