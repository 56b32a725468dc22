-- ===== src/Outbox.antt =====
-- backend/app/application: the domain events, the outbox that keeps them with the changes that they
-- tell of, and the dispatcher that publishes them in the process and to Kafka.
pub mod Events
pub mod Integration
pub mod Dispatcher
mod Tests
