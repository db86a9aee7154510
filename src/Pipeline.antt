-- ===== src/Pipeline.antt =====
-- The way of a schedule move through the services: services/api/src/main.py writes the outbox row,
-- Debezium (`Router`) makes it a message, and services/worker/src gets the event. `Tracing` is
-- the trace context on that way, `Ripple` and `InStep` what the clients see at its end.
pub mod Agreement
pub mod Router
pub mod Delivery
pub mod Ripple
pub mod Tracing
pub mod InStep
