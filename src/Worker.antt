-- ===== src/Worker.antt =====
-- services/worker/src: the subgraph that handler.py loads (`Subgraph`), its transaction
-- (`Handler`), what the transaction guarantees (the modules below `Handler`), the loop of consumer.py
-- (`Consumer`), and the trace context of an event (`Tracing`).
pub mod Subgraph
pub mod Handler
pub mod Consumer
pub mod Connection
pub mod Tracing
