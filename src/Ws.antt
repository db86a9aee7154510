-- ===== src/Ws.antt =====
-- services/api/src/ws.py: the sockets subscribed to each project and the project's sequence number.
-- A method that awaits is two steps: the one before the sends, and the one after them, since
-- other coroutines run between the two. `Traffic` lets any steps interleave. Also here:
-- services/ws_fanout/src/main.py (`Fanout`, `Relay`, `Connection`) and the subscriber of
-- services/api/src/main.py (`Subscriber`).
pub mod Manager
pub mod Traffic
pub mod Fanout
pub mod Relay
pub mod Subscriber
pub mod Connection
