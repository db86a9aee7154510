-- ===== src/Tests.antt =====
-- Runs of the code on small data, and the theorems at them.
mod Propagation
mod Deliveries
mod Requests
mod Serving
mod Charts
mod Following
mod Bridging
mod Polling
mod Sockets
mod Migrations
mod Editing
mod Pipelines
mod Ids
mod Launches
mod Listening
mod Deleting
mod Relaying
mod Traces
mod Histories
