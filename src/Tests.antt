-- ===== src/Tests.antt =====
-- Runs of the model at concrete inputs.
mod Keys
mod Archives
mod Clients
mod Kodofs
mod Mounts
mod Nodes
mod Objects
mod Requests
mod Servers
mod Sessions
mod Volumes
mod Workers
mod Journeys
mod Starts
mod Streams
