-- ===== src/Tests.antt =====
-- Runs of the definitions and of the theorems on concrete packets, sensors and requests.
mod Packets
mod Registries
mod Nodes
mod Stops
mod Requests
mod Systems
mod Rounds
mod Orders
