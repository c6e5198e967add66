-- ===== src/System.antt =====
-- main.cpp: the demo's threads over the shared gateway, network and clock. A step of one thread is one call
-- on what the threads share, with the assignments beside it; `main` itself is the list of statements that
-- it has left.
pub mod Deliveries
pub mod Fleet
pub mod Invariant
pub mod Packets
pub mod Joins
pub mod Script
pub mod World
pub mod Reachable
pub mod Steps
pub mod Heard
pub mod Silent
pub mod Beats
pub mod Still
pub mod State
pub mod Serving
pub mod Runs
pub mod Threads
pub mod Stops
pub mod Lost
pub mod Live
pub mod Stopping
pub mod Awaits
pub mod Idle
pub mod Talks
pub mod Keeping
pub mod Timely
pub mod Times
pub mod Detects
pub mod Numbers
pub mod Recovers
pub mod Races
pub mod Traffic
pub mod Counted
pub mod Receives
pub mod Ordered
pub mod Performs
pub mod Orderly
pub mod Powered
pub mod Drives
pub mod Exits
pub mod Readies
pub mod Finishes
pub mod Outcome
pub mod Enters
