-- ===== src/Examples.antt =====
-- Concrete inputs for the theorems.
mod Client
mod Bridge
mod Requests
mod Entities
mod Virtual
mod Link
mod Own
mod Introspected
mod Processes
mod Commands
