-- ===== src/Tests.antt =====
-- Concrete runs of the definitions, and the theorems at concrete inputs.
mod Spells
mod Caches
mod DeadLetters
mod Events
mod Games
mod Lifecycles
mod Outboxes
mod Postgres
mod Rooms
mod Sockets
