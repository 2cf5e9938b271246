-- ===== src/RoomService.antt =====
-- internal/services/room_service.go: the operations on rooms. What the service calls is an interface over
-- the state of the world: the room store, the champion catalogue, the publisher, the clock and the
-- context. A method runs under the service's lock, so it is one action on the world; each publication
-- comes after the lock is released, and its failure is only logged.
pub mod Env
pub mod Players
pub mod Changes
pub mod Described
pub mod Locked
pub mod Methods
pub mod RiotIds
pub mod Current
pub mod Sync
pub mod Cleanup
pub mod Effects
pub mod Refresh
pub mod Snapshots
