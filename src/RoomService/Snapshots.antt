-- ===== src/RoomService/Snapshots.antt =====
-- `GetRoomSnapshot` and `GetRoomSnapshots` of internal/services/room_service.go, which take no lock.
use lol_overlay.Prelude.{String, Option, List, Exec, wrapping}
use lol_overlay.Models.{Room}
use lol_overlay.RoomService.Env.{RoomEnv}

module _ {W : Type 0} (env : RoomEnv W) where
  -- `none` is the nil room.
  unfoldable pub get_room_snapshot : String → Exec W (Option Room)
  get_room_snapshot room_id = wrapping "get room" (env.repository.get room_id)

  unfoldable pub get_room_snapshots : Exec W (List Room)
  get_room_snapshots = wrapping "get all rooms" env.repository.get_all
