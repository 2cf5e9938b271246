-- ===== src/RoomService/Env.antt =====
-- What internal/services/room_service.go calls, and the laws of those calls.
use lol_overlay.Prelude.{
  Bool, List, String, ◌≡◌, Option, ℤ, Error, Result, ok, err, Exec, wrapping, ◌>>=◌,
}
use lol_overlay.Models.{Player, Time, Room, ChampionInfo}
use lol_overlay.Messaging.{Bytes, subject_current_room_changed, subject_room_updated}
use lol_overlay.Repository.{RoomRepository, RoomRepositoryLaws, View}

pub record RoomEnv (W : Type 0) : Type 0 where
  pub repository : RoomRepository W
  -- `ChampionCatalog.Get`
  pub get_champion : ℤ → W → Result ChampionInfo × W
  -- `EventPublisher.Publish`
  pub publish : String → Bytes → W → Result (Unit {0}) × W
  -- `json.Marshal` of an event that holds one room id
  pub marshal_room_id : String → Result Bytes
  -- `time.Now()`
  pub now : W → Time × W
  -- whether two lists of players that `reflect.DeepEqual` compares agree in which of their slices are nil
  pub nil_alike : List Player → List Player → Bool
  -- `ctx.Err()`
  pub ctx_err : W → Option Error

-- The store keeps its contract, and no other call changes a room.
pub record RoomEnvLaws {W : Type 0} (env : RoomEnv W) (view : View W) : Type 0 where
  pub repository : RoomRepositoryLaws env.repository view
  pub champion_view :
      (id : ℤ) (w : W) (other : String) → view (env.get_champion id w).1 other ≡ view w other
  pub publish_view :
      (subject : String) (body : Bytes) (w : W) (other : String)
      → view (env.publish subject body w).1 other ≡ view w other
  pub now_view : (w : W) (other : String) → view (env.now w).1 other ≡ view w other

module _ {W : Type 0} (env : RoomEnv W) where
  unfoldable pub time_now : Exec W Time
  time_now w = let (t, w') = env.now w in (ok t, w')

  -- `saveRoom`
  unfoldable pub save_room : Room → Exec W (Unit {0})
  unfolding time_now
  save_room room = do
    t ← time_now
    wrapping "save room" (env.repository.save (record room { last_updated = t }))

  -- `publishRoomUpdated` and `publishCurrentRoomChanged`, by their subject; an error is logged.
  unfoldable pub publish_event : String → String → Exec W (Unit {0})
  publish_event subject room_id w = elim (env.marshal_room_id room_id) [
    | err e ↦ (ok tt, w)
    | ok body ↦ (ok tt, (env.publish subject body w).1)
  ]

  abbrev pub publish_room_updated : String → Exec W (Unit {0})
  publish_room_updated = publish_event subject_room_updated

  abbrev pub publish_current_room_changed : String → Exec W (Unit {0})
  publish_current_room_changed = publish_event subject_current_room_changed
