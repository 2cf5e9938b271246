-- ===== src/RoomService/Sync.antt =====
-- `SyncFromChampSelect` of internal/services/room_service.go.
use lol_overlay.Prelude.{
  String, ◌≡◌, Bool, true, false, Option, none, some, List, [], ◌∷◌, ◌==◌, if◌then◌else◌, ℤ, Result,
  wrap, ok, err, Exec, pure, ◌>>=◌, ◌>>◌,
}
use lol_overlay.Models.{Player, ChampSelectSession, ChampSelectPlayer, ChampionInfo}
use lol_overlay.RoomService.Env.{RoomEnv, publish_room_updated}
use lol_overlay.RoomService.Players.{player_of}
use lol_overlay.RoomService.Locked.{replace_players}
use lol_overlay.RoomService.Current.{Service, in_world, set_current_room_id}

module _ {W : Type 0} (env : RoomEnv W) where
  abbrev unknown_champion : ℤ → ChampionInfo
  unknown_champion champion_id = record { id = champion_id; name = "Unknown"; image_url = "" }

  -- A champion that the catalogue does not give is unknown, unless the context is done.
  champion_or_unknown : ℤ → Result ChampionInfo → Exec W ChampionInfo
  champion_or_unknown champion_id (ok champion) w = (ok champion, w)
  champion_or_unknown champion_id (err e) w = elim (env.ctx_err w) [
    | some stopped ↦ (err (wrap "get champion" stopped), w)
    | none ↦ (ok (unknown_champion champion_id), w)
  ]

  unfoldable pub champion_for : ℤ → Exec W ChampionInfo
  unfolding champion_or_unknown
  champion_for champion_id w =
      let (r, w') = env.get_champion champion_id w in champion_or_unknown champion_id r w'

  unfoldable pub build_players : List ChampSelectPlayer → Exec W (List Player)
  build_players [] = pure []
  build_players (member ∷ rest) = do
    champion ← champion_for member.champion_id
    players ← build_players rest
    pure (player_of member champion ∷ players)

  after_replace : String → Bool → Exec (Service W) Bool
  after_replace room_id false = pure false
  after_replace room_id true = do
    in_world (publish_room_updated env room_id)
    set_current_room_id env room_id
    pure true

  sync_session : String → ChampSelectSession → Exec (Service W) Bool
  unfolding after_replace
  sync_session room_id session = do
    players ← in_world (build_players session.my_team)
    updated ← in_world (replace_players env room_id players)
    after_replace room_id updated

  -- `none` is the nil session.
  unfoldable pub sync_from_champ_select : String → Option ChampSelectSession → Exec (Service W) Bool
  unfolding sync_session
  sync_from_champ_select room_id none s = (ok false, s)
  sync_from_champ_select room_id (some session) s =
      if room_id == "" then (ok false, s) else sync_session room_id session s

-- What a result of the synchronisation says of the current room.
abbrev pub CurrentAfter : {W : Type 0} → String → Service W → Result Bool × Service W → Type 0
CurrentAfter room_id before (ok true, after) = after.current_room_id ≡ room_id
CurrentAfter room_id before (ok false, after) = after.current_room_id ≡ before.current_room_id
CurrentAfter room_id before (err e, after) = after.current_room_id ≡ before.current_room_id
