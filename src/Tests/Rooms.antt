-- ===== src/Tests/Rooms.antt =====
-- Rooms in an in-memory store (internal/services/room_service.go).
use lol_overlay.Prelude.{
  int_eq, err, if◌then◌else◌, ◌⊎◌, ◌*◌, String, ◌≡◌, refl, true, false, none, some, [], ◌∷◌, pos,
  ok,
}
use lol_overlay.Handlers.{
  message, no_body, get_room_id_from_path, handle_toggle_spell, strip_prefix, split_slash,
  trim_prefix, change_response, path_parts, Decoders, Request, handle_rooms,
}
use lol_overlay.Handlers.Routes.{route_toggle, has_no_slash}
use lol_overlay.Prelude.Decimals.{decimal, signed_decimal}
use lol_overlay.RoomId.{build_room_id_inj, print_room_id, team_of, build_room_id}
use lol_overlay.RoomService.Env.{time_now, save_room, publish_event, RoomEnv, RoomEnvLaws}
use lol_overlay.RoomService.Current.{
  clear_current_room_id_locked, Service, create_room, Created, create_room-Created,
}
use lol_overlay.RoomService.Locked.{
  update_room, add_player_locked, toggle_spell_locked, Updated, add_player, toggle_spell_by_riot_id,
  replace_players,
}
use lol_overlay.RoomService.Changes.{Added, Toggled, Replaced}
use lol_overlay.RoomService.Cleanup.{
  cleanup_rooms, cleanup_old_rooms, AllCleaned, cleanup-AllCleaned,
}
use lol_overlay.Spell.{toggle_player_spell}
use lol_overlay.Repository.{RoomRepository, RoomRepositoryLaws}
use lol_overlay.RoomService.Refresh.{
  refresh_cooldowns_ok, refresh_cooldowns, AllRefreshed, refresh_cooldowns-AllRefreshed,
}
use lol_overlay.Models.{second, Player, Room, ChampSelectPlayer, ChampSelectSession}
use lol_overlay.Repository.InMemory.{Rooms, in_memory, in_memory_laws, rooms_view}
use lol_overlay.RoomService.Players.{toggle_in_room}
use lol_overlay.RoomService.Methods.{
  replace_players-Updated, add_player-Updated, toggle_spell-Updated,
}
use lol_overlay.RoomService.RiotIds.{added}

abbrev player : String → String → String → Player
player champion game_name tag_line = record {
  champion = champion;
  champion_image = "";
  game_name = game_name;
  tag_line = tag_line;
  champion_id = pos 103;
  summoner_spell_haste = 0;
  spells = [];
}

abbrev empty_room : Room
empty_room = record { id = "7-100"; players = []; last_updated = 900 * second }

-- Added without spells, so with the default ones.
abbrev pub room : Room
room = record {
  id = "7-100";
  players = added (player "Ahri" "mid" "EUW") ∷ [];
  last_updated = 900 * second;
}

abbrev old_room : Room
old_room = record { id = "7-99"; players = []; last_updated = second }

abbrev pub rooms : Rooms
rooms = record { rooms = room ∷ old_room ∷ []; ctx_err = none }

abbrev pub env : RoomEnv Rooms
env = record {
  repository = in_memory;
  get_champion = λ id w. (ok (record { id = id; name = "Ahri"; image_url = "" }), w);
  publish = λ subject body w. (ok tt, w);
  marshal_room_id = λ id. ok [];
  now = λ w. (20000 * second, w);
  nil_alike = λ a b. true;
  ctx_err = λ w. w.ctx_err;
}

pub env-RoomEnvLaws : RoomEnvLaws env rooms_view
env-RoomEnvLaws = record {
  repository = in_memory_laws;
  champion_view = λ id w other. refl;
  publish_view = λ subject body w other. refl;
  now_view = λ w other. refl;
}

abbrev service : Service Rooms
service = record { world = rooms; current_room_id = "7-99" }

abbrev ahri_member : ChampSelectPlayer
ahri_member = record {
  cell_id = pos 0;
  champion_id = pos 103;
  spell1_id = pos 4;
  spell2_id = pos 14;
  game_name = "mid";
  tag_line = "EUW";
  puuid = "";
  team = pos 1;
}

abbrev session : ChampSelectSession
session = record {
  game_id = pos 100;
  local_player_cell_id = pos 0;
  my_team = ahri_member ∷ [];
  their_team = [];
}

toggled : (toggle_spell_by_riot_id env "7-100" "mid" "EUW" "Flash" rooms).0 ≡ ok true
unfolding toggle_spell_by_riot_id toggle_spell_locked update_room publish_event in_memory
    toggle_in_room toggle_player_spell time_now save_room
toggled = refl

no_room : (add_player env "7-1" (player "Ahri" "mid" "EUW") rooms).0 ≡ ok false
unfolding add_player add_player_locked update_room in_memory
no_room = refl

cleaned : (cleanup_old_rooms env service).1.current_room_id ≡ ""
unfolding cleanup_old_rooms cleanup_rooms clear_current_room_id_locked in_memory
cleaned = refl

toggle_spell-Updated_example :
    Updated rooms_view
      (Toggled "mid" "EUW" "Flash" (20000 * second))
      (20000 * second)
      "7-100"
      rooms
      (toggle_spell_by_riot_id env "7-100" "mid" "EUW" "Flash" rooms).1
      (toggle_spell_by_riot_id env "7-100" "mid" "EUW" "Flash" rooms).0
toggle_spell-Updated_example =
    toggle_spell-Updated env rooms_view env-RoomEnvLaws "7-100" "mid" "EUW" "Flash" rooms

add_player-Updated_example :
    Updated rooms_view
      (Added (player "Zed" "top" "EUW"))
      (20000 * second)
      "7-100"
      rooms
      (add_player env "7-100" (player "Zed" "top" "EUW") rooms).1
      (add_player env "7-100" (player "Zed" "top" "EUW") rooms).0
add_player-Updated_example =
    add_player-Updated env rooms_view env-RoomEnvLaws "7-100" (player "Zed" "top" "EUW") rooms

refresh_cooldowns-AllRefreshed_example :
    AllRefreshed env rooms_view env-RoomEnvLaws rooms (refresh_cooldowns env rooms)
refresh_cooldowns-AllRefreshed_example =
    refresh_cooldowns-AllRefreshed env rooms_view env-RoomEnvLaws rooms

cleanup-AllCleaned_example :
    AllCleaned env rooms_view env-RoomEnvLaws service (cleanup_old_rooms env service)
cleanup-AllCleaned_example = cleanup-AllCleaned env rooms_view env-RoomEnvLaws service

create_room-Created_example :
    Created env rooms_view env-RoomEnvLaws "7-101" rooms (create_room env "7-101" rooms)
create_room-Created_example = create_room-Created env rooms_view env-RoomEnvLaws "7-101" rooms refl

-- The same store where the context is never done.
abbrev undone : Rooms → Rooms
undone w = record w { ctx_err = none }

abbrev calm_rooms : RoomRepository Rooms
calm_rooms = record {
  get = λ id w. in_memory.get id (undone w);
  get_all = λ w. in_memory.get_all (undone w);
  save = λ room w. in_memory.save room (undone w);
  delete = λ id w. in_memory.delete id (undone w);
}

calm_rooms-RoomRepositoryLaws : RoomRepositoryLaws calm_rooms rooms_view
calm_rooms-RoomRepositoryLaws = record {
  view_id = in_memory_laws.view_id;
  get_view = λ id w. in_memory_laws.get_view id (undone w);
  get_ok = λ id w. in_memory_laws.get_ok id (undone w);
  get_all_view = λ w. in_memory_laws.get_all_view (undone w);
  get_all_ok = λ w. in_memory_laws.get_all_ok (undone w);
  get_all_listed = λ w. in_memory_laws.get_all_listed (undone w);
  get_all_distinct = λ w. in_memory_laws.get_all_distinct (undone w);
  save_ok = λ room w. in_memory_laws.save_ok room (undone w);
  save_err = λ room w. in_memory_laws.save_err room (undone w);
  delete_ok = λ id w. in_memory_laws.delete_ok id (undone w);
  delete_err = λ id w. in_memory_laws.delete_err id (undone w);
}

abbrev calm_env : RoomEnv Rooms
calm_env = record env { repository = calm_rooms; ctx_err = λ w. none }

calm_env-RoomEnvLaws : RoomEnvLaws calm_env rooms_view
calm_env-RoomEnvLaws = record {
  repository = calm_rooms-RoomRepositoryLaws;
  champion_view = λ id w other. refl;
  publish_view = λ subject body w other. refl;
  now_view = λ w other. refl;
}

calm_saves : (room : Room) (w : Rooms) → (calm_env.repository.save room w).0 ≡ ok tt
unfolding in_memory
calm_saves saved w = refl

calm_deletes : (id : String) (w : Rooms) → (calm_env.repository.delete id w).0 ≡ ok tt
unfolding in_memory
calm_deletes id w = refl

calm_listed : (calm_env.repository.get_all rooms).0 ≡ ok (room ∷ old_room ∷ [])
unfolding in_memory
calm_listed = refl

refresh_cooldowns_ok_example : (refresh_cooldowns calm_env rooms).0 ≡ ok tt
refresh_cooldowns_ok_example =
    refresh_cooldowns_ok calm_env rooms_view calm_env-RoomEnvLaws (λ w. refl) calm_saves rooms
      (room ∷ old_room ∷ []) calm_listed

replace_players-Updated_example :
    Updated rooms_view
      (Replaced env.nil_alike (player "Zed" "top" "EUW" ∷ []))
      (20000 * second)
      "7-100"
      rooms
      (replace_players env "7-100" (player "Zed" "top" "EUW" ∷ []) rooms).1
      (replace_players env "7-100" (player "Zed" "top" "EUW" ∷ []) rooms).0
replace_players-Updated_example =
    replace_players-Updated env rooms_view env-RoomEnvLaws "7-100" (player "Zed" "top" "EUW" ∷ [])
      rooms

-- The session as another member of the team sees it.
abbrev other_session : ChampSelectSession
other_session = record session {
  local_player_cell_id = pos 1;
  my_team = record ahri_member { cell_id = pos 1 } ∷ session.my_team;
}

same_room : build_room_id (some session) ≡ build_room_id (some other_session)
unfolding build_room_id team_of print_room_id signed_decimal decimal
same_room = refl

build_room_id_inj_example :
    (build_room_id (some session) ≡ "")
    ⊎ ((session.game_id ≡ other_session.game_id)
        × (team_of session.local_player_cell_id session.my_team
            ≡ team_of other_session.local_player_cell_id other_session.my_team)
        × (int_eq session.game_id (pos 0) ≡ false)
        × (int_eq (team_of session.local_player_cell_id session.my_team) (pos 0) ≡ false))
build_room_id_inj_example = build_room_id_inj session other_session same_room

abbrev decoders : Decoders
decoders = record {
  create_player = λ body. ok "Jinx";
  toggle_spell_request =
      λ body. ok (record { game_name = "mid"; tag_line = "EUW"; spell = "Flash" });
  error_text = λ e. "bad request";
}

abbrev toggle_request : Request
toggle_request = record { method = "POST"; path = "/rooms/7-100/spells/toggle"; body = [] }

toggled_status : (handle_rooms env decoders toggle_request rooms).0.status ≡ 200
unfolding handle_rooms path_parts trim_prefix split_slash strip_prefix handle_toggle_spell
    get_room_id_from_path change_response toggle_spell_by_riot_id toggle_spell_locked update_room
    publish_event in_memory toggle_in_room toggle_player_spell time_now save_room
toggled_status = refl

no_slash : has_no_slash "7-100" ≡ true
unfolding has_no_slash
no_slash = refl

route_toggle_example : handle_rooms env decoders toggle_request rooms ≡ (
  elim (toggle_spell_by_riot_id env "7-100" "mid" "EUW" "Flash" rooms).0 [
    | err e ↦ record { status = 500; body = message "Failed to toggle spell" }
    | ok changed ↦
        if changed
        then record { status = 200; body = no_body }
        else record { status = 404; body = message "Player or spell not found" }
  ],
  (toggle_spell_by_riot_id env "7-100" "mid" "EUW" "Flash" rooms).1,
)
route_toggle_example =
    route_toggle env decoders "7-100" no_slash toggle_request rooms
      (record { game_name = "mid"; tag_line = "EUW"; spell = "Flash" }) refl refl refl
