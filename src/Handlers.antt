-- ===== src/Handlers.antt =====
-- internal/handlers/room_handler.go: the HTTP handlers of rooms, with the requests of internal/dto. What
-- the JSON decoder gives is an argument; a body that is written to the connection always arrives.
pub mod Routes
use lol_overlay.Prelude.{
  ◌&&◌, ℕ, String, Bool, true, false, Option, some, none, List, [], ◌∷◌, ◌==◌, nat_eq,
  if◌then◌else◌, Error, Result, ok, err, pos,
}
use Prim.Native.Char.{Char, code}
use lol_overlay.Models.{Player, Room}
use lol_overlay.Messaging.{Bytes}
use lol_overlay.RoomService.Env.{RoomEnv}
use lol_overlay.RoomService.Locked.{add_player, toggle_spell_by_riot_id}
use lol_overlay.RoomService.Snapshots.{get_room_snapshot}

pub data Body : Type 0 where
  no_body : Body
  message : String → Body
  room_body : Room → Body
  current_room_body : String → Body

pub record Response : Type 0 where
  pub status : ℕ
  pub body : Body

abbrev pub http_error : String → ℕ → Response
http_error text status = record { status = status; body = message text }

pub record Request : Type 0 where
  pub method : String
  pub path : String
  pub body : Bytes

pub record ToggleSpellRequest : Type 0 where
  pub game_name : String
  pub tag_line : String
  pub spell : String

-- The JSON decoders of `CreatePlayerRequest`, which holds a champion, and of `ToggleSpellRequest`, and
-- `err.Error()`.
pub record Decoders : Type 0 where
  pub create_player : Bytes → Result String
  pub toggle_spell_request : Bytes → Result ToggleSpellRequest
  pub error_text : Error → String

abbrev pub is_char : Char → Char → Bool
is_char c d = nat_eq (code c) (code d)

-- The text after a prefix.
unfoldable pub strip_prefix : String → String → Option String
strip_prefix String.[] s = some s
strip_prefix (String.◌∷◌ c p) String.[] = none
strip_prefix (String.◌∷◌ c p) (String.◌∷◌ d s) =
    let rest = strip_prefix p s in if is_char c d then rest else none

-- `strings.TrimPrefix`
unfoldable pub trim_prefix : String → String → String
unfolding strip_prefix
trim_prefix s prefix = elim (strip_prefix prefix s) [ none ↦ s | some rest ↦ rest ]

abbrev pub add_char : Char → List String → List String
add_char c [] = String.◌∷◌ c "" ∷ []
add_char c (part ∷ parts) = String.◌∷◌ c part ∷ parts

-- `strings.Split(s, "/")`
unfoldable pub split_slash : String → List String
split_slash String.[] = "" ∷ []
split_slash (String.◌∷◌ c s) =
    let parts = split_slash s in if is_char c "/" then "" ∷ parts else add_char c parts

unfoldable pub path_parts : String → List String
unfolding trim_prefix split_slash
path_parts path = split_slash (trim_prefix path "/rooms/")

abbrev pub first_part : List String → String
first_part [] = ""
first_part (part ∷ parts) = part

unfoldable pub get_room_id_from_path : Request → String
unfolding path_parts
get_room_id_from_path request = first_part (path_parts request.path)

-- A player of whom the request gives only the champion.
abbrev pub champion_player : String → Player
champion_player champion = record {
  champion = champion;
  champion_image = "";
  game_name = "";
  tag_line = "";
  champion_id = pos 0;
  summoner_spell_haste = 0;
  spells = [];
}

module _ {W : Type 0} (env : RoomEnv W) (decoders : Decoders) where
  unfoldable pub room_response : Result (Option Room) → Response
  room_response (err e) = http_error "Failed to get room" 500
  room_response (ok none) = http_error "Room not found" 404
  room_response (ok (some room)) = record { status = 200; body = room_body room }

  unfoldable pub get_room : Request → W → Response × W
  unfolding room_response get_room_id_from_path
  get_room request w =
      let (result, w') = get_room_snapshot env (get_room_id_from_path request) w in
      (room_response result, w')

  -- What the two handlers that change a room answer.
  unfoldable pub change_response : String → String → ℕ → Result Bool → Response
  change_response failed missing status (err e) = http_error failed 500
  change_response failed missing status (ok false) = http_error missing 404
  change_response failed missing status (ok true) = record { status = status; body = no_body }

  unfoldable pub handle_add_player : Request → W → Response × W
  unfolding change_response get_room_id_from_path
  handle_add_player request w =
      if request.method == "POST"
      then elim (decoders.create_player request.body) [
        | err e ↦ (http_error (decoders.error_text e) 400, w)
        | ok champion ↦
            let (result, w') =
              add_player env (get_room_id_from_path request) (champion_player champion) w in
            (change_response "Failed to add player" "Room not found" 201 result, w')
      ]
      else (http_error "Method not allowed" 405, w)

  unfoldable pub handle_toggle_spell : Request → W → Response × W
  unfolding change_response get_room_id_from_path
  handle_toggle_spell request w =
      if request.method == "POST"
      then elim (decoders.toggle_spell_request request.body) [
        | err e ↦ (http_error (decoders.error_text e) 400, w)
        | ok toggle ↦
            let (result, w') =
              toggle_spell_by_riot_id env (get_room_id_from_path request) toggle.game_name
                toggle.tag_line toggle.spell w in
            (change_response "Failed to toggle spell" "Player or spell not found" 200 result, w')
      ]
      else (http_error "Method not allowed" 405, w)

  -- The routes, by the parts of the path.
  route : List String → Request → W → Response × W
  unfolding get_room handle_add_player handle_toggle_spell
  route (id ∷ []) request w =
      if request.method == "GET"
      then get_room request w
      else (http_error "404 page not found" 404, w)
  route (id ∷ a ∷ []) request w =
      if a == "players"
      then handle_add_player request w
      else (http_error "404 page not found" 404, w)
  route (id ∷ a ∷ b ∷ []) request w =
      if a == "spells" && b == "toggle"
      then handle_toggle_spell request w
      else (http_error "404 page not found" 404, w)
  route _ request w = (http_error "404 page not found" 404, w)

  unfoldable pub handle_rooms : Request → W → Response × W
  unfolding route path_parts
  handle_rooms request w = route (path_parts request.path) request w

unfoldable pub get_current_room : String → String → Response
get_current_room method current_room_id =
    if method == "GET"
    then (if current_room_id == ""
        then http_error "Current room not found" 404
        else record { status = 200; body = current_room_body current_room_id })
    else http_error "Method not allowed" 405
