-- ===== src/Handlers/Routes.antt =====
-- The routes of internal/handlers/room_handler.go.
use lol_overlay.Handlers.{
  Response, message, no_body, no_body, message, err, first_part, List, champion_player, add_player,
  toggle_spell_by_riot_id, change_response, route, ToggleSpellRequest, ok, get_room_snapshot,
  handle_add_player, handle_toggle_spell, room_response, Request, get_room_id_from_path, get_room,
  handle_rooms, Decoders, RoomEnv, is_char, strip_prefix, trim_prefix, split_slash, path_parts,
}
use lol_overlay.Prelude.{
  Result, err, ok, true, false, if◌then◌else◌, if◌then◌else◌, ◌==◌, ◌∙◌, String, ◌≡◌, refl, ap,
  Bool, true, not, ◌&&◌, some, [], ◌∷◌, inl, inr, Bool-cases, arith,
}
use lol_overlay.RoomService.Locked.{add_player, toggle_spell_by_riot_id}
use lol_overlay.RoomService.Env.{RoomEnv}
use Prim.Native.String.{◌++◌}
use text.Mathlib.TextLemmas.{nil-append, cons-append}

-- A room id that the paths can carry: it has no slash.
unfoldable pub has_no_slash : String → Bool
has_no_slash String.[] = true
has_no_slash (String.◌∷◌ c s) = not (is_char c "/") && has_no_slash s

-- The path of a room, and of what follows the slash after it.
abbrev pub room_path : String → String
room_path id = "/rooms/" ++ id

abbrev pub below_room : String → String → String
below_room id rest = "/rooms/" ++ (id ++ String.◌∷◌ "/" rest)

strip_prefix-append : (p s : String) → strip_prefix p (p ++ s) ≡ some s
unfolding strip_prefix
strip_prefix-append String.[] s = ap some (nil-append s)
strip_prefix-append (String.◌∷◌ c p) s =
    rw (cons-append c p s) (ground (arith, strip_prefix-append p s))

split_slash-alone : (id : String) → has_no_slash id ≡ true → split_slash id ≡ id ∷ []
unfolding split_slash has_no_slash
split_slash-alone String.[] h = refl
split_slash-alone (String.◌∷◌ c s) h = elim (Bool-cases (is_char c "/")) [
  | inl e ↦ absurd (ground arith)
  | inr e ↦ let tail : has_no_slash s ≡ true = ground arith in rw (e, split_slash-alone s tail) refl
]

split_slash-append :
    (id rest : String)
    → has_no_slash id ≡ true
    → split_slash (id ++ String.◌∷◌ "/" rest) ≡ id ∷ split_slash rest
unfolding split_slash has_no_slash
split_slash-append String.[] rest h = rw (nil-append (String.◌∷◌ "/" rest)) refl
split_slash-append (String.◌∷◌ c s) rest h = elim (Bool-cases (is_char c "/")) [
  | inl e ↦ absurd (ground arith)
  | inr e ↦
      let tail : has_no_slash s ≡ true = ground arith in
      rw (cons-append c s (String.◌∷◌ "/" rest)) (rw (e, split_slash-append s rest tail) refl)
]

trim_prefix-append : (p s : String) → trim_prefix (p ++ s) p ≡ s
unfolding trim_prefix
trim_prefix-append p s = rw (strip_prefix-append p s, trim_prefix) refl

path_parts-room : (id : String) → has_no_slash id ≡ true → path_parts (room_path id) ≡ id ∷ []
unfolding path_parts
path_parts-room id h = ap split_slash (trim_prefix-append "/rooms/" id) ∙ split_slash-alone id h

path_parts-below :
    (id rest : String)
    → has_no_slash id ≡ true
    → path_parts (below_room id rest) ≡ id ∷ split_slash rest
unfolding path_parts
path_parts-below id rest h =
    ap split_slash (trim_prefix-append "/rooms/" (id ++ String.◌∷◌ "/" rest))
    ∙ split_slash-append id rest h

players_parts : split_slash "players" ≡ "players" ∷ []
players_parts = unfold split_slash in refl

toggle_parts : split_slash "spells/toggle" ≡ "spells" ∷ "toggle" ∷ []
toggle_parts = unfold split_slash in refl

module _ {W : Type 0} (env : RoomEnv W) (decoders : Decoders) (id : String)
    (plain : has_no_slash id ≡ true) (request : Request) (w : W) where
  named :
      (rest : List String)
      → path_parts request.path ≡ id ∷ rest
      → get_room_id_from_path request ≡ id
  unfolding get_room_id_from_path
  named rest parts = ap first_part parts

  route_room :
      request.path ≡ room_path id
      → request.method ≡ "GET"
      → handle_rooms env decoders request w ≡ (
        room_response env decoders (get_room_snapshot env id w).0,
        (get_room_snapshot env id w).1,
      )
  unfolding handle_rooms get_room
  route_room path method =
      let parts : path_parts request.path ≡ id ∷ [] =
        ap path_parts path ∙ path_parts-room id plain in
      let is_get : (request.method == "GET") ≡ true = rw method refl in
      rw (parts, is_get, route, get_room, named [] parts) refl

  route_players :
      (champion : String)
      → request.path ≡ below_room id "players"
      → request.method ≡ "POST"
      → decoders.create_player request.body ≡ ok champion
      → handle_rooms env decoders request w ≡ (
        change_response env decoders "Failed to add player" "Room not found" 201
            (add_player env id (champion_player champion) w).0,
        (add_player env id (champion_player champion) w).1,
      )
  unfolding handle_rooms handle_add_player
  route_players champion path method decoded =
      let parts : path_parts request.path ≡ id ∷ "players" ∷ [] =
        ap path_parts path
        ∙ path_parts-below id "players" plain
        ∙ ap (λ (l : List String). id ∷ l) players_parts in
      let is_post : (request.method == "POST") ≡ true = rw method refl in
      rw (parts, is_post, decoded, route, handle_add_player, named ("players" ∷ []) parts) refl

  toggle_response :
      (r : Result Bool)
      → change_response env decoders "Failed to toggle spell" "Player or spell not found" 200 r
        ≡ elim r [
          | err e ↦ record { status = 500; body = message "Failed to toggle spell" }
          | ok changed ↦
              if changed
              then record { status = 200; body = no_body }
              else record { status = 404; body = message "Player or spell not found" }
        ]
  unfolding change_response
  toggle_response (err e) = refl
  toggle_response (ok true) = refl
  toggle_response (ok false) = refl

  -- A POST to the toggle path of a room, for a room id without a slash and with a body that decodes,
  -- toggles the spell in that room, and the answer is 200 without a body when the toggle returns true, 404
  -- when it returns false and 500 when it returns an error.
  pub route_toggle :
      (toggle : ToggleSpellRequest)
      → request.path ≡ below_room id "spells/toggle"
      → request.method ≡ "POST"
      → decoders.toggle_spell_request request.body ≡ ok toggle
      → handle_rooms env decoders request w ≡ (
        elim (toggle_spell_by_riot_id env id toggle.game_name toggle.tag_line toggle.spell w).0 [
          | err e ↦ record { status = 500; body = message "Failed to toggle spell" }
          | ok changed ↦
              if changed
              then record { status = 200; body = no_body }
              else record { status = 404; body = message "Player or spell not found" }
        ],
        (toggle_spell_by_riot_id env id toggle.game_name toggle.tag_line toggle.spell w).1,
      )
  unfolding handle_rooms handle_toggle_spell
  route_toggle toggle path method decoded =
      let parts : path_parts request.path ≡ id ∷ "spells" ∷ "toggle" ∷ [] =
        ap path_parts path
        ∙ path_parts-below id "spells/toggle" plain
        ∙ ap (λ (l : List String). id ∷ l) toggle_parts in
      let is_post : (request.method == "POST") ≡ true = rw method refl in
      rw
        (
          parts,
          is_post,
          decoded,
          route,
          handle_toggle_spell,
          named ("spells" ∷ "toggle" ∷ []) parts,
        )
        (ap
          (λ (response : Response). (
            response,
            (toggle_spell_by_riot_id env id toggle.game_name toggle.tag_line toggle.spell w).1,
          ))
          (toggle_response
            (toggle_spell_by_riot_id env id toggle.game_name toggle.tag_line toggle.spell w).0))
