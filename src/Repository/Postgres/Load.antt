-- ===== src/Repository/Postgres/Load.antt =====
-- internal/repositories/postgres/room/load.go, with `Get` and `GetAll` of repository.go. Each query reads
-- the tables as they are then: other transactions may commit between two queries of one load. An error
-- while rows are scanned is an error of the query.
use lol_overlay.Prelude.{
  ℕ, String, Bool, ◌&&◌, Option, none, some, List, [], ◌∷◌, ◌++◌, map, ◌==◌, ltb, nat_eq,
  if◌then◌else◌, find, modify_first, filter, any, Error, Result, failure, wrap, ok, err,
}
use lol_overlay.Models.{zero_time, SummonerSpell, Player, Room}
use lol_overlay.Repository.Postgres.{RoomRow, PlayerRow, SpellRow, Tables, in_room}

-- The faults of the three queries of one load, and the tables that they see.
pub record Reads : Type 0 where
  pub room_fault : Option Error
  pub players_fault : Option Error
  pub spells_fault : Option Error
  pub at_room : Tables
  pub at_players : Tables
  pub at_spells : Tables

-- A load without faults, and without another transaction between its queries.
abbrev pub quiet : Tables → Reads
quiet t = record {
  room_fault = none;
  players_fault = none;
  spells_fault = none;
  at_room = t;
  at_players = t;
  at_spells = t;
}

-- A player with the id of its row; the map of indexes finds a player by it.
abbrev pub Loaded : Type 0
Loaded = ℕ × Player

abbrev pub to_player : PlayerRow → Loaded
to_player row = (
  row.id,
  record {
    champion = row.champion;
    champion_image = row.champion_image;
    game_name = row.game_name;
    tag_line = row.tag_line;
    champion_id = row.champion_id;
    summoner_spell_haste = row.summoner_spell_haste;
    spells = [];
  },
)

abbrev pub to_spell : SpellRow → SummonerSpell
to_spell row = record {
  name = row.name;
  is_ready = row.is_ready;
  base_cooldown = row.base_cooldown;
  cooldown_end_time = elim row.cooldown_end_time [ none ↦ zero_time | some t ↦ t ];
  remaining_cooldown = row.remaining_cooldown;
}

unfoldable pub load_players : String → Tables → List Loaded
load_players room_id t = map to_player (filter (in_room room_id) t.players)

-- The spells of the join with the players of the room.
abbrev pub in_join : String → List PlayerRow → SpellRow → Bool
in_join room_id players row =
    any (λ (player : PlayerRow). nat_eq player.id row.player_id && in_room room_id player) players

abbrev pub add_spell : SpellRow → Loaded → Loaded
add_spell row (id, player) = (id, record player { spells = player.spells ++ to_spell row ∷ [] })

abbrev pub is_player : SpellRow → Loaded → Bool
is_player row (id, player) = nat_eq id row.player_id

-- The loop of `loadSpells`; `none` is its error on a player that was not loaded.
unfoldable pub attach : List SpellRow → List Loaded → Option (List Loaded)
attach [] loaded = some loaded
attach (row ∷ rest) loaded = elim (modify_first (is_player row) (add_spell row) loaded) [
  | none ↦ none
  | some loaded' ↦ attach rest loaded'
]

abbrev pub room_of : RoomRow → List Loaded → Room
room_of row loaded = record {
  id = row.id;
  players = map (λ (l : Loaded). l.1) loaded;
  last_updated = row.last_updated;
}

unfoldable pub load_spells : Reads → RoomRow → List Loaded → Result (Option Room)
unfolding attach
load_spells reads row loaded = elim reads.spells_fault [
  | some e ↦ err (wrap "select spells for room" e)
  | none ↦
      elim (attach (filter (in_join row.id reads.at_spells.players) reads.at_spells.spells)
        loaded) [
          | none ↦ err (failure "player not found while loading room")
          | some loaded' ↦ ok (some (room_of row loaded'))
        ]
]

unfoldable pub load_room : Reads → String → Result (Option Room)
unfolding load_players load_spells
load_room reads room_id = elim reads.room_fault [
  | some e ↦ err (wrap "select room" e)
  | none ↦ elim (find (λ (row : RoomRow). row.id == room_id) reads.at_room.rooms) [
    | none ↦ ok none
    | some row ↦ elim reads.players_fault [
      | some e ↦ err (wrap "select players for room" e)
      | none ↦ load_spells reads row (load_players room_id reads.at_players)
    ]
  ]
]

unfoldable pub get : Reads → String → Result (Option Room)
get reads id = if id == "" then ok none else load_room reads id

-- ORDER BY last_updated DESC; rows of the same time stay in the order of the table.
insert_newest : RoomRow → List RoomRow → List RoomRow
insert_newest row [] = row ∷ []
insert_newest row (x ∷ xs) =
    let rest = insert_newest row xs in
    if ltb row.last_updated x.last_updated then x ∷ rest else row ∷ x ∷ xs

unfoldable pub newest_first : List RoomRow → List RoomRow
unfolding insert_newest
newest_first [] = []
newest_first (row ∷ rest) = insert_newest row (newest_first rest)

add_loaded : Result (Option Room) → Result (List Room) → Result (List Room)
add_loaded (err e) rest = err e
add_loaded (ok none) rest = rest
add_loaded (ok (some room)) (ok rooms) = ok (room ∷ rooms)
add_loaded (ok (some room)) (err e) = err e

load_all : (String → Reads) → List RoomRow → Result (List Room)
unfolding add_loaded
load_all reads [] = ok []
load_all reads (row ∷ rest) = add_loaded (load_room (reads row.id) row.id) (load_all reads rest)

-- The query of the ids may fail, and sees its own tables.
unfoldable pub get_all : Option Error → Tables → (String → Reads) → Result (List Room)
unfolding load_all newest_first
get_all fault at_ids reads = elim fault [
  | some e ↦ err (wrap "select room ids" e)
  | none ↦ load_all reads (newest_first at_ids.rooms)
]
