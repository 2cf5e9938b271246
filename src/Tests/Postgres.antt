-- ===== src/Tests/Postgres.antt =====
-- Rooms in the tables of internal/repositories/postgres/room.
use lol_overlay.Prelude.{
  wrap, err, ℕ, ◌*◌, ◌/◌, String, ◌≡◌, refl, true, false, none, some, List, [], ◌∷◌, arith, nat_eq,
  if◌then◌else◌, pos, failure, ok,
}
use lol_overlay.Repository.Postgres.Torn.{torn_load, torn}
use lol_overlay.Repository.Postgres.Load.{load_room, quiet, get}
use lol_overlay.Repository.Postgres.Saved.{Outcome, save-Outcome}
use lol_overlay.Repository.Postgres.{
  delete_players, save_spells, save_player, save_players, save_room, Tables, Columns,
  RoomTransaction, save, delete,
}
use lol_overlay.Repository.Postgres.RoundTrip.{get-save, IsFresh, kept_room}
use lol_overlay.Repository.Postgres.Others.{get-delete, get-save_other}
use lol_overlay.Models.{SummonerSpell, Player, Room}

-- Both columns keep microseconds.
abbrev columns : Columns
columns = record { timestamp = λ t. t / 1000 * 1000; timestamptz = λ t. t / 1000 * 1000 }

abbrev calm : RoomTransaction
calm = record {
  begin_fault = none;
  upsert_fault = none;
  delete_fault = none;
  player_fault = λ id. none;
  spell_fault = λ id. none;
  commit_fault = none;
  commit_kept = false;
}

-- The second player cannot be inserted.
abbrev broken : RoomTransaction
broken = record calm {
  player_fault = λ id. if nat_eq id 4 then some (failure "connection closed") else none;
}

abbrev spell : String → ℕ → SummonerSpell
spell name end_time = record {
  name = name;
  is_ready = nat_eq end_time 0;
  base_cooldown = 300;
  cooldown_end_time = end_time;
  remaining_cooldown = 0;
}

abbrev player : String → List SummonerSpell → Player
player name spells = record {
  champion = "Ahri";
  champion_image = "";
  game_name = name;
  tag_line = "EUW";
  champion_id = pos 103;
  summoner_spell_haste = 18;
  spells = spells;
}

abbrev room : Room
room = record {
  id = "7-100";
  players =
      player "mid" (spell "Flash" 12345 ∷ spell "Ignite" 0 ∷ [])
      ∷ player "top" (spell "Heal" 0 ∷ [])
      ∷ [];
  last_updated = 9876;
}

-- Another room with one player and one spell, and the old player of the room.
abbrev tables : Tables
tables = record {
  rooms =
      record { id = "8-200"; last_updated = 5000 }
      ∷ record { id = "7-100"; last_updated = 4000 }
      ∷ [];
  players =
      record {
        id = 1;
        room_id = "8-200";
        game_name = "bot";
        tag_line = "EUW";
        champion = "Jinx";
        champion_image = "";
        champion_id = pos 222;
        summoner_spell_haste = 18;
      }
      ∷ record {
        id = 2;
        room_id = "7-100";
        game_name = "old";
        tag_line = "EUW";
        champion = "Ahri";
        champion_image = "";
        champion_id = pos 103;
        summoner_spell_haste = 18;
      }
      ∷ [];
  spells =
      record {
        id = 1;
        player_id = 1;
        name = "Heal";
        is_ready = true;
        base_cooldown = 240;
        remaining_cooldown = 0;
        cooldown_end_time = none;
      }
      ∷ record {
        id = 2;
        player_id = 2;
        name = "Flash";
        is_ready = true;
        base_cooldown = 300;
        remaining_cooldown = 0;
        cooldown_end_time = none;
      }
      ∷ [];
  next_player = 3;
  next_spell = 3;
}

tables-IsFresh : IsFresh tables
tables-IsFresh = ((omega arith, (omega arith, tt)), (omega arith, (omega arith, tt)))

saved_ok : (save columns calm room tables).0 ≡ ok tt
unfolding save save_room save_players save_player save_spells
saved_ok = refl

-- A save that fails on its second player leaves the tables and takes one id of the sequence.
rolled_back : (save columns broken room tables).1.players ≡ tables.players
unfolding save save_room save_players save_player save_spells delete_players
rolled_back = refl

get-save_example :
    get (quiet (save columns calm room tables).1) "7-100" ≡ ok (some (kept_room columns room))
get-save_example = get-save columns calm room tables tables-IsFresh refl saved_ok

get-save_other_example :
    get (quiet (save columns broken room tables).1) "8-200" ≡ get (quiet tables) "8-200"
get-save_other_example = get-save_other columns room "8-200" refl broken tables tables-IsFresh

save-Outcome_example : Outcome columns broken room tables (save columns broken room tables)
save-Outcome_example = save-Outcome columns broken room tables

get-delete_example :
    ((delete (some (failure "timeout")) true "7-100" tables).0
      ≡ err (wrap "delete room" (failure "timeout")))
    × (get (quiet (delete (some (failure "timeout")) true "7-100" tables).1) "8-200"
        ≡ get (quiet tables) "8-200")
get-delete_example = get-delete (some (failure "timeout")) true "7-100" "8-200" tables

torn_load_example :
    load_room (torn tables (save columns calm room tables).1) "7-100"
    ≡ err (failure "player not found while loading room")
torn_load_example =
    torn_load columns calm room (record { id = "7-100"; last_updated = 4000 }) tables tables-IsFresh
      refl refl (omega arith) saved_ok
