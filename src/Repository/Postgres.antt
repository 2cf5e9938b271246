-- ===== src/Repository/Postgres.antt =====
-- internal/repositories/postgres/room: `Save` and `Delete` on the tables of migrations/001 to 003. The
-- rows of a table stand in the order of their ids. What the database adds is an argument: the faults of
-- its statements, whether a commit or a delete that returned an error took effect all the same, and what its
-- columns keep of a time. A room is never nil here.
pub mod Load
pub mod Saved
pub mod Joins
pub mod RoundTrip
pub mod Untouched
pub mod Others
pub mod Freshness
pub mod Torn
use lol_overlay.Prelude.{
  ℕ, zero, suc, ◌+◌, ◌-◌, ◌*◌, ◌/◌, ◌%◌, ◌^◌, ◌≤◌, ◌<◌, min, String, ◌≡◌, refl, sym, ap, ◌∙◌,
  fun_ext, ◌≢◌, ◌↔◌, ◌⊎◌, inl, inr, Bool, true, false, not, ◌&&◌, ◌||◌, Option, none, some, List,
  [], ◌∷◌, ◌++◌, map, arith, ◌==◌, eq_iff, eq_refl, ltb, leb, nat_eq, if◌then◌else◌, ℤ, int_eq,
  is_positive, Bool-cases, Option-cases, pos, negsuc, All, length, length-append, take, drop, find,
  modify_first, All-append, filter, any, filter-append, any-append, filter-All, filter_none,
  any_none, Error, Result, map_err, Result-cases, map_err_ok, failure, wrap, ok, err, Exec, pure,
  wrapping, continue, ◌>>=◌, ◌>>◌,
}
use mathlib.Core.Option
use lol_overlay.Models.{Time, is_zero, SummonerSpell, Player, Room}

-- A row of `rooms`.
pub record RoomRow : Type 0 where
  pub id : String
  pub last_updated : Time

-- A row of `players`.
pub record PlayerRow : Type 0 where
  pub id : ℕ
  pub room_id : String
  pub game_name : String
  pub tag_line : String
  pub champion : String
  pub champion_image : String
  pub champion_id : ℤ
  pub summoner_spell_haste : ℕ

-- A row of `summoner_spells`.
pub record SpellRow : Type 0 where
  pub id : ℕ
  pub player_id : ℕ
  pub name : String
  pub is_ready : Bool
  pub base_cooldown : ℕ
  pub remaining_cooldown : ℕ
  pub cooldown_end_time : Option Time

-- The tables, and the next values of the sequences of their ids.
pub record Tables : Type 0 where
  pub rooms : List RoomRow
  pub players : List PlayerRow
  pub spells : List SpellRow
  pub next_player : ℕ
  pub next_spell : ℕ

-- What the columns TIMESTAMP and TIMESTAMPTZ keep of a time.
pub record Columns : Type 0 where
  pub timestamp : Time → Time
  pub timestamptz : Time → Time

-- The faults of the inserts go by the id that the row would have.
pub record RoomTransaction : Type 0 where
  pub begin_fault : Option Error
  pub upsert_fault : Option Error
  pub delete_fault : Option Error
  pub player_fault : ℕ → Option Error
  pub spell_fault : ℕ → Option Error
  pub commit_fault : Option Error
  pub commit_kept : Bool

abbrev pub in_room : String → PlayerRow → Bool
in_room room_id row = row.room_id == room_id

abbrev pub has_player : List PlayerRow → SpellRow → Bool
has_player players row = any (λ (player : PlayerRow). nat_eq player.id row.player_id) players

-- The deletion of the players of a room; ON DELETE CASCADE removes the spells that are left without a
-- player.
unfoldable pub delete_players : String → Tables → Tables
delete_players room_id t =
    let players = filter (λ (row : PlayerRow). not (in_room room_id row)) t.players in
    record t { players = players; spells = filter (has_player players) t.spells }

-- INSERT … ON CONFLICT (id) DO UPDATE
unfoldable pub upsert : RoomRow → List RoomRow → List RoomRow
upsert row [] = row ∷ []
upsert row (x ∷ xs) = let rest = upsert row xs in if x.id == row.id then row ∷ xs else x ∷ rest

abbrev pub nullable_time : Time → Option Time
nullable_time value = if is_zero value then none else some value

module _ (columns : Columns) where
  abbrev pub player_row : ℕ → String → Player → PlayerRow
  player_row id room_id player = record {
    id = id;
    room_id = room_id;
    game_name = player.game_name;
    tag_line = player.tag_line;
    champion = player.champion;
    champion_image = player.champion_image;
    champion_id = player.champion_id;
    summoner_spell_haste = player.summoner_spell_haste;
  }

  abbrev pub spell_row : ℕ → ℕ → SummonerSpell → SpellRow
  spell_row id player_id spell = record {
    id = id;
    player_id = player_id;
    name = spell.name;
    is_ready = spell.is_ready;
    base_cooldown = spell.base_cooldown;
    remaining_cooldown = spell.remaining_cooldown;
    cooldown_end_time = Option.map columns.timestamptz (nullable_time spell.cooldown_end_time);
  }

  abbrev pub insert_player : String → Player → Tables → Tables
  insert_player room_id player t = record t {
    players = t.players ++ player_row t.next_player room_id player ∷ [];
    next_player = suc t.next_player;
  }

  abbrev pub insert_spell : ℕ → SummonerSpell → Tables → Tables
  insert_spell player_id spell t = record t {
    spells = t.spells ++ spell_row t.next_spell player_id spell ∷ [];
    next_spell = suc t.next_spell;
  }

  module _ (tx : RoomTransaction) where
    unfoldable pub save_spells : ℕ → List SummonerSpell → Exec Tables (Unit {0})
    save_spells player_id [] t = (ok tt, t)
    save_spells player_id (spell ∷ rest) t =
        let saved = save_spells player_id rest (insert_spell player_id spell t) in
        elim (tx.spell_fault t.next_spell) [
          | some e ↦ (err (wrap "insert spell" e), t)
          | none ↦ saved
        ]

    unfoldable pub save_player : String → Player → Exec Tables (Unit {0})
    unfolding save_spells
    save_player room_id player t = elim (tx.player_fault t.next_player) [
      | some e ↦ (err (wrap "insert player" e), t)
      | none ↦ save_spells t.next_player player.spells (insert_player room_id player t)
    ]

    unfoldable pub save_players : String → List Player → Exec Tables (Unit {0})
    save_players room_id [] = pure tt
    save_players room_id (player ∷ rest) = save_player room_id player >> save_players room_id rest

    upsert_room : Room → Exec Tables (Unit {0})
    upsert_room room t = elim tx.upsert_fault [
      | some e ↦ (err (wrap "upsert room" e), t)
      | none ↦ (
        ok tt,
        record t {
          rooms =
              upsert (record { id = room.id; last_updated = columns.timestamp room.last_updated })
                t.rooms;
        },
      )
    ]

    delete_old_players : String → Exec Tables (Unit {0})
    delete_old_players room_id t = elim tx.delete_fault [
      | some e ↦ (err (wrap "delete old players for room" e), t)
      | none ↦ (ok tt, delete_players room_id t)
    ]

    unfoldable pub save_room : Room → Exec Tables (Unit {0})
    unfolding upsert_room delete_old_players
    save_room room =
        upsert_room room >> delete_old_players room.id >> save_players room.id room.players

    -- A rollback leaves the sequences advanced.
    abbrev pub rollback : Tables → Tables → Tables
    rollback before after = record before {
      next_player = after.next_player;
      next_spell = after.next_spell;
    }

    finish : Tables → Result (Unit {0}) × Tables → Result (Unit {0}) × Tables
    finish before (err e, after) = (err e, rollback before after)
    finish before (ok _, after) = elim tx.commit_fault [
      | none ↦ (ok tt, after)
      | some e ↦ (
        err (wrap "commit room save transaction" e),
        if tx.commit_kept then after else rollback before after,
      )
    ]

    unfoldable pub save : Room → Exec Tables (Unit {0})
    unfolding finish
    save room t = elim tx.begin_fault [
      | some e ↦ (err (wrap "begin room save transaction" e), t)
      | none ↦ finish t (save_room room t)
    ]

-- `Delete`; its one statement may fail.
-- The statement, with its cascade.
unfoldable pub delete_room : String → Tables → Tables
unfolding delete_players
delete_room id t =
    delete_players id (record t { rooms = filter (λ (row : RoomRow). not (row.id == id)) t.rooms })

-- A statement whose answer is lost is `applied` beside its fault.
unfoldable pub delete : Option Error → Bool → String → Exec Tables (Unit {0})
unfolding delete_room
delete fault applied id t = elim fault [
  | some e ↦ (err (wrap "delete room" e), if applied then delete_room id t else t)
  | none ↦ (ok tt, delete_room id t)
]
