-- ===== src/Repository/Postgres/Untouched.antt =====
-- Tables of internal/repositories/postgres/room that hold the same rows of a room, and the parts of `Save`
-- and `Delete` that keep the rows of other rooms.
use lol_overlay.Prelude.{
  ok, failure, err, none, map, Option, sym, Result, ap, ◌∙◌, ℕ, suc, ◌+◌, ◌≤◌, ◌<◌, String, ◌≡◌,
  refl, inl, inr, true, false, not, some, List, [], ◌∷◌, arith, ◌==◌, eq_iff, Option-cases, All,
  length, find, All-append, filter,
}
use lol_overlay.Repository.Postgres.Saved.{spell_rows, player_rows, all_spell_rows}
use lol_overlay.Repository.Postgres.{
  RoomRow, PlayerRow, SpellRow, Tables, Columns, in_room, has_player, upsert,
}
use lol_overlay.Repository.Postgres.Load.{
  room_of, to_player, attach, quiet, load_players, in_join, load_spells, load_room, get,
}
use lol_overlay.Models.{Room, SummonerSpell, Player}

-- Two tables that hold the same rows of a room.
pub record SameRoom (id : String) (t t' : Tables) : Type 0 where
  pub same_row :
      find (λ (row : RoomRow). row.id == id) t'.rooms
      ≡ find (λ (row : RoomRow). row.id == id) t.rooms
  pub same_players : filter (in_room id) t'.players ≡ filter (in_room id) t.players
  pub same_spells :
      filter (in_join id t'.players) t'.spells ≡ filter (in_join id t.players) t.spells

find_room :
    (id : String) (rows : List RoomRow) (row : RoomRow)
    → find (λ (row : RoomRow). row.id == id) rows ≡ some row
    → row.id ≡ id
find_room id [] row h = cc
find_room id (x ∷ rest) row h = ground (arith, eq_iff x.id id, find_room id rest row)

abbrev of_rows : RoomRow → List SpellRow → List PlayerRow → Result (Option Room)
of_rows row spells players = elim (attach spells (map to_player players)) [
  | none ↦ err (failure "player not found while loading room")
  | some loaded ↦ ok (some (room_of row loaded))
]

load_found :
    (id : String) (t : Tables) (row : RoomRow)
    → find (λ (row : RoomRow). row.id == id) t.rooms ≡ some row
    → load_room (quiet t) id
      ≡ of_rows row (filter (in_join id t.players) t.spells) (filter (in_room id) t.players)
unfolding load_room load_spells load_players
load_found id t row f = rw f (
    ap
      (λ (x : String).
        of_rows row (filter (in_join x t.players) t.spells) (filter (in_room id) t.players))
      (find_room id t.rooms row f))

load-SameRoom :
    (id : String) (t t' : Tables)
    → SameRoom id t t'
    → load_room (quiet t') id ≡ load_room (quiet t) id
unfolding load_room
load-SameRoom id t t' same = elim (Option-cases (find (λ (row : RoomRow). row.id == id) t.rooms)) [
  | inl f ↦ rw (same.same_row, f) refl
  | inr (row, f) ↦
      load_found id t' row (same.same_row ∙ f)
      ∙ ap (λ (spells : List SpellRow). of_rows row spells (filter (in_room id) t'.players))
          same.same_spells
      ∙ ap (of_rows row (filter (in_join id t.players) t.spells)) same.same_players
      ∙ sym (load_found id t row f)
]

pub get-SameRoom :
    (id : String) (t t' : Tables) → SameRoom id t t' → get (quiet t') id ≡ get (quiet t) id
unfolding get
get-SameRoom id t t' same = rw (load-SameRoom id t t' same) refl

module _ (id other : String) (apart : (id == other) ≡ false) where
  pub players-other :
      (rows : List PlayerRow)
      → filter (in_room other) (filter (λ (row : PlayerRow). not (in_room id row)) rows)
        ≡ filter (in_room other) rows
  players-other [] = refl
  players-other (row ∷ rest) =
      ground (
        arith,
        eq_iff row.room_id id,
        eq_iff row.room_id other,
        eq_iff id other,
        players-other rest,
      )

  pub join-other :
      (rows : List PlayerRow) (row : SpellRow)
      → in_join other (filter (λ (row : PlayerRow). not (in_room id row)) rows) row
        ≡ in_join other rows row
  join-other [] row = refl
  join-other (x ∷ rest) row =
      ground
        (arith, eq_iff x.room_id id, eq_iff x.room_id other, eq_iff id other, join-other rest row)

  join-kept :
      (rows : List PlayerRow) (row : SpellRow)
      → in_join other rows row ≡ true
      → has_player (filter (λ (row : PlayerRow). not (in_room id row)) rows) row ≡ true
  join-kept [] row h = h
  join-kept (x ∷ rest) row h =
      ground
        (arith, eq_iff x.room_id id, eq_iff x.room_id other, eq_iff id other, join-kept rest row)

  pub spells-other :
      (players : List PlayerRow) (spells : List SpellRow)
      → filter
          (in_join other players)
          (filter (has_player (filter (λ (row : PlayerRow). not (in_room id row)) players)) spells)
        ≡ filter (in_join other players) spells
  spells-other players [] = refl
  spells-other players (row ∷ rest) =
      ground (arith, join-kept players row, spells-other players rest)

  pub upsert-other :
      (row : RoomRow) (rows : List RoomRow)
      → row.id ≡ id
      → find (λ (row : RoomRow). row.id == other) (upsert row rows)
        ≡ find (λ (row : RoomRow). row.id == other) rows
  unfolding upsert
  upsert-other row [] h = ground (arith, eq_iff row.id other, eq_iff id other)
  upsert-other row (x ∷ rest) h = ground (
    arith,
    eq_iff row.id other,
    eq_iff x.id row.id,
    eq_iff x.id other,
    eq_iff id other,
    upsert-other row rest h,
  )

  pub rooms-other :
      (rows : List RoomRow)
      → find
          (λ (row : RoomRow). row.id == other)
          (filter (λ (row : RoomRow). not (row.id == id)) rows)
        ≡ find (λ (row : RoomRow). row.id == other) rows
  rooms-other [] = refl
  rooms-other (x ∷ rest) =
      ground (arith, eq_iff x.id id, eq_iff x.id other, eq_iff id other, rooms-other rest)

  module _ (columns : Columns) where
    pub player_rows-other :
        (n : ℕ) (players : List Player)
        → filter (in_room other) (player_rows columns n id players) ≡ []
    player_rows-other n [] = refl
    player_rows-other n (player ∷ rest) = rw (apart, player_rows-other (suc n) rest) refl

    pub join-new_player :
        (n : ℕ) (players : List Player) (row : SpellRow)
        → in_join other (player_rows columns n id players) row ≡ false
    join-new_player n [] row = refl
    join-new_player n (player ∷ rest) row = ground (arith, join-new_player (suc n) rest row)

    pub join-fresh :
        (n : ℕ) (rows : List PlayerRow) (row : SpellRow)
        → All (λ (row : PlayerRow). row.id < n) rows
        → n ≤ row.player_id
        → in_join other rows row ≡ false
    join-fresh n [] row h le = refl
    join-fresh n (x ∷ rest) row h le = ground (arith, h.0, join-fresh n rest row h.1 le)

    spell_rows-late :
        (k n m : ℕ) (spells : List SummonerSpell)
        → m ≤ n
        → All (λ (row : SpellRow). m ≤ row.player_id) (spell_rows columns k n spells)
    spell_rows-late k n m [] h = tt
    spell_rows-late k n m (spell ∷ rest) h = (h, spell_rows-late (suc k) n m rest h)

    pub all_spell_rows-late :
        (k n m : ℕ) (players : List Player)
        → m ≤ n
        → All (λ (row : SpellRow). m ≤ row.player_id) (all_spell_rows columns k n players)
    all_spell_rows-late k n m [] h = tt
    all_spell_rows-late k n m (player ∷ rest) h =
        All-append (λ (row : SpellRow). m ≤ row.player_id) (spell_rows columns k n player.spells)
          (all_spell_rows columns (k + length player.spells) (suc n) rest)
          (spell_rows-late k n m player.spells h)
          (all_spell_rows-late (k + length player.spells) (suc n) m rest (omega arith))
