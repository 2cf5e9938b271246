-- ===== src/Repository/Postgres/Others.antt =====
-- What `Save` and `Delete` of internal/repositories/postgres/room do to the rooms of other ids.
use lol_overlay.Prelude.{
  wrap, Bool-cases, if◌then◌else◌, filter_none, Error, fun_ext, filter-append, All-map, ok, ◌&&◌,
  nat_eq, any-append, err, ◌||◌, Bool, none, ◌++◌, Option, Result, ap, ◌∙◌, ◌≤◌, String, ◌≡◌, refl,
  inl, inr, true, false, not, some, List, [], ◌∷◌, arith, ◌==◌, eq_iff, All, find, filter,
}
use lol_overlay.Repository.Postgres.{
  delete_room, delete, save, RoomTransaction, delete_players, RoomRow, PlayerRow, SpellRow, Tables,
  Columns, in_room, has_player,
}
use lol_overlay.Repository.Postgres.Saved.{
  save-Outcome, Outcome, saved, player_rows, all_spell_rows,
}
use lol_overlay.Repository.Postgres.Load.{quiet, in_join, load_room, get}
use lol_overlay.Repository.Postgres.RoundTrip.{IsFresh}
use mathlib.Core.List.{append-nil}
use lol_overlay.Models.{Room}
use lol_overlay.Repository.Postgres.Untouched.{
  SameRoom, get-SameRoom, players-other, join-other, spells-other, upsert-other, rooms-other,
  player_rows-other, join-new_player, join-fresh, all_spell_rows-late,
}

or_false : (b : Bool) → b || false ≡ b
or_false true = refl
or_false false = refl

module _ (columns : Columns) (room : Room) (other : String)
    (apart : (room.id == other) ≡ false) where
  saved-SameRoom : (t : Tables) → IsFresh t → SameRoom other t (saved columns room t)
  unfolding delete_players
  saved-SameRoom t fresh =
      let old = filter (λ (row : PlayerRow). not (in_room room.id row)) t.players in
      let new = player_rows columns t.next_player room.id room.players in
      let spells = filter (has_player old) t.spells in
      let added = all_spell_rows columns t.next_spell t.next_player room.players in
      let joins : (row : SpellRow) → in_join other (old ++ new) row ≡ in_join other t.players row =
        λ row.
          any-append
            (λ (player : PlayerRow). nat_eq player.id row.player_id && in_room other player) old new
          ∙ rw
              (
                join-other room.id other apart t.players row,
                join-new_player room.id other apart columns t.next_player room.players row,
              )
              (or_false (in_join other t.players row)) in
      let none_added : All (λ (row : SpellRow). in_join other t.players row ≡ false) added =
        All-map (λ (row : SpellRow). t.next_player ≤ row.player_id)
          (λ (row : SpellRow). in_join other t.players row ≡ false)
          (λ row le. join-fresh room.id other apart columns t.next_player t.players row fresh.0 le)
          added
          (all_spell_rows-late room.id other apart columns t.next_spell t.next_player t.next_player
            room.players (omega arith)) in
      record {
        same_row =
            upsert-other room.id other apart
              (record { id = room.id; last_updated = columns.timestamp room.last_updated }) t.rooms
              refl;
        same_players =
            filter-append (in_room other) old new
            ∙ rw
                (
                  player_rows-other room.id other apart columns t.next_player room.players,
                  append-nil (filter (in_room other) old),
                )
                (players-other room.id other apart t.players);
        same_spells =
            ap (λ (f : SpellRow → Bool). filter f (spells ++ added)) (fun_ext joins)
            ∙ filter-append (in_join other t.players) spells added
            ∙ rw
                (
                  filter_none (in_join other t.players) added none_added,
                  append-nil (filter (in_join other t.players) spells),
                )
                (spells-other room.id other apart t.players t.spells);
      }

  Outcome-SameRoom :
      (tx : RoomTransaction) (t : Tables) (r : Result (Unit {0})) (after : Tables)
      → IsFresh t
      → Outcome columns tx room t (r, after)
      → SameRoom other t after
  Outcome-SameRoom tx t (ok x) after fresh wrote = rw wrote (saved-SameRoom t fresh)
  Outcome-SameRoom tx t (err e) after fresh (inl same) = record {
    same_row = rw same.0 refl;
    same_players = rw same.1 refl;
    same_spells = rw (same.1, same.2) refl;
  }
  Outcome-SameRoom tx t (err e) after fresh (inr wrote) = rw wrote.1 (saved-SameRoom t fresh)

  -- Whatever a save returns, a room of another id loads as before.
  pub get-save_other :
      (tx : RoomTransaction) (t : Tables)
      → IsFresh t
      → get (quiet (save columns tx room t).1) other ≡ get (quiet t) other
  get-save_other tx t fresh =
      let r = save columns tx room t in
      get-SameRoom other t r.1
        (Outcome-SameRoom tx t r.0 r.1 fresh (save-Outcome columns tx room t))

get_missing :
    (id : String) (t : Tables)
    → find (λ (row : RoomRow). row.id == id) t.rooms ≡ none
    → get (quiet t) id ≡ ok none
unfolding get load_room
get_missing id t gone = elim (Bool-cases (id == "")) [
  | inl e ↦ rw e refl
  | inr e ↦ rw (e, gone) refl
]

rooms-gone :
    (id : String) (rows : List RoomRow)
    → find (λ (row : RoomRow). row.id == id) (filter (λ (row : RoomRow). not (row.id == id)) rows)
      ≡ none
rooms-gone id [] = refl
rooms-gone id (x ∷ rest) = ground (arith, rooms-gone id rest)

deleted-SameRoom :
    (id other : String) (t : Tables) → (id == other) ≡ false → SameRoom other t (delete_room id t)
unfolding delete_room delete_players
deleted-SameRoom id other t apart = record {
  same_row = rooms-other id other apart t.rooms;
  same_players = players-other id other apart t.players;
  same_spells =
      ap
        (λ (f : SpellRow → Bool). filter f (
          filter (has_player (filter (λ (row : PlayerRow). not (in_room id row)) t.players))
            t.spells))
        (fun_ext (join-other id other apart t.players))
      ∙ spells-other id other apart t.players t.spells;
}

get-delete_room :
    (id other : String) (t : Tables)
    → get (quiet (delete_room id t)) other ≡ (if id == other then ok none else get (quiet t) other)
get-delete_room id other t = elim (Bool-cases (id == other)) [
  | inl same ↦
      let gone : find (λ (row : RoomRow). row.id == other) (delete_room id t).rooms ≡ none =
        rw ((eq_iff id other).0 same)
          (unfold delete_room delete_players in rooms-gone other t.rooms) in
      rw same (get_missing other (delete_room id t) gone)
  | inr apart ↦
      rw apart (get-SameRoom other t (delete_room id t) (deleted-SameRoom id other t apart))
]

-- A delete returns an error exactly where its statement fails. Where the statement succeeds, or fails
-- although it was applied, no room is left under its id and a room of another id loads as before; where
-- it fails and was not applied, every room loads as before.
pub get-delete :
    (fault : Option Error) (applied : Bool) (id other : String) (t : Tables)
    → ((delete fault applied id t).0
        ≡ elim fault [ some e ↦ err (wrap "delete room" e) | none ↦ ok tt ])
      × (get (quiet (delete fault applied id t).1) other ≡ (
          if (elim fault [ some e ↦ applied | none ↦ true ]) && id == other
          then ok none
          else get (quiet t) other))
unfolding delete
get-delete (some e) false id other t = (refl, refl)
get-delete (some e) true id other t = (refl, get-delete_room id other t)
get-delete none applied id other t = (refl, get-delete_room id other t)
