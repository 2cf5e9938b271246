-- ===== src/Repository/Postgres/Torn.antt =====
-- A load of internal/repositories/postgres/room/load.go with a `Save` of the same room between its queries:
-- the queries run on the pool, outside of a transaction.
use lol_overlay.Prelude.{
  ap, ◌∙◌, ℕ, suc, ◌+◌, ◌≤◌, ◌<◌, String, ◌≡◌, refl, inl, inr, none, some, List, [], ◌∷◌, ◌++◌, map,
  arith, ◌==◌, Bool-cases, All, length, find, modify_first, filter, failure, ok, err,
}
use lol_overlay.Repository.Postgres.Load.{
  in_join, Reads, quiet, Loaded, to_player, load_players, is_player, add_spell, attach, load_spells,
  load_room,
}
use lol_overlay.Models.{SummonerSpell, Player, Room}
use lol_overlay.Repository.Postgres.{
  RoomRow, PlayerRow, SpellRow, Tables, Columns, RoomTransaction, in_room, spell_row, save,
}
use lol_overlay.Repository.Postgres.Saved.{all_spell_rows, spell_rows, count_spells, saved, save-ok}
use lol_overlay.Repository.Postgres.Joins.{join-saved}
use lol_overlay.Repository.Postgres.RoundTrip.{IsFresh}

-- The load sees the save in its query of the spells alone.
abbrev pub torn : Tables → Tables → Reads
torn before after = record (quiet before) { at_spells = after }

abbrev Early : ℕ → List Loaded → Type 0
Early n = All (λ (l : Loaded). l.0 < n)

loaded-Early :
    (n : ℕ) (room_id : String) (rows : List PlayerRow)
    → All (λ (row : PlayerRow). row.id < n) rows
    → Early n (map to_player (filter (in_room room_id) rows))
loaded-Early n room_id [] h = tt
loaded-Early n room_id (row ∷ rest) h = elim (Bool-cases (in_room room_id row)) [
  | inl e ↦ rw e (h.0, loaded-Early n room_id rest h.1)
  | inr e ↦ rw e (loaded-Early n room_id rest h.1)
]

modify-Early :
    (n : ℕ) (row : SpellRow) (loaded : List Loaded)
    → n ≤ row.player_id
    → Early n loaded
    → modify_first (is_player row) (add_spell row) loaded ≡ none
modify-Early n row [] le h = refl
modify-Early n row ((id, player) ∷ rest) le h = ground (arith, h.0, modify-Early n row rest le h.1)

module _ (columns : Columns) where
  attach-first :
      (k n m : ℕ) (spell : SummonerSpell) (more : List SpellRow) (loaded : List Loaded)
      → m ≤ n
      → Early m loaded
      → attach (spell_row columns k n spell ∷ more) loaded ≡ none
  unfolding attach
  attach-first k n m spell more loaded le early =
      rw (modify-Early m (spell_row columns k n spell) loaded le early, attach) refl

  attach-spells :
      (k n m : ℕ) (spells : List SummonerSpell) (rest : List Player) (loaded : List Loaded)
      → m ≤ n
      → 0 < length spells + count_spells columns rest
      → Early m loaded
      → (0 < count_spells columns rest
          → attach (all_spell_rows columns (k + length spells) (suc n) rest) loaded ≡ none)
      → attach
          (spell_rows columns k n spells ++ all_spell_rows columns (k + length spells) (suc n) rest)
          loaded
        ≡ none
  attach-spells k n m [] rest loaded le h early more = more (omega arith)
  attach-spells k n m (spell ∷ spells) rest loaded le h early more =
      attach-first k n m spell
        (spell_rows columns (suc k) n spells
          ++ all_spell_rows columns (k + suc (length spells)) (suc n) rest)
        loaded le early

  -- A spell of some player comes first, and that player was not loaded.
  attach-Early :
      (k n m : ℕ) (players : List Player) (loaded : List Loaded)
      → m ≤ n
      → 0 < count_spells columns players
      → Early m loaded
      → attach (all_spell_rows columns k n players) loaded ≡ none
  attach-Early k n m [] loaded le h early = absurd (omega arith)
  attach-Early k n m (player ∷ rest) loaded le h early =
      attach-spells k n m player.spells rest loaded le h early
        (λ h'. attach-Early (k + length player.spells) (suc n) m rest loaded (omega arith) h' early)

  -- When a room that is in the tables is saved with at least one spell between the query of its players
  -- and the query of its spells, the load returns an error, although every query and the save succeeded.
  pub torn_load :
      (tx : RoomTransaction) (room : Room) (row : RoomRow) (t : Tables)
      → IsFresh t
      → find (λ (row : RoomRow). row.id == room.id) t.rooms ≡ some row
      → row.id ≡ room.id
      → 0 < count_spells columns room.players
      → (save columns tx room t).0 ≡ ok tt
      → load_room (torn t (save columns tx room t).1) room.id
        ≡ err (failure "player not found while loading room")
  unfolding load_room load_spells load_players
  torn_load tx room row t fresh found same spells h =
      let t' = saved columns room t in
      let loaded = map to_player (filter (in_room room.id) t.players) in
      let missing : attach (filter (in_join room.id t'.players) t'.spells) loaded ≡ none =
        rw (join-saved columns room t fresh.1) (
          attach-Early t.next_spell t.next_player t.next_player room.players loaded (omega arith)
            spells (loaded-Early t.next_player room.id t.players fresh.0)) in
      let missing' : attach (filter (in_join row.id t'.players) t'.spells) loaded ≡ none =
        rw same missing in
      let e : load_room (torn t t') room.id ≡ load_spells (torn t t') row loaded = rw found refl in
      let e' : load_spells (torn t t') row loaded
          ≡ err (failure "player not found while loading room") =
        rw (missing', load_spells) refl in
      ap (λ (x : Tables). load_room (torn t x) room.id) (save-ok columns tx room t h) ∙ e ∙ e'
