-- ===== src/Repository/Postgres/Joins.antt =====
-- The join of spells and players in load.go of internal/repositories/postgres/room, after a save.
use lol_overlay.Prelude.{
  filter-All, filter_none, All-filter, ◌&&◌, any-append, ◌||◌, All-map, eq_refl, filter-append, not,
  filter, String, ℕ, suc, ◌+◌, ◌<◌, ◌≡◌, refl, true, false, List, [], ◌∷◌, ◌++◌, arith, nat_eq, All,
  length, All-append,
}
use lol_overlay.Repository.Postgres.Saved.{player_rows, saved, spell_rows, all_spell_rows}
use lol_overlay.Repository.Postgres.Load.{in_join}
use lol_overlay.Repository.Postgres.{
  has_player, in_room, delete_players, PlayerRow, SpellRow, Tables, Columns,
}
use lol_overlay.Models.{SummonerSpell, Player, Room}

module _ (columns : Columns) where
  -- The join of the spells that were there before, and of those that were inserted.
  join-old_players :
      (room_id : String) (rows : List PlayerRow) (row : SpellRow)
      → in_join room_id (filter (λ (row : PlayerRow). not (in_room room_id row)) rows) row ≡ false
  join-old_players room_id [] row = refl
  join-old_players room_id (x ∷ rest) row = ground (arith, join-old_players room_id rest row)

  pub join-old_spell :
      (n : ℕ) (room_id : String) (players : List Player) (row : SpellRow)
      → row.player_id < n
      → in_join room_id (player_rows columns n room_id players) row ≡ false
  join-old_spell n room_id [] row h = refl
  join-old_spell n room_id (player ∷ rest) row h =
      ground (arith, join-old_spell (suc n) room_id rest row (omega arith))

  join-own :
      (n k : ℕ) (room_id : String) (players : List Player) (player : Player)
      (spells : List SummonerSpell)
      → All
          (λ (row : SpellRow).
            in_join room_id (player_rows columns n room_id (player ∷ players)) row ≡ true)
          (spell_rows columns k n spells)
  join-own n k room_id players player [] = tt
  join-own n k room_id players player (spell ∷ rest) =
      (ground (arith, eq_refl room_id), join-own n (suc k) room_id players player rest)

  join-new_spells :
      (n k : ℕ) (room_id : String) (players : List Player)
      → All
          (λ (row : SpellRow). in_join room_id (player_rows columns n room_id players) row ≡ true)
          (all_spell_rows columns k n players)
  join-new_spells n k room_id [] = tt
  join-new_spells n k room_id (player ∷ rest) =
      let rows = player_rows columns n room_id (player ∷ rest) in
      All-append (λ (row : SpellRow). in_join room_id rows row ≡ true)
        (spell_rows columns k n player.spells)
        (all_spell_rows columns (k + length player.spells) (suc n) rest)
        (join-own n k room_id rest player player.spells)
        (All-map
          (λ (row : SpellRow).
            in_join room_id (player_rows columns (suc n) room_id rest) row ≡ true)
          (λ (row : SpellRow). in_join room_id rows row ≡ true) (λ row h. ground arith)
          (all_spell_rows columns (k + length player.spells) (suc n) rest)
          (join-new_spells (suc n) (k + length player.spells) room_id rest))

  pub join-saved :
      (room : Room) (t : Tables)
      → All (λ (row : SpellRow). row.player_id < t.next_player) t.spells
      → filter (in_join room.id (saved columns room t).players) (saved columns room t).spells
        ≡ all_spell_rows columns t.next_spell t.next_player room.players
  unfolding delete_players
  join-saved room t fresh =
      let old = filter (λ (row : PlayerRow). not (in_room room.id row)) t.players in
      let new = player_rows columns t.next_player room.id room.players in
      let spells = filter (has_player old) t.spells in
      let added = all_spell_rows columns t.next_spell t.next_player room.players in
      let joins = in_join room.id (old ++ new) in
      let split : (row : SpellRow)
          → joins row ≡ in_join room.id old row || in_join room.id new row =
        λ row.
          any-append
            (λ (player : PlayerRow). nat_eq player.id row.player_id && in_room room.id player) old
            new in
      let none_old : All (λ (row : SpellRow). joins row ≡ false) spells =
        All-filter (λ (row : SpellRow). joins row ≡ false) (has_player old) t.spells
          (All-map (λ (row : SpellRow). row.player_id < t.next_player)
            (λ (row : SpellRow). joins row ≡ false)
            (λ row h.
              rw
                (
                  split row,
                  join-old_players room.id t.players row,
                  join-old_spell t.next_player room.id room.players row h,
                )
                refl)
            t.spells fresh) in
      let all_new : All (λ (row : SpellRow). joins row ≡ true) added =
        All-map (λ (row : SpellRow). in_join room.id new row ≡ true)
          (λ (row : SpellRow). joins row ≡ true)
          (λ row h. rw (split row, join-old_players room.id t.players row, h) refl) added
          (join-new_spells t.next_player t.next_spell room.id room.players) in
      rw
        (
          filter-append joins spells added,
          filter_none joins spells none_old,
          filter-All joins added all_new,
        )
        refl
