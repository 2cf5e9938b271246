-- ===== src/Repository/Postgres/Freshness.antt =====
-- The sequence of the ids of players in internal/repositories/postgres/room.
use lol_overlay.Prelude.{
  true, false, Bool, ℕ, suc, ◌≤◌, ◌<◌, String, inl, inr, not, List, [], ◌∷◌, arith, Option-cases,
  All, All-append, filter, All-filter, All-map, Result-cases, ◌≡◌, Option, none, some, ◌==◌,
  Bool-cases, Error, Result, ok, err,
}
use lol_overlay.Repository.Postgres.{
  delete_room, RoomRow, upsert, upsert_room, delete_old_players, save_room, rollback, finish, save,
  delete, PlayerRow, SpellRow, Tables, Columns, RoomTransaction, in_room, has_player, player_row,
  spell_row, insert_player, insert_spell, delete_players, save_spells, save_player, save_players,
}
use lol_overlay.Models.{Room, SummonerSpell, Player}
use lol_overlay.Repository.Postgres.RoundTrip.{IsFresh}

-- A step keeps the sequence ahead of the ids, and does not set it back.
abbrev IsKept : Tables → Tables → Type 0
IsKept before after = IsFresh after × (before.next_player ≤ after.next_player)

rows_later :
    (m n : ℕ) (rows : List PlayerRow)
    → m ≤ n
    → All (λ (row : PlayerRow). row.id < m) rows
    → All (λ (row : PlayerRow). row.id < n) rows
rows_later m n rows le =
    All-map (λ (row : PlayerRow). row.id < m) (λ (row : PlayerRow). row.id < n)
      (λ row h. omega arith) rows

spells_later :
    (m n : ℕ) (rows : List SpellRow)
    → m ≤ n
    → All (λ (row : SpellRow). row.player_id < m) rows
    → All (λ (row : SpellRow). row.player_id < n) rows
spells_later m n rows le =
    All-map (λ (row : SpellRow). row.player_id < m) (λ (row : SpellRow). row.player_id < n)
      (λ row h. omega arith) rows

delete_players-IsFresh :
    (room_id : String) (t : Tables) → IsFresh t → IsFresh (delete_players room_id t)
unfolding delete_players
delete_players-IsFresh room_id t fresh = (
  All-filter (λ (row : PlayerRow). row.id < t.next_player)
      (λ (row : PlayerRow). not (in_room room_id row)) t.players fresh.0,
  All-filter (λ (row : SpellRow). row.player_id < t.next_player)
      (has_player (filter (λ (row : PlayerRow). not (in_room room_id row)) t.players)) t.spells
      fresh.1,
)

module _ (columns : Columns) (tx : RoomTransaction) where
  save_spells-IsKept :
      (n : ℕ) (spells : List SummonerSpell) (t : Tables)
      → n < t.next_player
      → IsFresh t
      → IsKept t (save_spells columns tx n spells t).1
  unfolding save_spells
  save_spells-IsKept n [] t h fresh = (fresh, omega arith)
  save_spells-IsKept n (spell ∷ rest) t h fresh =
      elim (Option-cases (tx.spell_fault t.next_spell)) [
        | inr (e, f) ↦ rw (f, save_spells) (fresh, omega arith)
        | inl f ↦
            rw (f, save_spells)
              (save_spells-IsKept n rest (insert_spell columns n spell t) h (
                fresh.0,
                All-append (λ (row : SpellRow). row.player_id < t.next_player) t.spells
                    (spell_row columns t.next_spell n spell ∷ []) fresh.1 (h, tt),
              ))
      ]

  save_player-IsKept :
      (room_id : String) (player : Player) (t : Tables)
      → IsFresh t
      → IsKept t (save_player columns tx room_id player t).1
  unfolding save_player
  save_player-IsKept room_id player t fresh = elim (Option-cases (tx.player_fault t.next_player)) [
    | inr (e, f) ↦ rw (f, save_player) (fresh, omega arith)
    | inl f ↦
        let start = insert_player columns room_id player t in
        let kept = save_spells-IsKept t.next_player player.spells start (omega arith) (
          All-append (λ (row : PlayerRow). row.id < suc t.next_player) t.players
              (player_row columns t.next_player room_id player ∷ [])
              (rows_later t.next_player (suc t.next_player) t.players (omega arith) fresh.0)
              (omega arith, tt),
          spells_later t.next_player (suc t.next_player) t.spells (omega arith) fresh.1,
        ) in
        rw (f, save_player) (kept.0, omega (arith, kept.1))
  ]

  save_players-IsKept :
      (room_id : String) (players : List Player) (t : Tables)
      → IsFresh t
      → IsKept t (save_players columns tx room_id players t).1
  unfolding save_players
  save_players-IsKept room_id [] t fresh = (fresh, omega arith)
  save_players-IsKept room_id (player ∷ rest) t fresh =
      let first = save_player-IsKept room_id player t fresh in
      let t' = (save_player columns tx room_id player t).1 in
      elim (Result-cases (save_player columns tx room_id player t).0) [
        | inr (e, r) ↦ rw (r, save_players) first
        | inl (u, r) ↦
            let more = save_players-IsKept room_id rest t' first.0 in
            rw (r, save_players) (more.0, omega (arith, first.1, more.1))
      ]

  save_room-IsKept :
      (room : Room) (t : Tables) → IsFresh t → IsKept t (save_room columns tx room t).1
  unfolding save_room upsert_room delete_old_players
  save_room-IsKept room t fresh =
      let start = delete_players room.id (record t {
        rooms =
            upsert (record { id = room.id; last_updated = columns.timestamp room.last_updated })
              t.rooms;
      }) in
      let run = save_players columns tx room.id room.players start in
      elim (Option-cases tx.upsert_fault) [
        | inr (e, u) ↦
            let same : (save_room columns tx room t).1 ≡ t = simp (u, save_room, upsert_room) in
            rw same (fresh, omega arith)
        | inl u ↦ elim (Option-cases tx.delete_fault) [
          | inr (e, d) ↦
              let same : (save_room columns tx room t).1 ≡ record t {
                rooms =
                    upsert
                      (record { id = room.id; last_updated = columns.timestamp room.last_updated })
                      t.rooms;
              } =
                simp (u, d, save_room, upsert_room, delete_old_players) in
              rw same (fresh, omega arith)
          | inl d ↦
              let same : save_room columns tx room t ≡ run =
                simp (u, d, save_room, upsert_room, delete_old_players) in
              let kept =
                save_players-IsKept room.id room.players start
                  (unfold delete_players in delete_players-IsFresh room.id t fresh) in
              rw same (kept.0, unfold delete_players in kept.1)
        ]
      ]

  rollback-IsFresh :
      (before after : Tables)
      → IsFresh before
      → before.next_player ≤ after.next_player
      → IsFresh (rollback columns tx before after)
  rollback-IsFresh before after fresh le = (
    rows_later before.next_player after.next_player before.players le fresh.0,
    spells_later before.next_player after.next_player before.spells le fresh.1,
  )

  finish-IsFresh :
      (before : Tables) (r : Result (Unit {0})) (after : Tables)
      → IsFresh before
      → IsKept before after
      → IsFresh (finish columns tx before (r, after)).1
  unfolding finish
  finish-IsFresh before (err e) after fresh kept = rollback-IsFresh before after fresh kept.1
  finish-IsFresh before (ok x) after fresh kept = elim (Option-cases tx.commit_fault) [
    | inl c ↦
        let same : (finish columns tx before (ok x, after)).1 ≡ after = simp (c, finish) in
        rw same kept.0
    | inr (y, c) ↦ elim (Bool-cases tx.commit_kept) [
      | inl k ↦
          let same : (finish columns tx before (ok x, after)).1 ≡ after = simp (c, k, finish) in
          rw same kept.0
      | inr k ↦
          let same : (finish columns tx before (ok x, after)).1 ≡ rollback columns tx before after =
            simp (c, k, finish) in
          rw same (rollback-IsFresh before after fresh kept.1)
    ]
  ]

  save-IsFresh : (room : Room) (t : Tables) → IsFresh t → IsFresh (save columns tx room t).1
  unfolding save
  save-IsFresh room t fresh = elim (Option-cases tx.begin_fault) [
    | inr (x, b) ↦ let same : (save columns tx room t).1 ≡ t = simp (b, save) in rw same fresh
    | inl b ↦
        let run = save_room columns tx room t in
        let same : save columns tx room t ≡ finish columns tx t run = simp (b, save) in
        rw same (finish-IsFresh t run.0 run.1 fresh (save_room-IsKept room t fresh))
  ]

delete-IsFresh :
    (fault : Option Error) (applied : Bool) (id : String) (t : Tables)
    → IsFresh t
    → IsFresh (delete fault applied id t).1
unfolding delete delete_room
delete-IsFresh (some e) false id t fresh = fresh
delete-IsFresh (some e) true id t fresh =
    delete_players-IsFresh id
      (record t { rooms = filter (λ (row : RoomRow). not (row.id == id)) t.rooms }) fresh
delete-IsFresh none applied id t fresh =
    delete_players-IsFresh id
      (record t { rooms = filter (λ (row : RoomRow). not (row.id == id)) t.rooms }) fresh

-- The sequence of the ids of players stays ahead of the ids in the tables of players and of spells,
-- whatever a save or a delete returns.
pub save_delete-IsFresh :
    (columns : Columns) (tx : RoomTransaction) (room : Room) (fault : Option Error) (applied : Bool)
    (id : String) (t : Tables)
    → IsFresh t
    → IsFresh (save columns tx room t).1 × IsFresh (delete fault applied id t).1
save_delete-IsFresh columns tx room fault applied id t fresh =
    (save-IsFresh columns tx room t fresh, delete-IsFresh fault applied id t fresh)
