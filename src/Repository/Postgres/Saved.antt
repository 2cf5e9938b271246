-- ===== src/Repository/Postgres/Saved.antt =====
-- The tables after a `Save` of internal/repositories/postgres/room/repository.go that returned no error.
use lol_overlay.Prelude.{
  true, Bool-cases, wrap, ◌⊎◌, ℕ, suc, ◌+◌, String, ◌≡◌, refl, sym, ap, ◌∙◌, inl, inr, List, [],
  ◌∷◌, ◌++◌, arith, Option-cases, length, Result, Result-cases, ok, err,
}
use mathlib.Core.Path.{subst}
use mathlib.Core.List.{append_assoc, append-nil}
use lol_overlay.Models.{SummonerSpell, Player, Room}
use lol_overlay.Repository.Postgres.{
  PlayerRow, SpellRow, Tables, Columns, RoomTransaction, player_row, spell_row, insert_player,
  insert_spell, delete_players, upsert, save_spells, save_player, save_players, upsert_room,
  delete_old_players, save_room, finish, save,
}

module _ (columns : Columns) where
  -- The rows of the spells of one player, and of the players of one room with all their spells.
  abbrev pub spell_rows : ℕ → ℕ → List SummonerSpell → List SpellRow
  spell_rows k n [] = []
  spell_rows k n (spell ∷ rest) = spell_row columns k n spell ∷ spell_rows (suc k) n rest

  abbrev pub player_rows : ℕ → String → List Player → List PlayerRow
  player_rows n room_id [] = []
  player_rows n room_id (player ∷ rest) =
      player_row columns n room_id player ∷ player_rows (suc n) room_id rest

  abbrev pub all_spell_rows : ℕ → ℕ → List Player → List SpellRow
  all_spell_rows k n [] = []
  all_spell_rows k n (player ∷ rest) =
      spell_rows k n player.spells ++ all_spell_rows (k + length player.spells) (suc n) rest

  abbrev pub count_spells : List Player → ℕ
  count_spells [] = 0
  count_spells (player ∷ rest) = length player.spells + count_spells rest

  abbrev pub with_spells : ℕ → List SummonerSpell → Tables → Tables
  with_spells n spells t = record t {
    spells = t.spells ++ spell_rows t.next_spell n spells;
    next_spell = t.next_spell + length spells;
  }

  abbrev pub with_players : String → List Player → Tables → Tables
  with_players room_id players t = record t {
    players = t.players ++ player_rows t.next_player room_id players;
    spells = t.spells ++ all_spell_rows t.next_spell t.next_player players;
    next_player = t.next_player + length players;
    next_spell = t.next_spell + count_spells players;
  }

  abbrev pub saved : Room → Tables → Tables
  saved room t = with_players room.id room.players (
      delete_players room.id (record t {
        rooms =
            upsert (record { id = room.id; last_updated = columns.timestamp room.last_updated })
              t.rooms;
      }))

  module _ (tx : RoomTransaction) where
    save_spells-ok :
        (n : ℕ) (spells : List SummonerSpell) (t : Tables)
        → (save_spells columns tx n spells t).0 ≡ ok tt
        → (save_spells columns tx n spells t).1 ≡ with_spells n spells t
    unfolding save_spells
    save_spells-ok n [] t h =
        let z : t.next_spell + 0 ≡ t.next_spell = omega arith in rw (append-nil t.spells, z) refl
    save_spells-ok n (spell ∷ rest) t h = elim (Option-cases (tx.spell_fault t.next_spell)) [
      | inr (e, f) ↦ absurd (ground arith)
      | inl f ↦
          let e : save_spells columns tx n (spell ∷ rest) t
              ≡ save_spells columns tx n rest (insert_spell columns n spell t) =
            rw (f, save_spells) refl in
          let sum : suc t.next_spell + length rest ≡ t.next_spell + suc (length rest) =
            omega arith in
          rw e (
            save_spells-ok n rest (insert_spell columns n spell t)
              (ap (λ (r : Result (Unit {0}) × Tables). r.0) (sym e) ∙ h)
            ∙ rw
                (
                  append_assoc t.spells (spell_row columns t.next_spell n spell ∷ [])
                      (spell_rows (suc t.next_spell) n rest),
                  sum,
                )
                refl)
    ]

    save_player-ok :
        (room_id : String) (player : Player) (t : Tables)
        → (save_player columns tx room_id player t).0 ≡ ok tt
        → (save_player columns tx room_id player t).1
          ≡ with_spells t.next_player player.spells (insert_player columns room_id player t)
    unfolding save_player
    save_player-ok room_id player t h = elim (Option-cases (tx.player_fault t.next_player)) [
      | inr (e, f) ↦ absurd (ground arith)
      | inl f ↦
          let e : save_player columns tx room_id player t
              ≡ save_spells columns tx t.next_player player.spells
                  (insert_player columns room_id player t) =
            rw (f, save_player) refl in
          rw e (
            save_spells-ok t.next_player player.spells (insert_player columns room_id player t)
              (ap (λ (r : Result (Unit {0}) × Tables). r.0) (sym e) ∙ h))
    ]

    with_players-step :
        (room_id : String) (player : Player) (rest : List Player) (t : Tables)
        → with_players room_id rest
            (with_spells t.next_player player.spells (insert_player columns room_id player t))
          ≡ with_players room_id (player ∷ rest) t
    with_players-step room_id player rest t =
        let k = t.next_spell + length player.spells in
        let spells : k + count_spells rest
            ≡ t.next_spell + (length player.spells + count_spells rest) =
          omega arith in
        let players : suc t.next_player + length rest ≡ t.next_player + suc (length rest) =
          omega arith in
        rw
          (
            append_assoc t.players (player_row columns t.next_player room_id player ∷ [])
                (player_rows (suc t.next_player) room_id rest),
            append_assoc t.spells (spell_rows t.next_spell t.next_player player.spells)
                (all_spell_rows k (suc t.next_player) rest),
            spells,
            players,
          )
          refl

    save_players-ok :
        (room_id : String) (players : List Player) (t : Tables)
        → (save_players columns tx room_id players t).0 ≡ ok tt
        → (save_players columns tx room_id players t).1 ≡ with_players room_id players t
    unfolding save_players
    save_players-ok room_id [] t h =
        let z : t.next_spell + 0 ≡ t.next_spell = omega arith in
        let z' : t.next_player + 0 ≡ t.next_player = omega arith in
        rw (append-nil t.spells, append-nil t.players, z, z') refl
    save_players-ok room_id (player ∷ rest) t h =
        elim (Result-cases (save_player columns tx room_id player t).0) [
          | inr (e, r) ↦ absurd (ground arith)
          | inl (u, r) ↦
              let t' = (save_player columns tx room_id player t).1 in
              let e : save_players columns tx room_id (player ∷ rest) t
                  ≡ save_players columns tx room_id rest t' =
                rw (r, save_players) refl in
              rw e (
                save_players-ok room_id rest t'
                  (ap (λ (r : Result (Unit {0}) × Tables). r.0) (sym e) ∙ h)
                ∙ ap (with_players room_id rest) (save_player-ok room_id player t r)
                ∙ with_players-step room_id player rest t)
        ]

    save_room-ok :
        (room : Room) (t : Tables)
        → (save_room columns tx room t).0 ≡ ok tt
        → (save_room columns tx room t).1 ≡ saved room t
    unfolding save_room upsert_room delete_old_players
    save_room-ok room t h =
        let start = delete_players room.id (record t {
          rooms =
              upsert (record { id = room.id; last_updated = columns.timestamp room.last_updated })
                t.rooms;
        }) in
        let run = save_players columns tx room.id room.players start in
        elim (Option-cases tx.upsert_fault) [
          | inr (e, u) ↦ absurd (ground arith)
          | inl u ↦ elim (Option-cases tx.delete_fault) [
            | inr (e, d) ↦ absurd (ground arith)
            | inl d ↦
                let same : save_room columns tx room t ≡ run =
                  simp (u, d, save_room, upsert_room, delete_old_players) in
                rw same (
                  save_players-ok room.id room.players start
                    (ap (λ (r : Result (Unit {0}) × Tables). r.0) (sym same) ∙ h))
          ]
        ]

    -- Nothing in the tables has changed; the sequences may have.
    abbrev pub IsRolledBack : Tables → Tables → Type 0
    IsRolledBack before after =
        (after.rooms ≡ before.rooms)
        × (after.players ≡ before.players)
        × (after.spells ≡ before.spells)

    -- What a call of `Save` returned and left.
    abbrev pub Outcome : Room → Tables → Result (Unit {0}) × Tables → Type 0
    Outcome room before (ok _, after) = after ≡ saved room before
    Outcome room before (err e, after) =
        IsRolledBack before after ⊎ ((tx.commit_kept ≡ true) × (after ≡ saved room before))

    finish-Outcome :
        (room : Room) (before : Tables) (r : Result (Unit {0})) (after : Tables)
        → (r ≡ ok tt → after ≡ saved room before)
        → Outcome room before (finish columns tx before (r, after))
    unfolding finish
    finish-Outcome room before (err x) after wrote = inl (refl, refl, refl)
    finish-Outcome room before (ok x) after wrote = elim (Option-cases tx.commit_fault) [
      | inl c ↦
          let same : finish columns tx before (ok x, after) ≡ (ok tt, after) = simp (c, finish) in
          rw same (wrote refl)
      | inr (y, c) ↦ elim (Bool-cases tx.commit_kept) [
        | inl k ↦
            let same : finish columns tx before (ok x, after)
                ≡ (err (wrap "commit room save transaction" y), after) =
              simp (c, k, finish) in
            rw same (inr (k, wrote refl))
        | inr k ↦
            let same : finish columns tx before (ok x, after) ≡ (
              err (wrap "commit room save transaction" y),
              record before { next_player = after.next_player; next_spell = after.next_spell },
            ) =
              simp (c, k, finish) in
            rw same (inl (refl, refl, refl))
      ]
    ]

    -- A save that returns no error has written the room, without its old players and with the new ones.
    -- A save that returns an error has changed no table, or its commit reported the error although it
    -- took effect, and then it has written the room as a whole.
    pub save-Outcome : (room : Room) (t : Tables) → Outcome room t (save columns tx room t)
    unfolding save
    save-Outcome room t = elim (Option-cases tx.begin_fault) [
      | inr (x, b) ↦
          let same : save columns tx room t ≡ (err (wrap "begin room save transaction" x), t) =
            simp (b, save) in
          rw same (inl (refl, refl, refl))
      | inl b ↦
          let run = save_room columns tx room t in
          let same : save columns tx room t ≡ finish columns tx t run = simp (b, save) in
          rw same (finish-Outcome room t run.0 run.1 (save_room-ok room t))
    ]

    pub save-ok :
        (room : Room) (t : Tables)
        → (save columns tx room t).0 ≡ ok tt
        → (save columns tx room t).1 ≡ saved room t
    save-ok room t h =
        subst (λ (r : Result (Unit {0})). Outcome room t (r, (save columns tx room t).1)) h
          (save-Outcome room t)
