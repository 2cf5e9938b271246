-- ===== src/Repository/Postgres/RoundTrip.antt =====
-- `Get` after `Save`, of internal/repositories/postgres/room.
use lol_overlay.Prelude.{
  ok, ◌==◌, eq_refl, filter-append, find, not, filter, String, ℕ, suc, ◌+◌, ◌<◌, ◌≡◌, refl, ap, ◌∙◌,
  inl, inr, true, false, some, List, [], ◌∷◌, ◌++◌, map, arith, nat_eq, if◌then◌else◌, Bool-cases,
  Option-cases, All, length, modify_first, All-append,
}
use lol_overlay.Repository.Postgres.Saved.{save-ok, player_rows, saved, spell_rows, all_spell_rows}
use lol_overlay.Repository.Postgres.Load.{
  quiet, load_spells, in_join, load_room, to_player, get, load_players, Loaded, to_spell, add_spell,
  is_player, attach,
}
use lol_overlay.Repository.Postgres.Joins.{join-saved}
use lol_overlay.Repository.Postgres.{
  save, RoomTransaction, in_room, RoomRow, delete_players, upsert, PlayerRow, SpellRow, Tables,
  Columns, spell_row,
}
use mathlib.Core.List.{append_assoc, append-nil}
use mathlib.Core.Option
use lol_overlay.Models.{zero_time, is_zero, SummonerSpell, Player, Room}

-- The sequence of the ids of players is ahead of every id that a row has.
abbrev pub IsFresh : Tables → Type 0
IsFresh t =
    All (λ (row : PlayerRow). row.id < t.next_player) t.players
    × All (λ (row : SpellRow). row.player_id < t.next_player) t.spells

module _ (columns : Columns) where
  -- The room with the times that the columns keep; a zero end of a cooldown is a NULL.
  abbrev pub kept_spell : SummonerSpell → SummonerSpell
  kept_spell spell = record spell {
    cooldown_end_time =
        if is_zero spell.cooldown_end_time
        then zero_time
        else columns.timestamptz spell.cooldown_end_time;
  }

  abbrev pub kept_player : Player → Player
  kept_player player = record player { spells = map kept_spell player.spells }

  abbrev pub kept_room : Room → Room
  kept_room room = record room {
    players = map kept_player room.players;
    last_updated = columns.timestamp room.last_updated;
  }

  -- The players with the ids from `n` on.
  abbrev numbered : (Player → Player) → ℕ → List Player → List Loaded
  numbered f n [] = []
  numbered f n (player ∷ rest) = (n, f player) ∷ numbered f (suc n) rest

  abbrev bare : Player → Player
  bare player = record player { spells = [] }

  kept-spell_row :
      (k n : ℕ) (spell : SummonerSpell) → to_spell (spell_row columns k n spell) ≡ kept_spell spell
  kept-spell_row k n spell = elim (Bool-cases (is_zero spell.cooldown_end_time)) [
    | inl z ↦ rw z refl
    | inr z ↦ rw z refl
  ]

  attach-own :
      (k n : ℕ) (spells : List SummonerSpell) (more : List SpellRow) (player : Player)
      (rest : List Loaded)
      → attach (spell_rows columns k n spells ++ more) ((n, player) ∷ rest)
        ≡ attach more
            ((n, record player { spells = player.spells ++ map kept_spell spells }) ∷ rest)
  unfolding attach
  attach-own k n [] more player rest = rw (append-nil player.spells) refl
  attach-own k n (spell ∷ spells) more player rest =
      let row = spell_row columns k n spell in
      let same : nat_eq n n ≡ true = ground arith in
      let here : attach (spell_rows columns k n (spell ∷ spells) ++ more) ((n, player) ∷ rest)
          ≡ attach (spell_rows columns (suc k) n spells ++ more)
              ((n, record player { spells = player.spells ++ to_spell row ∷ [] }) ∷ rest) =
        rw (same, attach) refl in
      here
      ∙ attach-own (suc k) n spells more
          (record player { spells = player.spells ++ to_spell row ∷ [] }) rest
      ∙ rw
          (
            append_assoc player.spells (to_spell row ∷ []) (map kept_spell spells),
            kept-spell_row k n spell,
          )
          refl

  attach-other :
      (rows : List SpellRow) (n : ℕ) (player : Player) (rest : List Loaded)
      → All (λ (row : SpellRow). nat_eq n row.player_id ≡ false) rows
      → attach rows ((n, player) ∷ rest)
        ≡ Option.map (λ (l : List Loaded). (n, player) ∷ l) (attach rows rest)
  unfolding attach
  attach-other [] n player rest h = refl
  attach-other (row ∷ rows) n player rest h =
      elim (Option-cases (modify_first (is_player row) (add_spell row) rest)) [
        | inl m ↦ rw (h.0, m, attach) refl
        | inr (rest', m) ↦ rw (h.0, m, attach) (attach-other rows n player rest' h.1)
      ]

  spell_rows-other :
      (m k n : ℕ) (spells : List SummonerSpell)
      → m < n
      → All (λ (row : SpellRow). nat_eq m row.player_id ≡ false) (spell_rows columns k n spells)
  spell_rows-other m k n [] h = tt
  spell_rows-other m k n (spell ∷ rest) h = (ground arith, spell_rows-other m (suc k) n rest h)

  all_spell_rows-other :
      (m k n : ℕ) (players : List Player)
      → m < n
      → All
          (λ (row : SpellRow). nat_eq m row.player_id ≡ false)
          (all_spell_rows columns k n players)
  all_spell_rows-other m k n [] h = tt
  all_spell_rows-other m k n (player ∷ rest) h =
      All-append (λ (row : SpellRow). nat_eq m row.player_id ≡ false)
        (spell_rows columns k n player.spells)
        (all_spell_rows columns (k + length player.spells) (suc n) rest)
        (spell_rows-other m k n player.spells h)
        (all_spell_rows-other m (k + length player.spells) (suc n) rest (omega arith))

  attach-all :
      (k n : ℕ) (players : List Player)
      → attach (all_spell_rows columns k n players) (numbered bare n players)
        ≡ some (numbered kept_player n players)
  unfolding attach
  attach-all k n [] = refl
  attach-all k n (player ∷ rest) =
      let k' = k + length player.spells in
      let more = all_spell_rows columns k' (suc n) rest in
      attach-own k n player.spells more (bare player) (numbered bare (suc n) rest)
      ∙ attach-other more n (kept_player player) (numbered bare (suc n) rest)
          (all_spell_rows-other n k' (suc n) rest (omega arith))
      ∙ ap (Option.map (λ (l : List Loaded). (n, kept_player player) ∷ l))
          (attach-all k' (suc n) rest)

  loaded-player_rows :
      (n : ℕ) (room_id : String) (players : List Player)
      → map to_player (filter (in_room room_id) (player_rows columns n room_id players))
        ≡ numbered bare n players
  loaded-player_rows n room_id [] = refl
  loaded-player_rows n room_id (player ∷ rest) =
      rw (eq_refl room_id, loaded-player_rows (suc n) room_id rest) refl

  others-out :
      (room_id : String) (rows : List PlayerRow)
      → filter (in_room room_id) (filter (λ (row : PlayerRow). not (in_room room_id row)) rows) ≡ []
  others-out room_id [] = refl
  others-out room_id (row ∷ rest) = ground (arith, others-out room_id rest)

  load_players-saved :
      (room : Room) (t : Tables)
      → load_players room.id (saved columns room t) ≡ numbered bare t.next_player room.players
  unfolding load_players delete_players
  load_players-saved room t =
      rw
        (
          filter-append (in_room room.id)
              (filter (λ (row : PlayerRow). not (in_room room.id row)) t.players)
              (player_rows columns t.next_player room.id room.players),
          others-out room.id t.players,
        )
        (loaded-player_rows t.next_player room.id room.players)

  find-upsert :
      (row : RoomRow) (rows : List RoomRow)
      → find (λ (x : RoomRow). x.id == row.id) (upsert row rows) ≡ some row
  unfolding upsert
  find-upsert row [] = rw (eq_refl row.id) refl
  find-upsert row (x ∷ rest) = ground (arith, eq_refl row.id, find-upsert row rest)

  players-numbered :
      (n : ℕ) (players : List Player)
      → map (λ (l : Loaded). l.1) (numbered kept_player n players) ≡ map kept_player players
  players-numbered n [] = refl
  players-numbered n (player ∷ rest) = rw (players-numbered (suc n) rest) refl

  -- A room that was saved under an id that is not empty is what a load without faults and without
  -- another transaction in between returns, with the times as the columns keep them.
  pub get-save :
      (tx : RoomTransaction) (room : Room) (t : Tables)
      → IsFresh t
      → (room.id == "") ≡ false
      → (save columns tx room t).0 ≡ ok tt
      → get (quiet (save columns tx room t).1) room.id ≡ ok (some (kept_room room))
  unfolding get load_room load_spells delete_players upsert
  get-save tx room t fresh named h =
      let row : RoomRow = record {
        id = room.id;
        last_updated = columns.timestamp room.last_updated;
      } in
      let t' = saved columns room t in
      let found : find (λ (x : RoomRow). x.id == room.id) t'.rooms ≡ some row =
        find-upsert row t.rooms in
      let e0 : get (quiet t') room.id ≡ load_room (quiet t') room.id = rw (named, get) refl in
      let e1 : load_room (quiet t') room.id ≡ load_spells (quiet t') row (load_players room.id t') =
        rw (found, load_room) refl in
      let attached : attach (filter (in_join room.id t'.players) t'.spells)
            (numbered bare t.next_player room.players)
          ≡ some (numbered kept_player t.next_player room.players) =
        rw (join-saved columns room t fresh.1)
          (attach-all t.next_spell t.next_player room.players) in
      let e2 : load_spells (quiet t') row (numbered bare t.next_player room.players)
          ≡ ok (some (kept_room room)) =
        rw (attached, load_spells, players-numbered t.next_player room.players) refl in
      rw (save-ok columns tx room t h)
        (e0 ∙ e1 ∙ ap (load_spells (quiet t') row) (load_players-saved room t) ∙ e2)
