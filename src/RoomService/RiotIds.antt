-- ===== src/RoomService/RiotIds.antt =====
-- What the changes of one room in internal/services/room_service.go do to its players.
use lol_overlay.Prelude.{
  ◌+◌, String, ◌≡◌, refl, sym, ap, ◌∙◌, fun_ext, inl, inr, Bool, true, false, none, some, List, [],
  ◌∷◌, ◌++◌, arith, eq_iff, if◌then◌else◌, Bool-cases, Option-cases, length, length-append, find,
  modify_first,
}
use lol_overlay.Prelude.Finds.{
  find-modify_same, find-modify_other, modify_none-find, modify_some-find, find-append,
  find-append_skip,
}
use lol_overlay.Models.{Player, Room, default_summoner_spell_haste}
use lol_overlay.RoomService.Players.{
  add_to_room, is_riot_id, find_player_by_riot_id, default_spells,
}

-- The player that is added where the room has none of that Riot id.
abbrev pub added : Player → Player
added player = record player {
  summoner_spell_haste = default_summoner_spell_haste;
  spells = default_spells player.spells;
}

abbrev pub set_champion : Player → Player → Player
set_champion player existing = record existing {
  champion = player.champion;
  champion_id = player.champion_id;
}

-- Whether two players have the same Riot id.
abbrev pub same_riot_id : Player → String → String → Bool
same_riot_id player game_name tag_line = is_riot_id game_name tag_line player

-- Two searches for Riot ids look for the same player or for different ones.
same_search :
    (player : Player) (g t : String)
    → is_riot_id g t player ≡ true
    → (x : Player) → is_riot_id g t x ≡ is_riot_id player.game_name player.tag_line x
same_search player g t h x =
    let same : player.game_name ≡ g = ground (arith, eq_iff player.game_name g) in
    let same' : player.tag_line ≡ t = ground (arith, eq_iff player.tag_line t) in rw (same, same')

same_found :
    (player : Player) (room : Room) (g t : String)
    → is_riot_id g t player ≡ true
    → find (is_riot_id g t) room.players
      ≡ find (is_riot_id player.game_name player.tag_line) room.players
same_found player room g t h =
    ap (λ (q : Player → Bool). find q room.players) (fun_ext (same_search player g t h))

other_search :
    (player : Player) (g t : String)
    → is_riot_id g t player ≡ false
    → (x : Player) → is_riot_id player.game_name player.tag_line x ≡ true
    → is_riot_id g t x ≡ false
other_search player g t h x found =
    let same : x.game_name ≡ player.game_name =
      ground (arith, eq_iff x.game_name player.game_name) in
    let same' : x.tag_line ≡ player.tag_line = ground (arith, eq_iff x.tag_line player.tag_line) in
    rw (same, same') h

module _ (player : Player) (room : Room) (g t : String) where
  found_existing :
      (players : List Player)
      → modify_first
          (is_riot_id player.game_name player.tag_line)
          (set_champion player)
          room.players
        ≡ some players
      → find (is_riot_id g t) players ≡ (
          if is_riot_id g t player
          then some (elim (find (is_riot_id g t) room.players) [
            | none ↦ added player
            | some existing ↦ set_champion player existing
          ])
          else find (is_riot_id g t) room.players)
  found_existing players e = elim (Bool-cases (is_riot_id g t player)) [
    | inl same ↦
        let a =
          find-modify_same (is_riot_id player.game_name player.tag_line) (is_riot_id g t)
            (set_champion player) (same_search player g t same) (λ x. refl) room.players players
            e in
        elim (Option-cases (find (is_riot_id g t) room.players)) [
          | inl n ↦ absurd (
              modify_some-find (is_riot_id player.game_name player.tag_line) (set_champion player)
                room.players players e (sym (same_found player room g t same) ∙ n))
          | inr (x, s) ↦ rw (same, s) (a ∙ rw s)
        ]
    | inr other ↦ rw other (
        find-modify_other _ (is_riot_id g t) _ (other_search player g t other) (λ x. refl)
          room.players players e)
  ]

  found_added :
      modify_first (is_riot_id player.game_name player.tag_line) (set_champion player) room.players
        ≡ none
      → find (is_riot_id g t) (room.players ++ added player ∷ []) ≡ (
          if is_riot_id g t player
          then some (elim (find (is_riot_id g t) room.players) [
            | none ↦ added player
            | some existing ↦ set_champion player existing
          ])
          else find (is_riot_id g t) room.players)
  found_added e = elim (Bool-cases (is_riot_id g t player)) [
    | inl same ↦
        let n =
          same_found player room g t same
          ∙ modify_none-find (is_riot_id player.game_name player.tag_line) (set_champion player)
              room.players e in
        rw (same, n) (find-append (is_riot_id g t) room.players (added player ∷ []) n ∙ rw same)
    | inr other ↦
        rw other (find-append_skip (is_riot_id g t) room.players (added player ∷ []) (rw other))
  ]

-- Adding a player gives a room in which the player's Riot id finds the player of that id that was there,
-- with the new champion, or else the new player with the default haste and spells; every other Riot id
-- finds what it found before.
pub find_player-add :
    (player : Player) (room : Room) (game_name tag_line : String)
    → find_player_by_riot_id (add_to_room player room) game_name tag_line ≡ (
        if is_riot_id game_name tag_line player
        then some (elim (find_player_by_riot_id room game_name tag_line) [
          | none ↦ added player
          | some existing ↦ set_champion player existing
        ])
        else find_player_by_riot_id room game_name tag_line)
unfolding find_player_by_riot_id add_to_room
find_player-add player room g t =
    elim (Option-cases (
      modify_first (is_riot_id player.game_name player.tag_line) (set_champion player)
        room.players)) [
          | inl e ↦ rw (e, add_to_room) (found_added player room g t e)
          | inr (players, e) ↦ rw (e, add_to_room) (found_existing player room g t players e)
        ]

length-modify :
    (p : Player → Bool) (f : Player → Player) (xs xs' : List Player)
    → modify_first p f xs ≡ some xs'
    → length xs' ≡ length xs
length-modify p f [] xs' h = cc
length-modify p f (x ∷ rest) [] h = ground arith
length-modify p f (x ∷ rest) (x' ∷ rest') h = ground (arith, length-modify p f rest rest')

-- Adding a player whose Riot id the room has already adds nobody to it, and adding any other player adds
-- one.
pub length-add :
    (player : Player) (room : Room)
    → length (add_to_room player room).players
      ≡ (elim (find_player_by_riot_id room player.game_name player.tag_line) [
        | none ↦ length room.players + 1
        | some existing ↦ length room.players
      ])
unfolding find_player_by_riot_id add_to_room
length-add player room =
    elim (Option-cases (
      modify_first (is_riot_id player.game_name player.tag_line) (set_champion player)
        room.players)) [
          | inl e ↦ ground (
            arith,
            modify_none-find (is_riot_id player.game_name player.tag_line) (set_champion player)
                room.players e,
            length-append room.players (added player ∷ []),
          )
          | inr (players, e) ↦ ground (
            arith,
            modify_some-find (is_riot_id player.game_name player.tag_line) (set_champion player)
                room.players players e,
            length-modify (is_riot_id player.game_name player.tag_line) (set_champion player)
                room.players players e,
          )
        ]
