-- ===== src/Spell/Cooldown.antt =====
-- The cooldown tables, and the refresh of cooldowns (internal/services/summoner_spell_service.go and
-- `refreshRoomCooldowns` of internal/services/room_service.go).
use lol_overlay.Prelude.{
  inr, inl, Bool-cases, ◌⊎◌, ℕ, ◌≤◌, ◌<◌, ◌≡◌, refl, arith, ℤ, true, false, List, [], ◌∷◌, All,
}
use lol_overlay.Models.{Time, zero_time, SummonerSpell, Player, Room}
use lol_overlay.Spell.{
  get_spell_cooldown, calculate_cooldown, refresh_spell, refresh_spells, refresh_players,
  refresh_room_cooldowns,
}

table_bounds :
    (spell_id : ℤ) → (15 ≤ get_spell_cooldown spell_id) × (get_spell_cooldown spell_id ≤ 300)
unfolding get_spell_cooldown
table_bounds spell_id = ground arith

pub calculate_cooldown-le : (base haste : ℕ) → calculate_cooldown base haste ≤ base
unfolding calculate_cooldown
calculate_cooldown-le base haste = grind arith

-- Every spell id has a base cooldown from 15 to 300 seconds, and with any haste the effective
-- cooldown is no longer than the base cooldown.
pub spell_cooldown_bounds :
    (spell_id : ℤ) (haste : ℕ)
    → (15 ≤ get_spell_cooldown spell_id)
      × (get_spell_cooldown spell_id ≤ 300)
      × (calculate_cooldown (get_spell_cooldown spell_id) haste ≤ get_spell_cooldown spell_id)
spell_cooldown_bounds spell_id haste =
    ((table_bounds spell_id).0, (table_bounds spell_id).1, calculate_cooldown-le _ _)

-- What holds of a spell between two operations: a ready spell has no cooldown left, and a spell on
-- cooldown has an end time.
pub record IsSettled (spell : SummonerSpell) : Type 0 where
  pub ready_end : spell.is_ready ≡ true → spell.cooldown_end_time ≡ zero_time
  pub ready_remaining : spell.is_ready ≡ true → spell.remaining_cooldown ≡ 0
  pub cooling_end : spell.is_ready ≡ false → 0 < spell.cooldown_end_time

pub refresh_spell-IsSettled :
    (now : Time) (spell : SummonerSpell) → IsSettled spell → IsSettled (refresh_spell now spell).0
unfolding refresh_spell
refresh_spell-IsSettled now spell h = ground arith

refresh_spell_unchanged :
    (now : Time) (spell : SummonerSpell)
    → (refresh_spell now spell).1 ≡ false
    → (refresh_spell now spell).0 ≡ spell
unfolding refresh_spell
refresh_spell_unchanged now spell h = ground arith

refresh_spell_later :
    (earlier later : Time) (spell : SummonerSpell)
    → earlier ≤ later
    → IsSettled spell
    → (refresh_spell later (refresh_spell earlier spell).0).0 ≡ (refresh_spell later spell).0
unfolding refresh_spell
refresh_spell_later earlier later spell le h = ground arith

refresh_spell_again :
    (now : Time) (spell : SummonerSpell) → (refresh_spell now (refresh_spell now spell).0).1 ≡ false
unfolding refresh_spell
refresh_spell_again now spell = ground arith

abbrev pub SpellsSettled : List SummonerSpell → Type 0
SpellsSettled = All IsSettled

abbrev pub PlayersSettled : List Player → Type 0
PlayersSettled = All (λ player. SpellsSettled player.spells)

refresh_spells-settled :
    (now : Time) (spells : List SummonerSpell)
    → SpellsSettled spells
    → SpellsSettled (refresh_spells now spells).0
unfolding refresh_spells
refresh_spells-settled now [] h = tt
refresh_spells-settled now (spell ∷ rest) h =
    (refresh_spell-IsSettled now spell h.0, refresh_spells-settled now rest h.1)

refresh_players-settled :
    (now : Time) (players : List Player)
    → PlayersSettled players
    → PlayersSettled (refresh_players now players).0
unfolding refresh_players
refresh_players-settled now [] h = tt
refresh_players-settled now (player ∷ rest) h =
    (refresh_spells-settled now player.spells h.0, refresh_players-settled now rest h.1)

refresh_spells_unchanged :
    (now : Time) (spells : List SummonerSpell)
    → (refresh_spells now spells).1 ≡ false
    → (refresh_spells now spells).0 ≡ spells
unfolding refresh_spells
refresh_spells_unchanged now [] h = refl
refresh_spells_unchanged now (spell ∷ rest) h =
    ground (arith, refresh_spell_unchanged now spell, refresh_spells_unchanged now rest)

refresh_players_unchanged :
    (now : Time) (players : List Player)
    → (refresh_players now players).1 ≡ false
    → (refresh_players now players).0 ≡ players
unfolding refresh_players
refresh_players_unchanged now [] h = refl
refresh_players_unchanged now (player ∷ rest) h =
    ground (arith, refresh_spells_unchanged now player.spells, refresh_players_unchanged now rest)

refresh_spells_later :
    (earlier later : Time) (spells : List SummonerSpell)
    → earlier ≤ later
    → SpellsSettled spells
    → (refresh_spells later (refresh_spells earlier spells).0).0 ≡ (refresh_spells later spells).0
unfolding refresh_spells
refresh_spells_later earlier later [] le h = refl
refresh_spells_later earlier later (spell ∷ rest) le h =
    cc (
      refresh_spell_later earlier later spell le h.0,
      refresh_spells_later earlier later rest le h.1,
    )

refresh_players_later :
    (earlier later : Time) (players : List Player)
    → earlier ≤ later
    → PlayersSettled players
    → (refresh_players later (refresh_players earlier players).0).0
      ≡ (refresh_players later players).0
unfolding refresh_players
refresh_players_later earlier later [] le h = refl
refresh_players_later earlier later (player ∷ rest) le h = ground (
  arith,
  refresh_spells_later earlier later player.spells le h.0,
  refresh_players_later earlier later rest le h.1,
)

refresh_spells_again :
    (now : Time) (spells : List SummonerSpell)
    → (refresh_spells now (refresh_spells now spells).0).1 ≡ false
unfolding refresh_spells
refresh_spells_again now [] = refl
refresh_spells_again now (spell ∷ rest) =
    ground (arith, refresh_spell_again now spell, refresh_spells_again now rest)

refresh_players_again :
    (now : Time) (players : List Player)
    → (refresh_players now (refresh_players now players).0).1 ≡ false
unfolding refresh_players
refresh_players_again now [] = refl
refresh_players_again now (player ∷ rest) =
    ground (arith, refresh_spells_again now player.spells, refresh_players_again now rest)

-- On a room whose spells are settled a refresh keeps every spell settled, it reports a change or leaves
-- the room as it was, and a second refresh at the same time reports no change.
pub refresh-settled_exact :
    (now : Time) (room : Room)
    → PlayersSettled room.players
    → PlayersSettled (refresh_room_cooldowns now room).0.players
      × (((refresh_room_cooldowns now room).1 ≡ true)
          ⊎ ((refresh_room_cooldowns now room).0 ≡ room))
      × ((refresh_room_cooldowns now (refresh_room_cooldowns now room).0).1 ≡ false)
unfolding refresh_room_cooldowns
refresh-settled_exact now room h = (
  refresh_players-settled now room.players h,
  elim (Bool-cases (refresh_players now room.players).1) [
    | inl changed ↦ inl changed
    | inr unchanged ↦ inr (cc (refresh_players_unchanged now room.players unchanged))
  ],
  refresh_players_again now room.players,
)

-- On a settled room a refresh in between is not seen by a later one: refreshing at an earlier and
-- then at a later time gives the room that the later refresh alone gives.
pub refresh_later :
    (earlier later : Time) (room : Room)
    → earlier ≤ later
    → PlayersSettled room.players
    → (refresh_room_cooldowns later (refresh_room_cooldowns earlier room).0).0
      ≡ (refresh_room_cooldowns later room).0
unfolding refresh_room_cooldowns
refresh_later earlier later room le h = cc (refresh_players_later earlier later room.players le h)

pub refresh_room_unchanged :
    (now : Time) (room : Room)
    → (refresh_room_cooldowns now room).1 ≡ false
    → (refresh_room_cooldowns now room).0 ≡ room
unfolding refresh_room_cooldowns
refresh_room_unchanged now room h = cc (refresh_players_unchanged now room.players h)

pub refresh_room_id : (now : Time) (room : Room) → (refresh_room_cooldowns now room).0.id ≡ room.id
unfolding refresh_room_cooldowns
refresh_room_id now room = refl
