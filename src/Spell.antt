-- ===== src/Spell.antt =====
-- internal/services/summoner_spell_service.go, `FindSpell` of internal/models/player.go, and
-- `refreshRoomCooldowns` of internal/services/room_service.go: what happens to one spell, one
-- player and one room. A pointer into a slice is the first element that passes the loop's test.
pub mod Cooldown
pub mod Changes
pub mod Toggle
use mathlib.Core.Option
use lol_overlay.Prelude.{
  ℕ, ◌+◌, ◌-◌, ◌*◌, ◌/◌, String, ◌==◌, Bool, true, false, not, ◌||◌, Option, none, some, List, [],
  ◌∷◌, ℤ, pos, int_eq, nat_eq, map, find, modify_first, if◌then◌else◌,
}
use lol_overlay.Models.{Time, zero_time, is_zero, second, SummonerSpell, Player, Room}

unfoldable pub get_spell_name : ℤ → String
get_spell_name spell_id =
    if int_eq spell_id (pos 1)
    then "Cleanse"
    else if int_eq spell_id (pos 3)
    then "Exhaust"
    else if int_eq spell_id (pos 4)
    then "Flash"
    else if int_eq spell_id (pos 6)
    then "Ghost"
    else if int_eq spell_id (pos 7)
    then "Heal"
    else if int_eq spell_id (pos 11)
    then "Smite"
    else if int_eq spell_id (pos 12)
    then "Teleport"
    else if int_eq spell_id (pos 14)
    then "Ignite"
    else if int_eq spell_id (pos 21)
    then "Barrier"
    else "Unknown"

unfoldable pub get_spell_cooldown : ℤ → ℕ
get_spell_cooldown spell_id =
    if int_eq spell_id (pos 4)
    then 300
    else if int_eq spell_id (pos 14)
    then 180
    else if int_eq spell_id (pos 7)
    then 240
    else if int_eq spell_id (pos 3)
    then 240
    else if int_eq spell_id (pos 6)
    then 240
    else if int_eq spell_id (pos 12)
    then 300
    else if int_eq spell_id (pos 11)
    then 15
    else if int_eq spell_id (pos 21)
    then 180
    else if int_eq spell_id (pos 1)
    then 240
    else 300

unfoldable pub calculate_cooldown : ℕ → ℕ → ℕ
calculate_cooldown base_cooldown summoner_spell_haste =
    base_cooldown * 100 / (100 + summoner_spell_haste)

abbrev pub is_named : String → SummonerSpell → Bool
is_named spell_name spell = spell.name == spell_name

-- `p.FindSpell(spellName)`
unfoldable pub find_spell : Player → String → Option SummonerSpell
find_spell p spell_name = find (is_named spell_name) p.spells

-- The writes of `TogglePlayerSpell` through the pointer, at the time `now`.
unfoldable pub toggle_spell : Time → ℕ → SummonerSpell → SummonerSpell
toggle_spell now haste spell =
    if not spell.is_ready
    then record spell { is_ready = true; cooldown_end_time = zero_time; remaining_cooldown = 0 }
    else (let cooldown = calculate_cooldown spell.base_cooldown haste in
        record spell {
          is_ready = false;
          remaining_cooldown = cooldown;
          cooldown_end_time = now + cooldown * second;
        })

-- `none` stands for the result `false`: no spell of that name, and nothing is written.
unfoldable pub toggle_player_spell : Time → Player → String → Option Player
toggle_player_spell now player spell_name =
    Option.map (λ spells. record player { spells = spells })
      (modify_first (is_named spell_name) (toggle_spell now player.summoner_spell_haste)
        player.spells)

-- One round of the loop of `CopySpellState`.
unfoldable pub copy_spell : Player → SummonerSpell → SummonerSpell
unfolding find_spell
copy_spell old_player new_spell = elim (find_spell old_player new_spell.name) [
  | none ↦ new_spell
  | some old_spell ↦ record new_spell {
    is_ready = old_spell.is_ready;
    cooldown_end_time = old_spell.cooldown_end_time;
    remaining_cooldown = old_spell.remaining_cooldown;
  }
]

unfoldable pub copy_spell_state : Player → Player → Player
copy_spell_state old_player new_player = record new_player {
  spells = map (copy_spell old_player) new_player.spells;
}

-- The body of the inner loop of `refreshRoomCooldowns`, with whether it sets `changed`. A negative
-- remaining time is cut to 0, which takes the same branch.
unfoldable pub refresh_spell : Time → SummonerSpell → SummonerSpell × Bool
refresh_spell now spell =
    let remaining = (spell.cooldown_end_time - now) / second in
    if spell.is_ready || is_zero spell.cooldown_end_time
    then (if nat_eq spell.remaining_cooldown 0
        then (spell, false)
        else (record spell { remaining_cooldown = 0 }, true))
    else if nat_eq remaining 0
    then (
      record spell { is_ready = true; remaining_cooldown = 0; cooldown_end_time = zero_time },
      true,
    )
    else if nat_eq spell.remaining_cooldown remaining
    then (spell, false)
    else (record spell { remaining_cooldown = remaining }, true)

unfoldable pub refresh_spells : Time → List SummonerSpell → List SummonerSpell × Bool
refresh_spells now [] = ([], false)
refresh_spells now (spell ∷ rest) =
    let (spell', changed) = refresh_spell now spell in
    let (rest', changed') = refresh_spells now rest in (spell' ∷ rest', changed || changed')

unfoldable pub refresh_players : Time → List Player → List Player × Bool
refresh_players now [] = ([], false)
refresh_players now (player ∷ rest) =
    let (spells, changed) = refresh_spells now player.spells in
    let (rest', changed') = refresh_players now rest in
    (record player { spells = spells } ∷ rest', changed || changed')

unfoldable pub refresh_room_cooldowns : Time → Room → Room × Bool
refresh_room_cooldowns now room =
    let (players, changed) = refresh_players now room.players in
    (record room { players = players }, changed)
