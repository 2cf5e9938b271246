-- ===== src/Tests/Spells.antt =====
-- One player with two spells, used and refreshed (internal/services/summoner_spell_service.go).
use lol_overlay.Prelude.{◌⊎◌, ◌*◌, ◌≡◌, refl, true, false, none, some, [], ◌∷◌, arith, pos}
use lol_overlay.Spell.{
  refresh_spells, refresh_players, calculate_cooldown, toggle_spell, toggle_player_spell,
  refresh_spell, refresh_room_cooldowns,
}
use lol_overlay.Models.{second, SummonerSpell, Player, Room}
use lol_overlay.Spell.Cooldown.{PlayersSettled, refresh-settled_exact}
use mathlib.Core.Option

abbrev flash : SummonerSpell
flash = record {
  name = "Flash";
  is_ready = true;
  base_cooldown = 300;
  cooldown_end_time = 0;
  remaining_cooldown = 0;
}

abbrev ignite : SummonerSpell
ignite = record {
  name = "Ignite";
  is_ready = true;
  base_cooldown = 180;
  cooldown_end_time = 0;
  remaining_cooldown = 0;
}

abbrev ahri : Player
ahri = record {
  champion = "Ahri";
  champion_image = "";
  game_name = "mid";
  tag_line = "EUW";
  champion_id = pos 103;
  summoner_spell_haste = 18;
  spells = flash ∷ ignite ∷ [];
}

-- Flash used at 1000 seconds: 254 seconds at 18 haste.
abbrev used : Player
used = record ahri {
  spells =
      record flash { is_ready = false; cooldown_end_time = 1254 * second; remaining_cooldown = 254 }
      ∷ ignite
      ∷ [];
}

flash_used : toggle_player_spell (1000 * second) ahri "Flash" ≡ some used
unfolding toggle_player_spell toggle_spell calculate_cooldown
flash_used = refl

no_heal : toggle_player_spell (1000 * second) ahri "Heal" ≡ none
unfolding toggle_player_spell
no_heal = refl

abbrev room : Room
room = record { id = "7-100"; players = used ∷ []; last_updated = 1000 * second }

refreshed_flash : (refresh_room_cooldowns (1100 * second) room).1 ≡ true
unfolding refresh_room_cooldowns refresh_players refresh_spells refresh_spell
refreshed_flash = refl

refresh-settled_exact_example :
    PlayersSettled (refresh_room_cooldowns (1100 * second) room).0.players
    × (((refresh_room_cooldowns (1100 * second) room).1 ≡ true)
        ⊎ ((refresh_room_cooldowns (1100 * second) room).0 ≡ room))
    × ((refresh_room_cooldowns (1100 * second) (refresh_room_cooldowns (1100 * second) room).0).1
        ≡ false)
refresh-settled_exact_example = refresh-settled_exact (1100 * second) room (ground arith)
