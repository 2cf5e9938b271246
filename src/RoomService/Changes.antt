-- ===== src/RoomService/Changes.antt =====
-- What `AddPlayer`, `ToggleSpellByRiotId`, `ReplacePlayers` and `RefreshCooldowns` of
-- internal/services/room_service.go do to one room, as relations between a room and its changed form, which
-- is `none` where there is nothing to write.
use lol_overlay.Relations.{ChangesFirst, Pointwise}
use lol_overlay.Prelude.{
  ◌&&◌, String, ◌≡◌, ◌≢◌, Bool, true, false, ◌==◌, none, some, Option, List, [], ◌∷◌, ◌++◌, find,
  All, ◌⊎◌,
}
use lol_overlay.Models.{Time, SummonerSpell, Player, Room}
use lol_overlay.Spell.Changes.{Toggles, Carries, RefreshesPlayer}

abbrev pub has_riot_id : String → String → Player → Bool
has_riot_id game_name tag_line player = player.game_name == game_name && player.tag_line == tag_line

abbrev pub has_name : String → SummonerSpell → Bool
has_name name spell = spell.name == name

-- The first spell of a name is toggled.
abbrev pub TogglesPlayer : String → Time → Player → Player → Type 0
TogglesPlayer spell_name now player after =
    (spells : List SummonerSpell) × ChangesFirst (has_name spell_name)
      (Toggles now player.summoner_spell_haste) player.spells spells
    × (after ≡ record player { spells = spells })

-- The first player of a riot id has the first spell of a name toggled, or there is none.
pub data Toggled (game_name tag_line spell_name : String) (now : Time) (room : Room)
    : Option Room → Type 0 where
  no_player :
      All (λ player. has_riot_id game_name tag_line player ≡ false) room.players
      → Toggled game_name tag_line spell_name now room none
  no_spell :
      (player : Player)
      → find (has_riot_id game_name tag_line) room.players ≡ some player
      → All (λ spell. has_name spell_name spell ≡ false) player.spells
      → Toggled game_name tag_line spell_name now room none
  toggles :
      (players : List Player)
      → ChangesFirst
          (has_riot_id game_name tag_line)
          (TogglesPlayer spell_name now)
          room.players
          players
      → Toggled game_name tag_line spell_name now room (some (record room { players = players }))

-- The first player of the riot id has the champion of the given one; a player that is new comes last, with
-- a haste of 18, and with Flash and Ignite where no spells are given.
pub data Added (player : Player) (room : Room) : Option Room → Type 0 where
  renewed :
      (players : List Player)
      → ChangesFirst
          (has_riot_id player.game_name player.tag_line)
          (λ existing after.
            after
            ≡ record existing { champion = player.champion; champion_id = player.champion_id })
          room.players
          players
      → Added player room (some (record room { players = players }))
  joined :
      (spell : SummonerSpell) (rest : List SummonerSpell)
      → All (λ p. has_riot_id player.game_name player.tag_line p ≡ false) room.players
      → player.spells ≡ spell ∷ rest
      → Added player room (
          some (record room {
            players = room.players ++ record player { summoner_spell_haste = 18 } ∷ [];
          }))
  joined_without_spells :
      All (λ p. has_riot_id player.game_name player.tag_line p ≡ false) room.players
      → player.spells ≡ []
      → Added player room (
          some (record room {
            players =
                room.players
                ++ record player {
                  summoner_spell_haste = 18;
                  spells =
                      record {
                        name = "Flash";
                        is_ready = true;
                        base_cooldown = 300;
                        cooldown_end_time = 0;
                        remaining_cooldown = 0;
                      }
                      ∷ record {
                        name = "Ignite";
                        is_ready = true;
                        base_cooldown = 180;
                        cooldown_end_time = 0;
                        remaining_cooldown = 0;
                      }
                      ∷ [];
                }
                  ∷ [];
          }))

-- A player of the new line-up with the state of the spells of the first old player of its riot id.
pub data CarriesPlayer (old : List Player) : Player → Player → Type 0 where
  unknown :
      (player : Player)
      → find (has_riot_id player.game_name player.tag_line) old ≡ none
      → CarriesPlayer old player player
  known :
      (player old_player : Player) (spells : List SummonerSpell)
      → find (has_riot_id player.game_name player.tag_line) old ≡ some old_player
      → Pointwise (Carries old_player.spells) player.spells spells
      → CarriesPlayer old player (record player { spells = spells })

-- The players of the room are the given ones with the state of the known ones carried over; nothing is
-- written exactly where they are already, down to which slices are nil.
pub data Replaced (nil_alike : List Player → List Player → Bool) (players : List Player)
    (room : Room) : Option Room → Type 0 where
  same_players :
      nil_alike room.players room.players ≡ true
      → Pointwise (CarriesPlayer room.players) players room.players
      → Replaced nil_alike players room none
  other_players :
      (carried : List Player)
      → Pointwise (CarriesPlayer room.players) players carried
      → (nil_alike room.players carried ≡ false) ⊎ (room.players ≢ carried)
      → Replaced nil_alike players room (some (record room { players = carried }))

-- Every spell of every player is refreshed at a time.
abbrev pub RefreshedAt : Time → Room → Option Room → Type 0
RefreshedAt now room after =
    (players : List Player) × Pointwise (RefreshesPlayer now) room.players players
    × (after ≡ some (record room { players = players }))
