-- ===== src/RoomService/Players.antt =====
-- The parts of internal/services/room_service.go that change the players of one room.
use mathlib.Core.Option
use lol_overlay.Prelude.{
  ℕ, String, ◌≡◌, refl, Bool, true, false, not, ◌&&◌, Option, none, some, List, [], ◌∷◌, ◌++◌, map,
  arith, ◌==◌, eq_iff, nat_eq, if◌then◌else◌, int_eq, find, modify_first,
}
use lol_overlay.Models.{
  Time, default_summoner_spell_haste, SummonerSpell, Player, Room, ChampionInfo, ChampSelectPlayer,
}
use lol_overlay.Spell.{toggle_player_spell, copy_spell_state, get_spell_name, get_spell_cooldown}

abbrev pub is_riot_id : String → String → Player → Bool
is_riot_id game_name tag_line player = player.game_name == game_name && player.tag_line == tag_line

unfoldable pub find_player_by_riot_id : Room → String → String → Option Player
find_player_by_riot_id room game_name tag_line = find (is_riot_id game_name tag_line) room.players

abbrev pub new_spell : String → ℕ → SummonerSpell
new_spell name base_cooldown = record {
  name = name;
  is_ready = true;
  base_cooldown = base_cooldown;
  cooldown_end_time = 0;
  remaining_cooldown = 0;
}

abbrev pub default_spells : List SummonerSpell → List SummonerSpell
default_spells [] = new_spell "Flash" 300 ∷ new_spell "Ignite" 180 ∷ []
default_spells (spell ∷ rest) = spell ∷ rest

-- What `addPlayerLocked` writes to the room that it found.
unfoldable pub add_to_room : Player → Room → Room
add_to_room player room =
    elim (modify_first (is_riot_id player.game_name player.tag_line)
      (λ existing. record existing { champion = player.champion; champion_id = player.champion_id })
      room.players) [
        | some players ↦ record room { players = players }
        | none ↦ record room {
          players =
              room.players
              ++ record player {
                summoner_spell_haste = default_summoner_spell_haste;
                spells = default_spells player.spells;
              }
                ∷ [];
        }
      ]

-- A loop that takes the first element that passes a test and writes to it, where the write may fail.
abbrev pub try_first {ℓ} : {A : Type ℓ} → (A → Bool) → (A → Option A) → List A → Option (List A)
try_first p f [] = none
try_first p f (x ∷ xs) =
    if p x then Option.map (λ y. y ∷ xs) (f x) else Option.map (λ ys. x ∷ ys) (try_first p f xs)

-- What `toggleSpellByRiotIDLocked` writes to the room; `none` where the player or the spell is missing.
unfoldable pub toggle_in_room : String → String → String → Time → Room → Option Room
toggle_in_room game_name tag_line spell_name now room =
    Option.map (λ players. record room { players = players })
      (try_first (is_riot_id game_name tag_line)
        (λ player. toggle_player_spell now player spell_name) room.players)

-- The loop of `ReplacePlayers` over the new players.
unfoldable pub carry_over : Room → Player → Player
unfolding find_player_by_riot_id
carry_over room new_player =
    elim (find_player_by_riot_id room new_player.game_name new_player.tag_line) [
      | none ↦ new_player
      | some old_player ↦ copy_spell_state old_player new_player
    ]

abbrev bool_eq : Bool → Bool → Bool
bool_eq true b = b
bool_eq false b = not b

unfoldable pub spell_eq : SummonerSpell → SummonerSpell → Bool
spell_eq a b =
    a.name == b.name
    && (bool_eq a.is_ready b.is_ready
        && (nat_eq a.base_cooldown b.base_cooldown
            && (nat_eq a.cooldown_end_time b.cooldown_end_time
                && nat_eq a.remaining_cooldown b.remaining_cooldown)))

unfoldable pub list_eq {ℓ} : {A : Type ℓ} → (A → A → Bool) → List A → List A → Bool
list_eq eq [] [] = true
list_eq eq (a ∷ as') (b ∷ bs) = eq a b && list_eq eq as' bs
list_eq eq _ _ = false

unfoldable pub player_eq : Player → Player → Bool
player_eq a b =
    a.champion == b.champion
    && (a.champion_image == b.champion_image
        && (a.game_name == b.game_name
            && (a.tag_line == b.tag_line
                && (int_eq a.champion_id b.champion_id
                    && (nat_eq a.summoner_spell_haste b.summoner_spell_haste
                        && list_eq spell_eq a.spells b.spells)))))

-- What `ReplacePlayers` writes; `none` where `reflect.DeepEqual` finds nothing new. It tells a nil slice
-- from an empty one, which lists do not: `nil_alike` is whether the two have the same slices nil.
unfoldable pub replace_in_room :
    (List Player → List Player → Bool) → List Player → Room → Option Room
replace_in_room nil_alike players room =
    let carried = map (carry_over room) players in
    if nil_alike room.players carried && list_eq player_eq room.players carried
    then none
    else some (record room { players = carried })

-- The player that `SyncFromChampSelect` builds for a member of the team.
unfoldable pub player_of : ChampSelectPlayer → ChampionInfo → Player
player_of member champion = record {
  champion = champion.name;
  champion_image = champion.image_url;
  game_name = member.game_name;
  tag_line = member.tag_line;
  champion_id = member.champion_id;
  summoner_spell_haste = default_summoner_spell_haste;
  spells =
      new_spell (get_spell_name member.spell1_id) (get_spell_cooldown member.spell1_id)
      ∷ new_spell (get_spell_name member.spell2_id) (get_spell_cooldown member.spell2_id)
      ∷ [];
}

spell_eq_sound : (a b : SummonerSpell) → spell_eq a b ≡ true → a ≡ b
unfolding spell_eq
spell_eq_sound a b h = ground (arith, eq_iff a.name b.name)

pub list_eq_sound {ℓ} :
    {A : Type ℓ} (eq : A → A → Bool)
    → ((a b : A) → eq a b ≡ true → a ≡ b)
    → (xs ys : List A) → list_eq eq xs ys ≡ true
    → xs ≡ ys
unfolding list_eq
list_eq_sound eq sound [] [] h = refl
list_eq_sound eq sound [] (y ∷ ys) h = cc
list_eq_sound eq sound (x ∷ xs) [] h = cc
list_eq_sound eq sound (x ∷ xs) (y ∷ ys) h = ground (arith, sound x y, list_eq_sound eq sound xs ys)

pub player_eq_sound : (a b : Player) → player_eq a b ≡ true → a ≡ b
unfolding player_eq
player_eq_sound a b h = ground (
  arith,
  eq_iff a.champion b.champion,
  eq_iff a.champion_image b.champion_image,
  eq_iff a.game_name b.game_name,
  eq_iff a.tag_line b.tag_line,
  list_eq_sound spell_eq spell_eq_sound a.spells b.spells,
)
