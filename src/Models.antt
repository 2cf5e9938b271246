-- ===== src/Models.antt =====
-- The data of internal/models. A `time.Time` is the number of nanoseconds since the zero time, so
-- `IsZero` is the test for 0; a `time.Duration` is a number of nanoseconds. The integers that come
-- from the League client are signed; cooldowns and haste are never negative in the program.
-- A nil slice and an empty slice are both the empty list.
use lol_overlay.Prelude.{ℕ, ◌*◌, ◌^◌, String, Bool, List, ℤ, nat_eq}

abbrev pub Time : Type 0
Time = ℕ

abbrev pub zero_time : Time
zero_time = 0

-- `t.IsZero()`
abbrev pub is_zero : Time → Bool
is_zero t = nat_eq t 0

abbrev pub second : ℕ
second = 10 ^ 9

abbrev pub minute : ℕ
minute = 60 * second

abbrev pub default_summoner_spell_haste : ℕ
default_summoner_spell_haste = 18

abbrev pub room_expiration_duration : ℕ
room_expiration_duration = 180 * minute

pub record SummonerSpell : Type 0 where
  pub name : String
  pub is_ready : Bool
  pub base_cooldown : ℕ
  pub cooldown_end_time : Time
  pub remaining_cooldown : ℕ

pub record Player : Type 0 where
  pub champion : String
  pub champion_image : String
  pub game_name : String
  pub tag_line : String
  pub champion_id : ℤ
  pub summoner_spell_haste : ℕ
  pub spells : List SummonerSpell

pub record Room : Type 0 where
  pub id : String
  pub players : List Player
  pub last_updated : Time

pub record ChampSelectPlayer : Type 0 where
  pub cell_id : ℤ
  pub champion_id : ℤ
  pub spell1_id : ℤ
  pub spell2_id : ℤ
  pub game_name : String
  pub tag_line : String
  pub puuid : String
  pub team : ℤ

pub record ChampSelectSession : Type 0 where
  pub game_id : ℤ
  pub local_player_cell_id : ℤ
  pub my_team : List ChampSelectPlayer
  pub their_team : List ChampSelectPlayer

pub record ChampionInfo : Type 0 where
  pub id : ℤ
  pub name : String
  pub image_url : String
