-- ===== src/RoomId.antt =====
-- internal/services/room_id.go. An `int` is a signed integer of the model; `%d` prints it.
use lol_overlay.Prelude.{
  arith, false, String, ◌≡◌, refl, sym, ◌∙◌, ◌⊎◌, inl, inr, ◌||◌, Option, none, some, List, [], ◌∷◌,
  if◌then◌else◌, ℤ, int_eq, Bool-cases, pos,
}
use lol_overlay.Prelude.Decimals.{signed_decimal, signed_decimal_inj, after_sign_inj, minus}
use lol_overlay.Models.{ChampSelectPlayer, ChampSelectSession}

-- The team of the first player with the cell id, and 0 where there is none.
unfoldable pub team_of : ℤ → List ChampSelectPlayer → ℤ
team_of cell_id [] = pos 0
team_of cell_id (player ∷ rest) =
    if int_eq player.cell_id cell_id then player.team else team_of cell_id rest

unfoldable pub print_room_id : ℤ → ℤ → String
unfolding signed_decimal
print_room_id game_id team = signed_decimal game_id (String.◌∷◌ "-" (signed_decimal team ""))

-- `none` is the nil session.
unfoldable pub build_room_id : Option ChampSelectSession → String
unfolding team_of print_room_id
build_room_id none = ""
build_room_id (some session) =
    let team = team_of session.local_player_cell_id session.my_team in
    if int_eq session.game_id (pos 0) || int_eq team (pos 0)
    then ""
    else print_room_id session.game_id team

print_room_id_inj : (g t g' t' : ℤ) → print_room_id g t ≡ print_room_id g' t' → (g ≡ g') × (t ≡ t')
unfolding print_room_id
print_room_id_inj g t g' t' e =
    let game =
      signed_decimal_inj g g' (String.◌∷◌ "-" (signed_decimal t ""))
        (String.◌∷◌ "-" (signed_decimal t' "")) (minus (signed_decimal t ""))
        (minus (signed_decimal t' "")) e in
    let team =
      signed_decimal_inj t t' "" "" refl refl
        (after_sign_inj "-" (signed_decimal t "") (signed_decimal t' "") game.1) in
    (game.0, team.0)

-- Of two sessions with the same room id, either the id is empty, or the sessions have the same game and
-- the local players the same team, and neither the game nor the team is 0.
pub build_room_id_inj :
    (s s' : ChampSelectSession)
    → build_room_id (some s) ≡ build_room_id (some s')
    → (build_room_id (some s) ≡ "")
      ⊎ ((s.game_id ≡ s'.game_id)
          × (team_of s.local_player_cell_id s.my_team ≡ team_of s'.local_player_cell_id s'.my_team)
          × (int_eq s.game_id (pos 0) ≡ false)
          × (int_eq (team_of s.local_player_cell_id s.my_team) (pos 0) ≡ false))
unfolding build_room_id
build_room_id_inj s s' e =
    let team = team_of s.local_player_cell_id s.my_team in
    let team' = team_of s'.local_player_cell_id s'.my_team in
    elim (Bool-cases (int_eq s.game_id (pos 0) || int_eq team (pos 0))) [
      | inl z ↦ rw z (inl refl)
      | inr p ↦ elim (Bool-cases (int_eq s'.game_id (pos 0) || int_eq team' (pos 0))) [
        | inl z' ↦ inl (e ∙ rw z' refl)
        | inr p' ↦ inr (
            let here : build_room_id (some s) ≡ print_room_id s.game_id team = rw p refl in
            let there : build_room_id (some s') ≡ print_room_id s'.game_id team' = rw p' refl in
            let (game, same_team) =
              print_room_id_inj s.game_id team s'.game_id team' (sym here ∙ e ∙ there) in
            (game, same_team, ground arith, ground arith))
      ]
    ]
