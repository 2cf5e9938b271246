-- ===== src/RoomService/Described.antt =====
-- That the relations of RoomService/Changes describe what internal/services/room_service.go writes to a
-- room.
use lol_overlay.Relations.{
  ChangesFirst, here, later, Pointwise, map-Pointwise, modify_first-Changes, modify_first-none,
}
use mathlib.Core.Path.{subst}
use lol_overlay.Prelude.{
  ◌&&◌, String, ◌≡◌, refl, sym, ap, ◌∙◌, Bool, true, false, none, some, Option, List, [], ◌∷◌, ◌++◌,
  map, find, All, modify_first, inl, inr, ◌⊎◌, Bool-cases, Option-cases, arith, eq_refl,
}
use lol_overlay.Models.{Time, SummonerSpell, Player, Room}
use lol_overlay.Spell.{
  toggle_player_spell, toggle_spell, copy_spell_state, refresh_room_cooldowns, refresh_players,
}
use lol_overlay.Spell.Changes.{
  Toggles, toggle_spell-Toggles, copy_spell_state-Carries, refresh_players-Pointwise,
}
use lol_overlay.RoomService.Players.{
  add_to_room, toggle_in_room, replace_in_room, carry_over, default_spells, find_player_by_riot_id,
  try_first, list_eq, player_eq, player_eq_sound, list_eq_sound, spell_eq,
}
use lol_overlay.RoomService.Changes.{
  has_riot_id, has_name, TogglesPlayer, Toggled, no_player, no_spell, toggles, Added, renewed,
  joined, joined_without_spells, CarriesPlayer, unknown, known, Replaced, same_players,
  other_players, RefreshedAt,
}

pub refresh_room-RefreshedAt :
    (now : Time) (room : Room) → RefreshedAt now room (some (refresh_room_cooldowns now room).0)
unfolding refresh_room_cooldowns
refresh_room-RefreshedAt now room =
    ((refresh_players now room.players).0, refresh_players-Pointwise now room.players, refl)

module _ (spell_name : String) (now : Time) where
  toggled_player :
      (player after : Player)
      → toggle_player_spell now player spell_name ≡ some after
      → TogglesPlayer spell_name now player after
  unfolding toggle_player_spell
  toggled_player player after e =
      let f = toggle_spell now player.summoner_spell_haste in
      elim (Option-cases (modify_first (has_name spell_name) f player.spells)) [
        | inl n ↦ absurd (ground arith)
        | inr (spells, m) ↦ (
          spells,
          modify_first-Changes (has_name spell_name) (Toggles now player.summoner_spell_haste) f
              player.spells spells (toggle_spell-Toggles now player.summoner_spell_haste) m,
          ground arith,
        )
      ]

  untoggled_player :
      (player : Player)
      → toggle_player_spell now player spell_name ≡ none
      → All (λ spell. has_name spell_name spell ≡ false) player.spells
  unfolding toggle_player_spell
  untoggled_player player e =
      let f = toggle_spell now player.summoner_spell_haste in
      elim (Option-cases (modify_first (has_name spell_name) f player.spells)) [
        | inl n ↦ modify_first-none (has_name spell_name) f player.spells n
        | inr (spells, m) ↦ absurd (ground arith)
      ]

module _ (p : Player → Bool) (f : Player → Option Player) where
  try_first-Changes :
      (R : Player → Player → Type 0) (xs ys : List Player)
      → ((x y : Player) → f x ≡ some y → R x y)
      → try_first p f xs ≡ some ys
      → ChangesFirst p R xs ys
  try_first-Changes R [] ys h e = cc
  try_first-Changes R (x ∷ xs) ys h e = elim (Bool-cases (p x)) [
    | inl e1 ↦ elim (Option-cases (f x)) [
      | inl n ↦ absurd (ground arith)
      | inr (y, m) ↦ let same : ys ≡ y ∷ xs = ground arith in rw same (here x y xs e1 (h x y m))
    ]
    | inr e2 ↦ elim (Option-cases (try_first p f xs)) [
      | inl n ↦ absurd (ground arith)
      | inr (zs, m) ↦
          let same : ys ≡ x ∷ zs = ground arith in
          rw same (later x xs zs e2 (try_first-Changes R xs zs h m))
    ]
  ]

  try_first-none :
      (xs : List Player)
      → try_first p f xs ≡ none
      → All (λ x. p x ≡ false) xs ⊎ ((x : Player) × (find p xs ≡ some x) × (f x ≡ none))
  try_first-none [] e = inl tt
  try_first-none (x ∷ xs) e = elim (Bool-cases (p x)) [
    | inl e1 ↦ inr (x, ground arith, ground arith)
    | inr e2 ↦
        let none_left : try_first p f xs ≡ none = ground arith in
        elim (try_first-none xs none_left) [
          | inl all ↦ inl (e2, all)
          | inr (y, found, n) ↦ inr (y, ground arith, n)
        ]
  ]

pub toggle_in_room-Toggled :
    (game_name tag_line spell_name : String) (now : Time) (room : Room)
    → Toggled game_name tag_line spell_name now room
        (toggle_in_room game_name tag_line spell_name now room)
unfolding toggle_in_room
toggle_in_room-Toggled game_name tag_line spell_name now room =
    let p = has_riot_id game_name tag_line in
    let f = λ (player : Player). toggle_player_spell now player spell_name in
    elim (Option-cases (try_first p f room.players)) [
      | inl n ↦
          let same : toggle_in_room game_name tag_line spell_name now room ≡ none =
            rw (n, toggle_in_room) refl in
          rw same (elim (try_first-none p f room.players n) [
            | inl all ↦ no_player all
            | inr (player, found, left) ↦
                no_spell player found (untoggled_player spell_name now player left)
          ])
      | inr (players, m) ↦
          let same : toggle_in_room game_name tag_line spell_name now room
              ≡ some (record room { players = players }) =
            rw (m, toggle_in_room) refl in
          rw same (
            toggles players (
              try_first-Changes p f (TogglesPlayer spell_name now) room.players players
                (toggled_player spell_name now) m))
    ]

pub add_to_room-Added :
    (player : Player) (room : Room) → Added player room (some (add_to_room player room))
unfolding add_to_room
add_to_room-Added player room =
    let p = has_riot_id player.game_name player.tag_line in
    let f = λ (existing : Player). record existing {
      champion = player.champion;
      champion_id = player.champion_id;
    } in
    elim (Option-cases (modify_first p f room.players)) [
      | inr (players, m) ↦
          let same : add_to_room player room ≡ record room { players = players } =
            rw (m, add_to_room) refl in
          rw same (
            renewed players (
              modify_first-Changes p (λ existing after. after ≡ f existing) f room.players players
                (λ x. refl) m))
      | inl n ↦
          let others = modify_first-none p f room.players n in
          let same : add_to_room player room ≡ record room {
            players =
                room.players
                ++ record player {
                  summoner_spell_haste = 18;
                  spells = default_spells player.spells;
                }
                  ∷ [];
          } =
            rw (n, add_to_room) refl in
          rw same (joined_player player room others player.spells refl)
    ]
  where
    joined_player :
        (player : Player) (room : Room)
        → All (λ p. has_riot_id player.game_name player.tag_line p ≡ false) room.players
        → (spells : List SummonerSpell) → player.spells ≡ spells
        → Added player room (
            some (record room {
              players =
                  room.players
                  ++ record player { summoner_spell_haste = 18; spells = default_spells spells }
                    ∷ [];
            }))
    joined_player player room others [] e = joined_without_spells others e
    joined_player player room others (spell ∷ rest) e =
        let same : record player { summoner_spell_haste = 18; spells = spell ∷ rest }
            ≡ record player { summoner_spell_haste = 18 } =
          ap
            (λ (spells : List SummonerSpell). record player {
              summoner_spell_haste = 18;
              spells = spells;
            })
            (sym e) in
        rw same (joined spell rest others e)

carry_over-CarriesPlayer :
    (room : Room) (player : Player) → CarriesPlayer room.players player (carry_over room player)
unfolding carry_over find_player_by_riot_id copy_spell_state
carry_over-CarriesPlayer room player =
    elim (Option-cases (find (has_riot_id player.game_name player.tag_line) room.players)) [
      | inl n ↦
          let same : carry_over room player ≡ player = rw (n, carry_over) refl in
          rw same (unknown player n)
      | inr (old_player, m) ↦
          let spells = (copy_spell_state old_player player).spells in
          let same : carry_over room player ≡ record player { spells = spells } =
            rw (m, carry_over) refl in
          rw same (known player old_player spells m (copy_spell_state-Carries old_player player))
    ]

spell_eq_refl : (a : SummonerSpell) → spell_eq a a ≡ true
unfolding spell_eq
spell_eq_refl a = ground (arith, eq_refl a.name)

list_eq_refl :
    {A : Type 0} (eq : A → A → Bool)
    → ((a : A) → eq a a ≡ true)
    → (xs : List A) → list_eq eq xs xs ≡ true
unfolding list_eq
list_eq_refl eq h [] = refl
list_eq_refl eq h (x ∷ xs) = rw (h x, list_eq_refl eq h xs) refl

player_eq_refl : (a : Player) → player_eq a a ≡ true
unfolding player_eq
player_eq_refl a = ground (
  arith,
  eq_refl a.champion,
  eq_refl a.champion_image,
  eq_refl a.game_name,
  eq_refl a.tag_line,
  list_eq_refl spell_eq spell_eq_refl a.spells,
)

pub replace_in_room-Replaced :
    (nil_alike : List Player → List Player → Bool) (players : List Player) (room : Room)
    → Replaced nil_alike players room (replace_in_room nil_alike players room)
unfolding replace_in_room
replace_in_room-Replaced nil_alike players room =
    let carried = map (carry_over room) players in
    let carries =
      map-Pointwise (CarriesPlayer room.players) (carry_over room) (carry_over-CarriesPlayer room)
        players in
    elim (Bool-cases (nil_alike room.players carried && list_eq player_eq room.players carried)) [
      | inl e1 ↦
          let equal : room.players ≡ carried =
            list_eq_sound player_eq player_eq_sound room.players carried (ground arith) in
          let alike : nil_alike room.players carried ≡ true = ground arith in
          let nothing : replace_in_room nil_alike players room ≡ none =
            rw (e1, replace_in_room) refl in
          rw nothing (
            same_players (ap (nil_alike room.players) equal ∙ alike)
              (subst (λ x. Pointwise (CarriesPlayer room.players) players x) (sym equal) carries))
      | inr e2 ↦
          let written : replace_in_room nil_alike players room
              ≡ some (record room { players = carried }) =
            rw (e2, replace_in_room) refl in
          rw written (
            other_players carried carries (elim (Bool-cases (nil_alike room.players carried)) [
              | inr differ ↦ inl differ
              | inl alike ↦ inr (λ equal.
                  let same : list_eq player_eq room.players carried ≡ true =
                    ap (list_eq player_eq room.players) (sym equal)
                    ∙ list_eq_refl player_eq player_eq_refl room.players in
                  cc (e2, alike, same))
            ]))
    ]
