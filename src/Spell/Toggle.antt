-- ===== src/Spell/Toggle.antt =====
-- Toggling one spell of a player, and carrying the state of spells over to a new line-up
-- (internal/services/summoner_spell_service.go).
use lol_overlay.Prelude.{
  refl, inr, inl, Option-cases, map, none, ℕ, ◌+◌, ◌-◌, ◌*◌, ◌/◌, ◌<◌, String, ◌≡◌, true, some,
  List, [], ◌∷◌, arith, ◌==◌, eq_iff, ltb, if◌then◌else◌, find, modify_first,
}
use lol_overlay.Spell.{
  find_spell, copy_spell_state, copy_spell, toggle_player_spell, calculate_cooldown, is_named,
  toggle_spell, refresh_spell,
}
use lol_overlay.Spell.Cooldown.{SpellsSettled, IsSettled}
use mathlib.Core.Option
use lol_overlay.Models.{Time, second, SummonerSpell, Player}

-- the cooldown that a toggle starts
abbrev pub cooldown_of : Player → SummonerSpell → ℕ
cooldown_of player spell = calculate_cooldown spell.base_cooldown player.summoner_spell_haste

toggle_spell-IsSettled :
    (now : Time) (haste : ℕ) (spell : SummonerSpell)
    → 0 < now
    → IsSettled (toggle_spell now haste spell)
unfolding toggle_spell
toggle_spell-IsSettled now haste spell h = ground arith

toggle_spell_twice :
    (now later : Time) (haste : ℕ) (spell : SummonerSpell)
    → IsSettled spell
    → spell.is_ready ≡ true
    → toggle_spell later haste (toggle_spell now haste spell) ≡ spell
unfolding toggle_spell
toggle_spell_twice now later haste spell h ready = ground arith

-- A spell that is used at `now` and looked at `now + waited`: it is ready again exactly when less
-- than a second of its cooldown is left, and otherwise shows the whole seconds that are left.
pub refresh-toggle_spell :
    (now waited haste : ℕ) (spell : SummonerSpell)
    → 0 < now
    → spell.is_ready ≡ true
    → let cooldown = calculate_cooldown spell.base_cooldown haste in
      let shown = (refresh_spell (now + waited) (toggle_spell now haste spell)).0 in
      shown.is_ready ≡ ltb (cooldown * second) (waited + second)
      × (shown.remaining_cooldown
          ≡ (if shown.is_ready then 0 else (cooldown * second - waited) / second))
unfolding refresh_spell toggle_spell
refresh-toggle_spell now waited haste spell h ready = ground arith

module _ (f : SummonerSpell → SummonerSpell)
    (same_name : (s : SummonerSpell) → (f s).name ≡ s.name) where
  pub find-modify_first :
      (a b : String) (spells spells' : List SummonerSpell)
      → modify_first (is_named a) f spells ≡ some spells'
      → find (is_named b) spells'
        ≡ (if a == b then Option.map f (find (is_named b) spells) else find (is_named b) spells)
  find-modify_first a b [] spells' h = cc
  find-modify_first a b (s ∷ rest) [] h = ground arith
  find-modify_first a b (s ∷ rest) (s' ∷ rest') h = ground (
    arith,
    same_name s,
    eq_iff s.name a,
    eq_iff s.name b,
    eq_iff a b,
    eq_iff (f s).name b,
    find-modify_first a b rest rest',
  )

toggle_spell_name :
    (now : Time) (haste : ℕ) (spell : SummonerSpell)
    → (toggle_spell now haste spell).name ≡ spell.name
unfolding toggle_spell
toggle_spell_name now haste spell = ground arith

modify_first-settled :
    (a : String) (f : SummonerSpell → SummonerSpell) (spells spells' : List SummonerSpell)
    → ((s : SummonerSpell) → IsSettled (f s))
    → SpellsSettled spells
    → modify_first (is_named a) f spells ≡ some spells'
    → SpellsSettled spells'
modify_first-settled a f [] spells' hf h e = cc
modify_first-settled a f (s ∷ rest) [] hf h e = tt
modify_first-settled a f (s ∷ rest) (s' ∷ rest') hf h e =
    grind (arith, hf s, modify_first-settled a f rest rest' hf h.1)

modify_first_twice :
    (a : String) (f g : SummonerSpell → SummonerSpell) (spells spells' : List SummonerSpell)
    (s : SummonerSpell)
    → find (is_named a) spells ≡ some s
    → (f s).name ≡ s.name
    → g (f s) ≡ s
    → modify_first (is_named a) f spells ≡ some spells'
    → modify_first (is_named a) g spells' ≡ some spells
modify_first_twice a f g [] spells' s found same back e = cc
modify_first_twice a f g (x ∷ rest) [] s found same back e = ground arith
modify_first_twice a f g (x ∷ rest) (x' ∷ rest') s found same back e =
    ground (arith, eq_iff x.name a, eq_iff s.name a, modify_first_twice a f g rest rest' s)

map-find :
    (b : String) (f : SummonerSpell → SummonerSpell)
    (same_name : (s : SummonerSpell) → (f s).name ≡ s.name) (spells : List SummonerSpell)
    → find (is_named b) (map f spells) ≡ Option.map f (find (is_named b) spells)
map-find b f same_name [] = refl
map-find b f same_name (s ∷ rest) = ground (arith, same_name s, map-find b f same_name rest)

find_name :
    (a : String) (spells : List SummonerSpell) (s : SummonerSpell)
    → find (is_named a) spells ≡ some s
    → s.name ≡ a
find_name a [] s h = cc
find_name a (x ∷ rest) s h = ground (arith, eq_iff x.name a, find_name a rest s)

copy_spell_name : (old : Player) (spell : SummonerSpell) → (copy_spell old spell).name ≡ spell.name
unfolding copy_spell
copy_spell_name old spell = ground arith

-- `CopySpellState` carries the state of every spell over by its name: a spell of the new player that
-- the old player has too is found with the old state and its own base cooldown, and one that the old
-- player does not have is found as it was.
pub find_spell-copy :
    (old_player new_player : Player) (spell_name : String)
    → find_spell (copy_spell_state old_player new_player) spell_name
      ≡ Option.map
          (λ new_spell. elim (find_spell old_player spell_name) [
            | none ↦ new_spell
            | some old_spell ↦ record old_spell {
              name = new_spell.name;
              base_cooldown = new_spell.base_cooldown;
            }
          ])
          (find_spell new_player spell_name)
unfolding copy_spell_state copy_spell find_spell
find_spell-copy old_player new_player spell_name =
    let mapped =
      map-find spell_name (copy_spell old_player) (copy_spell_name old_player) new_player.spells in
    elim (Option-cases (find (is_named spell_name) new_player.spells)) [
      | inl e ↦ ground (arith, mapped)
      | inr (s, e) ↦ ground (arith, mapped, find_name spell_name new_player.spells s e)
    ]

find-IsSettled :
    (a : String) (spells : List SummonerSpell) (s : SummonerSpell)
    → SpellsSettled spells
    → find (is_named a) spells ≡ some s
    → IsSettled s
find-IsSettled a [] s h e = cc
find-IsSettled a (x ∷ rest) s h e = grind (arith, find-IsSettled a rest s h.1)

copy_spell-IsSettled :
    (old : Player) (spell : SummonerSpell)
    → SpellsSettled old.spells
    → IsSettled spell
    → IsSettled (copy_spell old spell)
unfolding copy_spell find_spell
copy_spell-IsSettled old spell h hs = elim (Option-cases (find (is_named spell.name) old.spells)) [
  | inl e ↦ ground arith
  | inr (s, e) ↦ ground (arith, find-IsSettled spell.name old.spells s h e)
]

map-settled :
    (f : SummonerSpell → SummonerSpell) (spells : List SummonerSpell)
    → ((s : SummonerSpell) → IsSettled s → IsSettled (f s))
    → SpellsSettled spells
    → SpellsSettled (map f spells)
map-settled f [] hf h = tt
map-settled f (s ∷ rest) hf h = (hf s h.0, map-settled f rest hf h.1)

-- A toggle that succeeds at a time after the zero time, and carrying state over, keep the spells of a
-- player settled.
pub toggle_copy-settled :
    (now : Time) (player player' other : Player) (spell_name : String)
    → 0 < now
    → SpellsSettled player.spells
    → SpellsSettled other.spells
    → toggle_player_spell now player spell_name ≡ some player'
    → SpellsSettled player'.spells × SpellsSettled (copy_spell_state player other).spells
unfolding toggle_player_spell copy_spell_state
toggle_copy-settled now player player' other spell_name h hp ho e = (
  elim (Option-cases (modify_first (is_named spell_name) f player.spells)) [
    | inl none_found ↦ cc
    | inr (spells, found) ↦
        let same : player'.spells ≡ spells = ground arith in
        rw same (
          modify_first-settled spell_name f player.spells spells
            (λ s. toggle_spell-IsSettled now player.summoner_spell_haste s h) hp found)
  ],
  map-settled (copy_spell player) other.spells (λ s hs. copy_spell-IsSettled player s hp hs) ho,
)
  where
    f : SummonerSpell → SummonerSpell
    f = toggle_spell now player.summoner_spell_haste

-- Toggling a ready spell of a settled player and toggling it again, at any two times, gives the player
-- back.
pub toggle_twice :
    (now later : Time) (player player' : Player) (spell_name : String) (spell : SummonerSpell)
    → SpellsSettled player.spells
    → find_spell player spell_name ≡ some spell
    → spell.is_ready ≡ true
    → toggle_player_spell now player spell_name ≡ some player'
    → toggle_player_spell later player' spell_name ≡ some player
unfolding toggle_player_spell find_spell
toggle_twice now later player player' spell_name spell h found ready e =
    elim (Option-cases
      (modify_first (is_named spell_name) (toggle_spell now haste) player.spells)) [
        | inl none_found ↦ cc
        | inr (spells, modified) ↦ ground (
          arith,
          modify_first_twice spell_name (toggle_spell now haste) (toggle_spell later haste)
              player.spells spells spell found (toggle_spell_name now haste spell)
              (toggle_spell_twice now later haste spell
                (find-IsSettled spell_name player.spells spell h found) ready)
              modified,
        )
      ]
  where
    haste : ℕ
    haste = player.summoner_spell_haste
