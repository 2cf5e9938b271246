-- ===== src/Spell/Changes.antt =====
-- What the loops of internal/services/summoner_spell_service.go and of `refreshRoomCooldowns` do to a spell
-- and to a player, as relations. A second is written out in nanoseconds.
use lol_overlay.Relations.{Pointwise, ends, goes_on, map-Pointwise}
use lol_overlay.Prelude.{
  ℕ, ◌+◌, ◌-◌, ◌*◌, ◌/◌, ◌<◌, ◌≤◌, ◌≡◌, refl, true, false, ◌||◌, ◌==◌, none, some, List, [], ◌∷◌,
  find, inl, inr, Bool-cases, Option-cases, arith, nat_eq,
}
use lol_overlay.Models.{Time, is_zero, second, SummonerSpell, Player}
use lol_overlay.Spell.{
  toggle_spell, calculate_cooldown, copy_spell, copy_spell_state, find_spell, refresh_spell,
  refresh_spells, refresh_players,
}

-- A toggle at a time: a ready spell goes on cooldown, another one becomes ready.
pub data Toggles (now : Time) (haste : ℕ) : SummonerSpell → SummonerSpell → Type 0 where
  used :
      (spell : SummonerSpell)
      → spell.is_ready ≡ true
      → Toggles now haste spell (record spell {
        is_ready = false;
        remaining_cooldown = spell.base_cooldown * 100 / (100 + haste);
        cooldown_end_time = now + spell.base_cooldown * 100 / (100 + haste) * 1000000000;
      })
  cancelled :
      (spell : SummonerSpell)
      → spell.is_ready ≡ false
      → Toggles now haste spell
          (record spell { is_ready = true; remaining_cooldown = 0; cooldown_end_time = 0 })

pub toggle_spell-Toggles :
    (now : Time) (haste : ℕ) (spell : SummonerSpell)
    → Toggles now haste spell (toggle_spell now haste spell)
unfolding toggle_spell calculate_cooldown
toggle_spell-Toggles now haste spell = elim (Bool-cases spell.is_ready) [
  | inl e1 ↦
      let cooldown = spell.base_cooldown * 100 / (100 + haste) in
      let same : toggle_spell now haste spell ≡ record spell {
        is_ready = false;
        remaining_cooldown = cooldown;
        cooldown_end_time = now + cooldown * 1000000000;
      } =
        ground arith in
      rw same (used spell e1)
  | inr e2 ↦
      let same : toggle_spell now haste spell
          ≡ record spell { is_ready = true; remaining_cooldown = 0; cooldown_end_time = 0 } =
        ground arith in
      rw same (cancelled spell e2)
]

-- A refresh at a time: an idle spell shows no cooldown, one of which less than a second is left becomes
-- ready, and another one shows the whole seconds that are left.
pub data Refreshes (now : Time) : SummonerSpell → SummonerSpell → Type 0 where
  idle :
      (spell : SummonerSpell)
      → spell.is_ready || nat_eq spell.cooldown_end_time 0 ≡ true
      → Refreshes now spell (record spell { remaining_cooldown = 0 })
  over :
      (spell : SummonerSpell)
      → spell.is_ready || nat_eq spell.cooldown_end_time 0 ≡ false
      → spell.cooldown_end_time < now + 1000000000
      → Refreshes now spell
          (record spell { is_ready = true; remaining_cooldown = 0; cooldown_end_time = 0 })
  running :
      (spell : SummonerSpell) (seconds : ℕ)
      → spell.is_ready || nat_eq spell.cooldown_end_time 0 ≡ false
      → 0 < seconds
      → now + seconds * 1000000000 ≤ spell.cooldown_end_time
      → spell.cooldown_end_time < now + (seconds + 1) * 1000000000
      → Refreshes now spell (record spell { remaining_cooldown = seconds })

refresh_spell-Refreshes :
    (now : Time) (spell : SummonerSpell) → Refreshes now spell (refresh_spell now spell).0
unfolding refresh_spell
refresh_spell-Refreshes now spell =
    let remaining = (spell.cooldown_end_time - now) / second in
    elim (Bool-cases (spell.is_ready || is_zero spell.cooldown_end_time)) [
      | inl e1 ↦
          let same : (refresh_spell now spell).0 ≡ record spell { remaining_cooldown = 0 } =
            ground arith in
          rw same (idle spell e1)
      | inr e2 ↦ elim (Bool-cases (nat_eq remaining 0)) [
        | inl z ↦
            let same : (refresh_spell now spell).0
                ≡ record spell { is_ready = true; remaining_cooldown = 0; cooldown_end_time = 0 } =
              ground arith in
            rw same (over spell e2 (ground arith))
        | inr p ↦
            let same : (refresh_spell now spell).0
                ≡ record spell { remaining_cooldown = remaining } =
              ground arith in
            rw same (running spell remaining e2 (ground arith) (ground arith) (ground arith))
      ]
    ]

refresh_spells-Pointwise :
    (now : Time) (spells : List SummonerSpell)
    → Pointwise (Refreshes now) spells (refresh_spells now spells).0
unfolding refresh_spells
refresh_spells-Pointwise now [] = ends
refresh_spells-Pointwise now (spell ∷ rest) =
    goes_on spell (refresh_spell now spell).0 rest (refresh_spells now rest).0
      (refresh_spell-Refreshes now spell) (refresh_spells-Pointwise now rest)

abbrev pub RefreshesPlayer : Time → Player → Player → Type 0
RefreshesPlayer now player after =
    (spells : List SummonerSpell) × Pointwise (Refreshes now) player.spells spells
    × (after ≡ record player { spells = spells })

pub refresh_players-Pointwise :
    (now : Time) (players : List Player)
    → Pointwise (RefreshesPlayer now) players (refresh_players now players).0
unfolding refresh_players
refresh_players-Pointwise now [] = ends
refresh_players-Pointwise now (player ∷ rest) =
    let spells = (refresh_spells now player.spells).0 in
    goes_on player (record player { spells = spells }) rest (refresh_players now rest).0
      (spells, refresh_spells-Pointwise now player.spells, refl)
      (refresh_players-Pointwise now rest)

-- Carrying the state of the first spell of the same name over.
pub data Carries (old_spells : List SummonerSpell) : SummonerSpell → SummonerSpell → Type 0 where
  new_spell :
      (spell : SummonerSpell)
      → find (λ (s : SummonerSpell). s.name == spell.name) old_spells ≡ none
      → Carries old_spells spell spell
  known_spell :
      (spell old_spell : SummonerSpell)
      → find (λ (s : SummonerSpell). s.name == spell.name) old_spells ≡ some old_spell
      → Carries old_spells spell
          (record old_spell { name = spell.name; base_cooldown = spell.base_cooldown })

copy_spell-Carries :
    (old_player : Player) (spell : SummonerSpell)
    → Carries old_player.spells spell (copy_spell old_player spell)
unfolding copy_spell find_spell
copy_spell-Carries old_player spell =
    elim (Option-cases (find (λ (s : SummonerSpell). s.name == spell.name) old_player.spells)) [
      | inl e1 ↦
          let same : copy_spell old_player spell ≡ spell = rw (e1, copy_spell) refl in
          rw same (new_spell spell e1)
      | inr (old_spell, e2) ↦
          let same : copy_spell old_player spell
              ≡ record old_spell { name = spell.name; base_cooldown = spell.base_cooldown } =
            rw (e2, copy_spell) refl in
          rw same (known_spell spell old_spell e2)
    ]

pub copy_spell_state-Carries :
    (old_player new_player : Player)
    → Pointwise
        (Carries old_player.spells)
        new_player.spells
        (copy_spell_state old_player new_player).spells
unfolding copy_spell_state
copy_spell_state-Carries old_player new_player =
    map-Pointwise (Carries old_player.spells) (copy_spell old_player)
      (copy_spell-Carries old_player) new_player.spells
