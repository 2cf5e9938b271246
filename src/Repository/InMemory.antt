-- ===== src/Repository/InMemory.antt =====
-- internal/repositories/in_memory_room_repository.go: the map of rooms as a list of rooms in which the
-- key is the room's id. `Clone` copies what is stored and what is returned, so no caller shares a room
-- with the map; in a model of values that is what `clone` shows. `ctx_err` is what `ctx.Err()` returns.
use lol_overlay.Prelude.{
  Result, ap, ◌∙◌, Bool-cases, eq_refl, All, false, String, ◌≡◌, refl, inl, inr, Option, none, some,
  List, [], ◌∷◌, arith, ◌==◌, eq_iff, if◌then◌else◌, Option-cases, find, Error, ok, err,
}
use lol_overlay.Repository.{DistinctIds, RoomRepository, RoomRepositoryLaws, has_room_id}
use lol_overlay.Models.{SummonerSpell, Player, Room}

pub record Rooms : Type 0 where
  pub rooms : List Room
  pub ctx_err : Option Error

copy_spells : List SummonerSpell → List SummonerSpell
copy_spells [] = []
copy_spells (spell ∷ rest) = spell ∷ copy_spells rest

copy_players : List Player → List Player
copy_players [] = []
copy_players (player ∷ rest) =
    record player { spells = copy_spells player.spells } ∷ copy_players rest

-- `Clone` of internal/models/room.go
unfoldable pub clone : Room → Room
unfolding copy_players copy_spells
clone room = record room { players = copy_players room.players }

without : String → List Room → List Room
without id [] = []
without id (room ∷ rest) =
    let kept = without id rest in if has_room_id id room then kept else room ∷ kept

-- The entries of the map: an entry further down under the same key is shadowed.
entries : List Room → List Room
unfolding without
entries [] = []
entries (room ∷ rest) = room ∷ without room.id (entries rest)

clone_all : List Room → List Room
unfolding clone
clone_all [] = []
clone_all (room ∷ rest) = clone room ∷ clone_all rest

unfoldable pub in_memory : RoomRepository Rooms
unfolding clone_all clone without entries
in_memory = record {
  get = λ id w. elim w.ctx_err [
    | some e ↦ (err e, w)
    | none ↦ elim (find (has_room_id id) w.rooms) [
      | none ↦ (ok none, w)
      | some room ↦ (ok (some (clone room)), w)
    ]
  ];
  get_all =
      λ w. elim w.ctx_err [ some e ↦ (err e, w) | none ↦ (ok (clone_all (entries w.rooms)), w) ];
  save = λ room w. elim w.ctx_err [
    | some e ↦ (err e, w)
    | none ↦ (ok tt, record w { rooms = clone room ∷ without room.id w.rooms })
  ];
  delete = λ id w. elim w.ctx_err [
    | some e ↦ (err e, w)
    | none ↦ (ok tt, record w { rooms = without id w.rooms })
  ];
}

abbrev rooms_view_of : List Room → String → Option Room
rooms_view_of rooms id = find (has_room_id id) rooms

abbrev pub rooms_view : Rooms → String → Option Room
rooms_view w id = find (has_room_id id) w.rooms

copy_spells-eq : (spells : List SummonerSpell) → copy_spells spells ≡ spells
unfolding copy_spells
copy_spells-eq [] = refl
copy_spells-eq (spell ∷ rest) = rw (copy_spells-eq rest)

copy_players-eq : (players : List Player) → copy_players players ≡ players
unfolding copy_players
copy_players-eq [] = refl
copy_players-eq (player ∷ rest) = rw (copy_spells-eq player.spells, copy_players-eq rest)

clone-eq : (room : Room) → clone room ≡ room
unfolding clone
clone-eq room = rw (copy_players-eq room.players)

clone_all-eq : (rooms : List Room) → clone_all rooms ≡ rooms
unfolding clone_all
clone_all-eq [] = refl
clone_all-eq (room ∷ rest) = cc (clone-eq room, clone_all-eq rest)

find-without :
    (id other : String) (rooms : List Room)
    → find (has_room_id other) (without id rooms)
      ≡ (if id == other then none else find (has_room_id other) rooms)
unfolding without
find-without id other [] = ground arith
find-without id other (room ∷ rest) =
    ground
      (arith, eq_iff room.id id, eq_iff room.id other, eq_iff id other, find-without id other rest)

find-entries :
    (id : String) (rooms : List Room)
    → find (has_room_id id) (entries rooms) ≡ find (has_room_id id) rooms
unfolding entries
find-entries id [] = refl
find-entries id (room ∷ rest) =
    ground (arith, eq_iff room.id id, find-without room.id id (entries rest), find-entries id rest)

-- Of the rooms of an id, only the first is found.
listed-without :
    (id : String) (v : String → Option Room) (rooms : List Room)
    → ((other : String) → (id == other) ≡ false → v other ≡ find (has_room_id other) rooms)
    → (kept : List Room) → All (λ room. find (has_room_id room.id) rooms ≡ some room) kept
    → All (λ room. v room.id ≡ some room) (without id kept)
unfolding without
listed-without id v rooms same [] h = tt
listed-without id v rooms same (room ∷ rest) h = elim (Bool-cases (has_room_id id room)) [
  | inl e ↦ rw e (listed-without id v rooms same rest h.1)
  | inr e ↦ rw e (
    same room.id (ground (arith, eq_iff room.id id, eq_iff id room.id)) ∙ h.0,
    listed-without id v rooms same rest h.1,
  )
]

listed-entries :
    (rooms : List Room) → All (λ room. rooms_view_of rooms room.id ≡ some room) (entries rooms)
unfolding entries
listed-entries [] = tt
listed-entries (room ∷ rest) = (
  rw (eq_refl room.id),
  listed-without room.id (rooms_view_of (room ∷ rest)) rest (λ other e. rw e) (entries rest)
      (listed-entries rest),
)

find-none-without :
    (id other : String) (rooms : List Room)
    → find (has_room_id other) rooms ≡ none
    → find (has_room_id other) (without id rooms) ≡ none
find-none-without id other rooms h = ground (arith, find-without id other rooms)

distinct-without :
    (id : String) (rooms : List Room) → DistinctIds rooms → DistinctIds (without id rooms)
unfolding without
distinct-without id [] h = tt
distinct-without id (room ∷ rest) h = elim (Bool-cases (has_room_id id room)) [
  | inl e ↦ rw e (distinct-without id rest h.1)
  | inr e ↦ rw e (find-none-without id room.id rest h.0, distinct-without id rest h.1)
]

distinct-entries : (rooms : List Room) → DistinctIds (entries rooms)
unfolding entries
distinct-entries [] = tt
distinct-entries (room ∷ rest) = (
  rw (find-without room.id room.id (entries rest)) (rw (eq_refl room.id)),
  distinct-without room.id (entries rest) (distinct-entries rest),
)

find_id :
    (id : String) (rooms : List Room) (room : Room)
    → find (has_room_id id) rooms ≡ some room
    → room.id ≡ id
find_id id [] room h = cc
find_id id (x ∷ rest) room h = ground (arith, eq_iff x.id id, find_id id rest room)

get_ok :
    (id : String) (w : Rooms) (found : Option Room)
    → (in_memory.get id w).0 ≡ ok found
    → found ≡ rooms_view w id
unfolding in_memory
get_ok id w found h = elim (Option-cases (find (has_room_id id) w.rooms)) [
  | inl e ↦ ground arith
  | inr (room, e) ↦ ground (arith, clone-eq room)
]

-- The in-memory store meets the contract of a room store: a call that fails changes no room, a read that
-- succeeds returns the room that stands under its id, a list that succeeds holds every room once, and a
-- save or a delete that succeeds changes the room of its id alone.
pub in_memory_laws : RoomRepositoryLaws in_memory rooms_view
unfolding in_memory
in_memory_laws = record {
  view_id = λ w id room h. find_id id w.rooms room h;
  get_view = λ id w other. ground arith;
  get_ok = λ id w found h. get_ok id w found h;
  get_all_view = λ w other. ground arith;
  get_all_ok =
      λ w rooms id h. ground (arith, clone_all-eq (entries w.rooms), find-entries id w.rooms);
  get_all_listed = λ w rooms h.
      let same : rooms ≡ entries w.rooms = ground (arith, clone_all-eq (entries w.rooms)) in
      rw same (listed-entries w.rooms);
  get_all_distinct = λ w rooms h.
      let same : rooms ≡ entries w.rooms = ground (arith, clone_all-eq (entries w.rooms)) in
      rw same (distinct-entries w.rooms);
  save_ok = λ room w other h. ground (arith, clone-eq room, find-without room.id other w.rooms);
  save_err = λ room w e other h. ground arith;
  delete_ok = λ id w other h. ground (arith, find-without id other w.rooms);
  delete_err = λ id w e other h. ground arith;
}

-- What a list of all rooms returns, by the error of the context.
abbrev pub IsListed : Option Error → Result (List Room) → Type 0
IsListed (some e) r = r ≡ err e
IsListed none r = (rooms : List Room) × (r ≡ ok rooms)

-- Every call on the in-memory store fails with the error of the context where that is done, and succeeds
-- otherwise, a read with the room that stands under its id.
pub in_memory_answers :
    (id : String) (room : Room) (w : Rooms)
    → ((in_memory.get id w).0 ≡ elim w.ctx_err [ some e ↦ err e | none ↦ ok (rooms_view w id) ])
      × ((in_memory.save room w).0 ≡ elim w.ctx_err [ some e ↦ err e | none ↦ ok tt ])
      × ((in_memory.delete id w).0 ≡ elim w.ctx_err [ some e ↦ err e | none ↦ ok tt ])
      × IsListed w.ctx_err (in_memory.get_all w).0
unfolding in_memory
in_memory_answers id room w = elim (Option-cases w.ctx_err) [
  | inr (e, stop) ↦ rw stop (refl, refl, refl, refl)
  | inl go_on ↦ elim (Option-cases (find (has_room_id id) w.rooms)) [
    | inl n ↦ rw (go_on, n) (refl, refl, refl, (clone_all (entries w.rooms), refl))
    | inr (found, f) ↦
        rw (go_on, f)
          (
            ap (λ (r : Room). ok (some r)) (clone-eq found),
            refl,
            refl,
            (clone_all (entries w.rooms), refl),
          )
  ]
]
