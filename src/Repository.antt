-- ===== src/Repository.antt =====
-- internal/repositories/room_repository.go: the interface of a room store over its state, and what a
-- client may rely on. `view` says which room a state holds under an id.
pub mod InMemory
pub mod Cached
pub mod Postgres
use lol_overlay.Prelude.{
  All, [], ◌∷◌, ℕ, zero, suc, ◌+◌, ◌-◌, ◌*◌, ◌/◌, ◌%◌, ◌^◌, ◌≤◌, ◌<◌, min, String, ◌≡◌, refl, sym,
  ap, ◌∙◌, fun_ext, ◌≢◌, ◌↔◌, ◌⊎◌, inl, inr, Bool, true, false, not, ◌&&◌, ◌||◌, Option, none, some,
  List, [], ◌∷◌, ◌++◌, map, arith, ◌==◌, eq_iff, eq_refl, ltb, leb, nat_eq, if◌then◌else◌, ℤ,
  int_eq, is_positive, Bool-cases, Option-cases, pos, negsuc, All, length, length-append, take,
  drop, find, modify_first, All-append, Error, Result, map_err, failure, wrap, ok, err, Exec, pure,
  wrapping, continue, ◌>>=◌, ◌>>◌,
}
use lol_overlay.Models.{Room}

pub record RoomRepository (W : Type 0) : Type 0 where
  pub get : String → W → Result (Option Room) × W
  pub get_all : W → Result (List Room) × W
  pub save : Room → W → Result (Unit {0}) × W
  pub delete : String → W → Result (Unit {0}) × W

abbrev pub has_room_id : String → Room → Bool
has_room_id id room = room.id == id

-- No id stands in two rooms of a list.
abbrev pub DistinctIds : List Room → Type 0
DistinctIds [] = Unit
DistinctIds (room ∷ rest) = (find (has_room_id room.id) rest ≡ none) × DistinctIds rest

abbrev pub View : Type 0 → Type 0
View W = W → String → Option Room

-- A call that fails changes no room; a save or a delete that succeeds changes the room of its id alone;
-- all rooms are listed once each.
pub record RoomRepositoryLaws {W : Type 0} (repo : RoomRepository W) (view : View W) : Type 0 where
  pub view_id : (w : W) (id : String) (room : Room) → view w id ≡ some room → room.id ≡ id
  pub get_view :
      (id : String) (w : W) (other : String) → view (repo.get id w).1 other ≡ view w other
  pub get_ok :
      (id : String) (w : W) (found : Option Room) → (repo.get id w).0 ≡ ok found → found ≡ view w id
  pub get_all_view : (w : W) (other : String) → view (repo.get_all w).1 other ≡ view w other
  pub get_all_ok :
      (w : W) (rooms : List Room) (id : String)
      → (repo.get_all w).0 ≡ ok rooms
      → find (has_room_id id) rooms ≡ view w id
  pub get_all_listed :
      (w : W) (rooms : List Room)
      → (repo.get_all w).0 ≡ ok rooms
      → All (λ room. view w room.id ≡ some room) rooms
  pub get_all_distinct :
      (w : W) (rooms : List Room) → (repo.get_all w).0 ≡ ok rooms → DistinctIds rooms
  pub save_ok :
      (room : Room) (w : W) (other : String)
      → (repo.save room w).0 ≡ ok tt
      → view (repo.save room w).1 other ≡ (if room.id == other then some room else view w other)
  pub save_err :
      (room : Room) (w : W) (e : Error) (other : String)
      → (repo.save room w).0 ≡ err e
      → view (repo.save room w).1 other ≡ view w other
  pub delete_ok :
      (id : String) (w : W) (other : String)
      → (repo.delete id w).0 ≡ ok tt
      → view (repo.delete id w).1 other ≡ (if id == other then none else view w other)
  pub delete_err :
      (id : String) (w : W) (e : Error) (other : String)
      → (repo.delete id w).0 ≡ err e
      → view (repo.delete id w).1 other ≡ view w other
