-- ===== src/Repository/Cached.antt =====
-- internal/repositories/cached_room_repository.go over internal/cache/room_cache.go: a room store with a
-- cache in front of it. An error of the cache is logged and no more; metrics are left out, and a room
-- that is saved is not nil.
pub mod Coherence
use lol_overlay.Prelude.{
  ℕ, zero, suc, ◌+◌, ◌-◌, ◌*◌, ◌/◌, ◌%◌, ◌^◌, ◌≤◌, ◌<◌, min, String, ◌≡◌, refl, sym, ap, ◌∙◌,
  fun_ext, ◌≢◌, ◌↔◌, ◌⊎◌, inl, inr, Bool, true, false, not, ◌&&◌, ◌||◌, Option, none, some, List,
  [], ◌∷◌, ◌++◌, map, arith, ◌==◌, eq_iff, eq_refl, ltb, leb, nat_eq, if◌then◌else◌, ℤ, int_eq,
  is_positive, Bool-cases, Option-cases, pos, negsuc, All, length, length-append, take, drop, find,
  modify_first, All-append, Error, Result, map_err, Result-cases, failure, wrap, ok, err, Exec,
  pure, wrapping, continue, ◌>>=◌, ◌>>◌,
}
use lol_overlay.Models.{Room}
use lol_overlay.Repository.{RoomRepository}

pub record RoomCache (W : Type 0) : Type 0 where
  pub get : String → W → Result (Option Room) × W
  pub set : Room → W → Result (Unit {0}) × W
  pub delete : String → W → Result (Unit {0}) × W

module _ {W : Type 0} (repo : RoomRepository W) (cache : Option (RoomCache W)) where
  -- `r.cache.Set` where there is a cache.
  unfoldable pub put : Room → W → W
  put room w = elim cache [ none ↦ w | some c ↦ (c.set room w).1 ]

  unfoldable pub drop_cached : String → W → W
  drop_cached id w = elim cache [ none ↦ w | some c ↦ (c.delete id w).1 ]

  -- What follows the read of the store.
  after_read : Result (Option Room) → W → Result (Option Room) × W
  unfolding put
  after_read (err e) w = (err e, w)
  after_read (ok none) w = (ok none, w)
  after_read (ok (some room)) w = (ok (some room), put room w)

  read_store : String → W → Result (Option Room) × W
  unfolding after_read
  read_store id w = let (r, w') = repo.get id w in after_read r w'

  -- What the cache returned: an error and a miss go on to the store.
  after_cache : String → Result (Option Room) → W → Result (Option Room) × W
  unfolding read_store
  after_cache id (err e) w = read_store id w
  after_cache id (ok none) w = read_store id w
  after_cache id (ok (some room)) w = (ok (some room), w)

  unfoldable pub cached_get : String → W → Result (Option Room) × W
  unfolding after_cache read_store
  cached_get id w = elim cache [
    | none ↦ read_store id w
    | some c ↦ let (r, w') = c.get id w in after_cache id r w'
  ]

  after_save : Room → Result (Unit {0}) → W → Result (Unit {0}) × W
  unfolding put
  after_save room (err e) w = (err e, w)
  after_save room (ok u) w = (ok tt, put room w)

  unfoldable pub cached_save : Room → W → Result (Unit {0}) × W
  unfolding after_save
  cached_save room w = let (r, w') = repo.save room w in after_save room r w'

  after_delete : String → Result (Unit {0}) → W → Result (Unit {0}) × W
  unfolding drop_cached
  after_delete id (err e) w = (err e, w)
  after_delete id (ok u) w = (ok tt, drop_cached id w)

  unfoldable pub cached_delete : String → W → Result (Unit {0}) × W
  unfolding after_delete
  cached_delete id w = let (r, w') = repo.delete id w in after_delete id r w'

  unfoldable pub cached_room_repository : RoomRepository W
  cached_room_repository = record {
    get = cached_get;
    get_all = repo.get_all;
    save = cached_save;
    delete = cached_delete;
  }
