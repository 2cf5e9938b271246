-- ===== src/Tests/Caches.antt =====
-- The in-memory store behind a small cache (internal/repositories/cached_room_repository.go).
use lol_overlay.Prelude.{
  String, ◌≡◌, refl, inl, inr, Bool, true, false, Option, none, some, List, [], ◌∷◌, arith, ◌==◌,
  if◌then◌else◌, find, failure, ok, err,
}
use lol_overlay.Models.{Room}
use lol_overlay.Repository.{RoomRepository, RoomRepositoryLaws, has_room_id}
use lol_overlay.Repository.InMemory.{
  in_memory_answers, Rooms, in_memory, in_memory_laws, rooms_view,
}
use lol_overlay.Repository.Cached.{RoomCache, cached_get, cached_save, cached_delete}
use lol_overlay.Repository.Cached.Coherence.{
  Becomes, RoomCacheLaws, Coherent, IsRead, cached_get-IsRead, cached_save_delete-Coherent,
  WriteLaws, IsKept,
}

record Both : Type 0 where
  store : Rooms
  cached : List Room
  read_only : Bool

abbrev in_store : {A : Type 0} → (Rooms → A × Rooms) → Both → A × Both
in_store m w = let (r, s) = m w.store in (r, record w { store = s })

abbrev repo : RoomRepository Both
repo = record {
  get = λ id. in_store (in_memory.get id);
  get_all = in_store in_memory.get_all;
  save = λ room. in_store (in_memory.save room);
  delete = λ id. in_store (in_memory.delete id);
}

-- A delete empties the cache.
abbrev cache : RoomCache Both
cache = record {
  get = λ id w. (ok (find (has_room_id id) w.cached), w);
  set = λ room w.
      if w.read_only
      then (err (failure "read only"), w)
      else (ok tt, record w { cached = room ∷ w.cached });
  delete = λ id w. (ok tt, record w { cached = [] });
}

abbrev view : Both → String → Option Room
view w = rooms_view w.store

abbrev held : Both → String → Option Room
held w id = find (has_room_id id) w.cached

repo-RoomRepositoryLaws : RoomRepositoryLaws repo view
repo-RoomRepositoryLaws = record {
  view_id = λ w. in_memory_laws.view_id w.store;
  get_view = λ id w. in_memory_laws.get_view id w.store;
  get_ok = λ id w. in_memory_laws.get_ok id w.store;
  get_all_view = λ w. in_memory_laws.get_all_view w.store;
  get_all_ok = λ w. in_memory_laws.get_all_ok w.store;
  get_all_listed = λ w. in_memory_laws.get_all_listed w.store;
  get_all_distinct = λ w. in_memory_laws.get_all_distinct w.store;
  save_ok = λ room w. in_memory_laws.save_ok room w.store;
  save_err = λ room w. in_memory_laws.save_err room w.store;
  delete_ok = λ id w. in_memory_laws.delete_ok id w.store;
  delete_err = λ id w. in_memory_laws.delete_err id w.store;
}

set_held :
    (room : Room) (w : Both) (other : String)
    → (cache.set room w).0 ≡ ok tt
    → Becomes
        (held (cache.set room w).1 other)
        (if room.id == other then some room else held w other)
set_held room w other h = ground arith

set_others :
    (room : Room) (w : Both) (other : String)
    → (room.id == other) ≡ false
    → Becomes (held (cache.set room w).1 other) (held w other)
set_others room w other h = ground arith

set_view :
    (room : Room) (w : Both) (other : String) → view (cache.set room w).1 other ≡ view w other
set_view room w other = ground arith

cache-RoomCacheLaws : RoomCacheLaws repo cache view held
cache-RoomCacheLaws = record {
  get_held = λ id w room h. ground arith;
  get_keeps = λ id w other. inr refl;
  get_view = λ id w other. refl;
  set_held = λ room w other h. set_held room w other h;
  set_others = λ room w other h. set_others room w other h;
  delete_others = λ id w other h. inl refl;
  set_view = λ room w other. set_view room w other;
  delete_held = λ id w other h. inl refl;
  delete_view = λ id w other. refl;
  store_get = λ id w other. refl;
  store_save = λ room w other. refl;
  store_delete = λ id w other. refl;
}

abbrev old : Room
old = record { id = "7-100"; players = []; last_updated = 1 }

abbrev new : Room
new = record old { last_updated = 2 }

abbrev world : Both
world = record {
  store = record { rooms = old ∷ []; ctx_err = none };
  cached = old ∷ [];
  read_only = false;
}

world-Coherent : Coherent view held world
world-Coherent id = inr refl

cached_get-IsRead_example :
    IsRead repo cache view held repo-RoomRepositoryLaws cache-RoomCacheLaws "7-100" world
      (cached_get repo (some cache) "7-100" world).0
cached_get-IsRead_example =
    cached_get-IsRead repo cache view held repo-RoomRepositoryLaws cache-RoomCacheLaws "7-100" world
      world-Coherent

repo-WriteLaws : WriteLaws repo view
repo-WriteLaws = record {
  save_ok = λ room w. in_memory_laws.save_ok room w.store;
  save_err = λ room w e h. inl (λ other. in_memory_laws.save_err room w.store e other h);
  delete_ok = λ id w. in_memory_laws.delete_ok id w.store;
  delete_err = λ id w e h. inl (λ other. in_memory_laws.delete_err id w.store e other h);
}

-- A cache that takes no writes.
abbrev broken : Both
broken = record world { read_only = true }

broken-Coherent : Coherent view held broken
broken-Coherent id = inr refl

cached_save_delete-Coherent_example :
    IsKept repo cache view held repo-WriteLaws cache-RoomCacheLaws "7-100"
      (some new)
      (cached_save repo (some cache) new broken).1
      (repo.save new broken).0
      (cache.set new (repo.save new broken).1).0
    × IsKept repo cache view held repo-WriteLaws cache-RoomCacheLaws "7-100" none
        (cached_delete repo (some cache) "7-100" broken).1
        (repo.delete "7-100" broken).0
        (cache.delete "7-100" (repo.delete "7-100" broken).1).0
cached_save_delete-Coherent_example =
    cached_save_delete-Coherent repo cache view held repo-WriteLaws cache-RoomCacheLaws new "7-100"
      broken broken-Coherent

-- The store under a context that is done.
abbrev stopped : Rooms
stopped = record { rooms = old ∷ []; ctx_err = some (failure "context canceled") }

in_memory_answers_example :
    ((in_memory.get "7-100" stopped).0 ≡ err (failure "context canceled"))
    × ((in_memory.save new stopped).0 ≡ err (failure "context canceled"))
    × ((in_memory.delete "7-100" stopped).0 ≡ err (failure "context canceled"))
    × ((in_memory.get_all stopped).0 ≡ err (failure "context canceled"))
in_memory_answers_example = in_memory_answers "7-100" new stopped
