-- ===== src/Repository/Cached/Coherence.antt =====
-- When a read through the cache of internal/repositories/cached_room_repository.go is the room that the
-- store holds, and what a write leaves in the cache.
use lol_overlay.Prelude.{
  false, String, ◌≡◌, refl, sym, ◌∙◌, ◌⊎◌, inl, inr, Option, none, some, arith, ◌==◌, eq_refl,
  if◌then◌else◌, Error, Result, ok, err,
}
use lol_overlay.Models.{Room}
use lol_overlay.Repository.{RoomRepository, RoomRepositoryLaws, View}
use lol_overlay.Repository.Cached.{
  RoomCache, put, drop_cached, after_read, read_store, after_cache, cached_get, after_save,
  cached_save, after_delete, cached_delete,
}

-- What a cache entry may become: it may be evicted at any call.
abbrev pub Becomes : Option Room → Option Room → Type 0
Becomes after value = (after ≡ none) ⊎ (after ≡ value)

-- The cache returns what it holds, a write that succeeds leaves no other room under the id, no call of
-- the cache changes the store, and no call of the store changes the cache.
pub record RoomCacheLaws {W : Type 0} (repo : RoomRepository W) (cache : RoomCache W)
    (view held : View W) : Type 0 where
  pub get_held :
      (id : String) (w : W) (room : Room)
      → (cache.get id w).0 ≡ ok (some room)
      → held w id ≡ some room
  pub get_keeps :
      (id : String) (w : W) (other : String)
      → Becomes (held (cache.get id w).1 other) (held w other)
  pub get_view :
      (id : String) (w : W) (other : String) → view (cache.get id w).1 other ≡ view w other
  pub set_held :
      (room : Room) (w : W) (other : String)
      → (cache.set room w).0 ≡ ok tt
      → Becomes
          (held (cache.set room w).1 other)
          (if room.id == other then some room else held w other)
  -- a write that fails is about its room alone
  pub set_others :
      (room : Room) (w : W) (other : String)
      → (room.id == other) ≡ false
      → Becomes (held (cache.set room w).1 other) (held w other)
  pub delete_others :
      (id : String) (w : W) (other : String)
      → (id == other) ≡ false
      → Becomes (held (cache.delete id w).1 other) (held w other)
  pub set_view :
      (room : Room) (w : W) (other : String) → view (cache.set room w).1 other ≡ view w other
  pub delete_held :
      (id : String) (w : W) (other : String)
      → (cache.delete id w).0 ≡ ok tt
      → Becomes (held (cache.delete id w).1 other) (if id == other then none else held w other)
  pub delete_view :
      (id : String) (w : W) (other : String) → view (cache.delete id w).1 other ≡ view w other
  pub store_get :
      (id : String) (w : W) (other : String) → held (repo.get id w).1 other ≡ held w other
  pub store_save :
      (room : Room) (w : W) (other : String) → held (repo.save room w).1 other ≡ held w other
  pub store_delete :
      (id : String) (w : W) (other : String) → held (repo.delete id w).1 other ≡ held w other

-- Every room that the cache holds is the one that the store holds.
abbrev pub Coherent : {W : Type 0} → View W → View W → W → Type 0
Coherent view held w = (id : String) → Becomes (held w id) (view w id)

module _ {W : Type 0} (repo : RoomRepository W) (cache : RoomCache W) (view held : View W)
    (repo_laws : RoomRepositoryLaws repo view) (laws : RoomCacheLaws repo cache view held) where
  found_held :
      (w : W) (id : String) (room : Room)
      → Coherent view held w
      → held w id ≡ some room
      → view w id ≡ some room
  found_held w id room c h = elim (c id) [ inl gone ↦ cc | inr same ↦ sym same ∙ h ]

  -- What a read that succeeds says.
  abbrev pub IsRead : String → W → Result (Option Room) → Type 0
  IsRead id w (err e) = Unit
  IsRead id w (ok found) = found ≡ view w id

  after_read-IsRead :
      (id : String) (before : W) (r : Result (Option Room)) (w : W)
      → IsRead id before r
      → IsRead id before (after_read repo (some cache) r w).0
  unfolding after_read
  after_read-IsRead id before (err e) w h = tt
  after_read-IsRead id before (ok none) w h = h
  after_read-IsRead id before (ok (some room)) w h = h

  stored-IsRead :
      (id : String) (w : W) (r : Result (Option Room)) → (repo.get id w).0 ≡ r → IsRead id w r
  stored-IsRead id w (err e) h = tt
  stored-IsRead id w (ok found) h = repo_laws.get_ok id w found h

  IsRead-same :
      (id : String) (before w : W) (r : Result (Option Room))
      → view w id ≡ view before id
      → IsRead id w r
      → IsRead id before r
  IsRead-same id before w (err e) same h = tt
  IsRead-same id before w (ok found) same h = h ∙ same

  read_store-IsRead :
      (id : String) (before w : W)
      → view w id ≡ view before id
      → IsRead id before (read_store repo (some cache) id w).0
  unfolding read_store
  read_store-IsRead id before w same =
      after_read-IsRead id before (repo.get id w).0 (repo.get id w).1
        (IsRead-same id before w (repo.get id w).0 same (stored-IsRead id w (repo.get id w).0 refl))

  after_cache-IsRead :
      (id : String) (before w : W) (r : Result (Option Room))
      → (cache.get id before).0 ≡ r
      → view w id ≡ view before id
      → Coherent view held before
      → IsRead id before (after_cache repo (some cache) id r w).0
  unfolding after_cache
  after_cache-IsRead id before w (ok (some room)) g same c =
      sym (found_held before id room c (laws.get_held id before room g))
  after_cache-IsRead id before w (ok none) g same c = read_store-IsRead id before w same
  after_cache-IsRead id before w (err e) g same c = read_store-IsRead id before w same

  -- While every room that the cache holds is the one that the store holds, a read through the cache that
  -- succeeds is what the store holds, whether the cache answers, misses or fails.
  pub cached_get-IsRead :
      (id : String) (w : W)
      → Coherent view held w
      → IsRead id w (cached_get repo (some cache) id w).0
  unfolding cached_get
  cached_get-IsRead id w c =
      after_cache-IsRead id w (cache.get id w).1 (cache.get id w).0 refl (laws.get_view id w id) c

-- What a store says of its writes: one that fails has left every room or has taken effect, as a commit
-- whose answer is lost.
pub record WriteLaws {W : Type 0} (repo : RoomRepository W) (view : View W) : Type 0 where
  pub save_ok :
      (room : Room) (w : W) (other : String)
      → (repo.save room w).0 ≡ ok tt
      → view (repo.save room w).1 other ≡ (if room.id == other then some room else view w other)
  pub save_err :
      (room : Room) (w : W) (e : Error)
      → (repo.save room w).0 ≡ err e
      → ((other : String) → view (repo.save room w).1 other ≡ view w other)
        ⊎ ((other : String)
            → view (repo.save room w).1 other
              ≡ (if room.id == other then some room else view w other))
  pub delete_ok :
      (id : String) (w : W) (other : String)
      → (repo.delete id w).0 ≡ ok tt
      → view (repo.delete id w).1 other ≡ (if id == other then none else view w other)
  pub delete_err :
      (id : String) (w : W) (e : Error)
      → (repo.delete id w).0 ≡ err e
      → ((other : String) → view (repo.delete id w).1 other ≡ view w other)
        ⊎ ((other : String)
            → view (repo.delete id w).1 other ≡ (if id == other then none else view w other))

module _ {W : Type 0} (repo : RoomRepository W) (cache : RoomCache W) (view held : View W)
    (writes : WriteLaws repo view) (laws : RoomCacheLaws repo cache view held) where
  -- Every room that the cache holds is the one that the store holds, but for the one of the id, which the
  -- store holds as it was written.
  abbrev pub CoherentBut : String → Option Room → W → Type 0
  CoherentBut id written w =
      (view w id ≡ written)
      × ((other : String)
          → Becomes (held w other) (if id == other then held w other else view w other))

  -- What a write leaves, by the answers of the store and of the cache.
  abbrev pub IsKept : String → Option Room → W → Result (Unit {0}) → Result (Unit {0}) → Type 0
  IsKept id written after (ok _) (ok _) = Coherent view held after
  IsKept id written after (ok _) (err e) = CoherentBut id written after
  IsKept id written after (err e) _ = Coherent view held after ⊎ CoherentBut id written after

  saved-IsKept :
      (room : Room) (w : W) (stored cached : Result (Unit {0}))
      → Coherent view held w
      → (repo.save room w).0 ≡ stored
      → (cache.set room (repo.save room w).1).0 ≡ cached
      → IsKept room.id (some room) (cached_save repo (some cache) room w).1 stored cached
  unfolding cached_save after_save put
  saved-IsKept room w (ok u) (ok v) c saved set =
      rw (saved, after_save)
        (λ other. ground (
          arith,
          c other,
          laws.set_held room (repo.save room w).1 other set,
          laws.set_view room (repo.save room w).1 other,
          laws.store_save room w other,
          writes.save_ok room w other saved,
        ))
  saved-IsKept room w (ok u) (err e) c saved set =
      rw (saved, after_save)
        (
          ground (
            arith,
            laws.set_view room (repo.save room w).1 room.id,
            writes.save_ok room w room.id saved,
            eq_refl room.id,
          ),
          λ other. ground (
            arith,
            c other,
            laws.set_others room (repo.save room w).1 other,
            laws.set_view room (repo.save room w).1 other,
            laws.store_save room w other,
            writes.save_ok room w other saved,
          ),
        )
  saved-IsKept room w (err e) cached c failed set = elim (writes.save_err room w e failed) [
    | inl same ↦
        rw (failed, after_save)
          (inl (λ other. ground (arith, c other, laws.store_save room w other, same other)))
    | inr done ↦
        rw (failed, after_save)
          (inr (
            ground (arith, done room.id, eq_refl room.id),
            λ other. ground (arith, c other, laws.store_save room w other, done other),
          ))
  ]

  deleted-IsKept :
      (id : String) (w : W) (stored cached : Result (Unit {0}))
      → Coherent view held w
      → (repo.delete id w).0 ≡ stored
      → (cache.delete id (repo.delete id w).1).0 ≡ cached
      → IsKept id none (cached_delete repo (some cache) id w).1 stored cached
  unfolding cached_delete after_delete drop_cached
  deleted-IsKept id w (ok u) (ok v) c deleted dropped =
      rw (deleted, after_delete)
        (λ other. ground (
          arith,
          c other,
          laws.delete_held id (repo.delete id w).1 other dropped,
          laws.delete_view id (repo.delete id w).1 other,
          laws.store_delete id w other,
          writes.delete_ok id w other deleted,
        ))
  deleted-IsKept id w (ok u) (err e) c deleted dropped =
      rw (deleted, after_delete)
        (
          ground (
            arith,
            laws.delete_view id (repo.delete id w).1 id,
            writes.delete_ok id w id deleted,
            eq_refl id,
          ),
          λ other. ground (
            arith,
            c other,
            laws.delete_others id (repo.delete id w).1 other,
            laws.delete_view id (repo.delete id w).1 other,
            laws.store_delete id w other,
            writes.delete_ok id w other deleted,
          ),
        )
  deleted-IsKept id w (err e) cached c failed dropped = elim (writes.delete_err id w e failed) [
    | inl same ↦
        rw (failed, after_delete)
          (inl (λ other. ground (arith, c other, laws.store_delete id w other, same other)))
    | inr done ↦
        rw (failed, after_delete)
          (inr (
            ground (arith, done id, eq_refl id),
            λ other. ground (arith, c other, laws.store_delete id w other, done other),
          ))
  ]

  -- A save and a delete on a cache that agrees with the store keep them in agreement where the store and
  -- the cache both succeed. Where the cache fails, the room was written to the store and the cache agrees
  -- on every other id. Where the store fails, they agree, or the store took the write all the same and the
  -- cache agrees on every other id.
  pub cached_save_delete-Coherent :
      (room : Room) (id : String) (w : W)
      → Coherent view held w
      → IsKept room.id
          (some room)
          (cached_save repo (some cache) room w).1
          (repo.save room w).0
          (cache.set room (repo.save room w).1).0
        × IsKept id none
            (cached_delete repo (some cache) id w).1
            (repo.delete id w).0
            (cache.delete id (repo.delete id w).1).0
  cached_save_delete-Coherent room id w c = (
    saved-IsKept room w (repo.save room w).0 (cache.set room (repo.save room w).1).0 c refl refl,
    deleted-IsKept id w (repo.delete id w).0 (cache.delete id (repo.delete id w).1).0 c refl refl,
  )
