-- ===== src/RoomService/Effects.antt =====
-- Loops of internal/services/room_service.go over the rooms of the store: what one round does to the room
-- that it is about, the whole loop does to every room of the list.
use lol_overlay.Prelude.{
  sym, String, ◌≡◌, refl, ◌∙◌, inl, inr, false, Option, none, some, List, [], ◌∷◌, arith, ◌==◌,
  eq_iff, Bool-cases, All, find,
}
use mathlib.Core.Path.{subst}
use lol_overlay.Models.{Room}
use lol_overlay.Repository.{View, has_room_id}

module _ {W : Type 0} (view : View W) where
  -- Every room of the list is stored.
  abbrev pub Listed : List Room → W → Type 0
  Listed rooms w = All (λ room. view w room.id ≡ some room) rooms

  -- `E room found` says what is found, after the loop, under the id of a room of the list.
  pub record Effects (E : Room → Option Room → Type 0) (rooms : List Room) (before after : W)
      : Type 0 where
    pub listed :
        (id : String) (room : Room)
        → find (has_room_id id) rooms ≡ some room
        → E room (view after id)
    pub others : (id : String) → find (has_room_id id) rooms ≡ none → view after id ≡ view before id

  pub Listed-same :
      (rooms : List Room) (w w' : W)
      → ((id : String) → view w' id ≡ view w id)
      → Listed rooms w
      → Listed rooms w'
  Listed-same [] w w' same l = tt
  Listed-same (room ∷ rest) w w' same l = (same room.id ∙ l.0, Listed-same rest w w' same l.1)

  pub Listed-other :
      (id : String) (rooms : List Room) (w w' : W)
      → find (has_room_id id) rooms ≡ none
      → ((other : String) → (id == other) ≡ false → view w' other ≡ view w other)
      → Listed rooms w
      → Listed rooms w'
  Listed-other id [] w w' h same l = tt
  Listed-other id (room ∷ rest) w w' h same l = (
    same room.id (ground (arith, eq_iff room.id id, eq_iff id room.id)) ∙ l.0,
    Listed-other id rest w w' (ground arith) same l.1,
  )

  module _ (E : Room → Option Room → Type 0) where
    pub Effects-nil : (w : W) → Effects E [] w w
    Effects-nil w = record { listed = λ id room e. cc; others = λ id e. refl }

    -- One round, from `before` to `middle`, and the rest of the loop.
    pub Effects-cons :
        (room : Room) (rest : List Room) (before middle after : W)
        → find (has_room_id room.id) rest ≡ none
        → E room (view middle room.id)
        → ((other : String) → (room.id == other) ≡ false → view middle other ≡ view before other)
        → Effects E rest middle after
        → Effects E (room ∷ rest) before after
    Effects-cons room rest before middle after fresh done same effects = record {
      listed = λ id x e. elim (Bool-cases (has_room_id id room)) [
        | inl here ↦
            let is_id : room.id ≡ id = (eq_iff room.id id).0 here in
            let is_room : room ≡ x = ground (arith, e) in
            let done_x : E x (view middle room.id) =
              subst (λ y. E y (view middle room.id)) is_room done in
            subst (λ i. E x (view after i)) is_id
              (subst (E x) (sym (effects.others room.id fresh)) done_x)
        | inr other ↦ effects.listed id x (ground (arith, e))
      ];
      others = λ id e. effects.others id (ground (arith, e)) ∙ same id (ground (arith, e));
    }
