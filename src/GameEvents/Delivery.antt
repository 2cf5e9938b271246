-- ===== src/GameEvents/Delivery.antt =====
-- One call of the transaction of internal/repositories/postgres/gameevent/repository.go.
use lol_overlay.GameEvents.{
  set_ended, set_started, Session, has_game_id, is_game, GameEvent, Transaction, Database,
  process_game_started, process_game_ended, process, after_claim, after_apply, commit, claim_event,
  is_claimed, new_claim, apply_started, apply_ended, write_session, validate_game_event,
}
use lol_overlay.Prelude.{
  String, ◌≡◌, refl, sym, ap, ◌∙◌, ◌⊎◌, inl, inr, Bool, true, false, ◌∷◌, arith, eq_refl,
  Bool-cases, Option-cases, Error, Result, failure, ok, err,
}

abbrev Apply : Type 0
Apply = Database → Result (Unit {0}) × Database

-- A statement on the sessions leaves the claims alone.
abbrev KeepsClaims : Apply → Type 0
KeepsClaims apply = (db : Database) → (apply db).1.processed ≡ db.processed

write_session-KeepsClaims :
    (tx : Transaction) (text : String) (p : Session → Bool) (f : Session → Session)
    (missing : Error)
    → KeepsClaims (write_session tx text p f missing)
unfolding write_session
write_session-KeepsClaims tx text p f missing db = ground arith

apply_started-KeepsClaims :
    (tx : Transaction) (event : GameEvent) → KeepsClaims (apply_started tx event)
unfolding apply_started
apply_started-KeepsClaims tx event db = ground (
  arith,
  write_session-KeepsClaims tx "upsert started game" (has_game_id event.game_id)
      (set_started tx.now event) tx.constraint_error db,
)

apply_ended-KeepsClaims :
    (tx : Transaction) (event : GameEvent) → KeepsClaims (apply_ended tx event)
unfolding apply_ended
apply_ended-KeepsClaims tx event db = ground (
  arith,
  write_session-KeepsClaims tx "end game" (is_game event.game_id event.room_id)
      (set_ended tx.now event) (failure "started game not found") db,
)

abbrev pub has_claim : GameEvent → Database → Bool
has_claim event db = is_claimed event.consumer_name event.event_id db.processed

-- What a call of `process` says of the database before and after it.
abbrev pub Outcome : Apply → Transaction → GameEvent → Database → Result Bool × Database → Type 0
Outcome apply tx event before (ok true, after) =
    (has_claim event before ≡ false)
    × (has_claim event after ≡ true)
    × ((ok tt, after)
        ≡ apply (record before { processed = new_claim tx.now event ∷ before.processed }))
Outcome apply tx event before (ok false, after) = (has_claim event before ≡ true) × (after ≡ before)
Outcome apply tx event before (err e, after) =
    (after ≡ before)
    ⊎ ((tx.commit_kept ≡ true)
        × (has_claim event before ≡ false)
        × (has_claim event after ≡ true)
        × ((ok tt, after)
            ≡ apply (record before { processed = new_claim tx.now event ∷ before.processed })))

module _ (apply : Apply) (keeps : KeepsClaims apply) (tx : Transaction) (event : GameEvent) where
  commit-Outcome :
      (before after : Database)
      → has_claim event before ≡ false
      → apply (record before { processed = new_claim tx.now event ∷ before.processed })
        ≡ (ok tt, after)
      → Outcome apply tx event before (commit tx before after)
  unfolding commit is_claimed
  commit-Outcome before after fresh e =
      let start : Database = record before {
        processed = new_claim tx.now event ∷ before.processed;
      } in
      let same : after.processed ≡ new_claim tx.now event ∷ before.processed =
        ap (λ (r : Result (Unit {0}) × Database). r.1.processed) (sym e) ∙ keeps start in
      let claimed : has_claim event after ≡ true =
        rw same (ground (arith, eq_refl event.consumer_name, eq_refl event.event_id)) in
      elim (Option-cases tx.commit_fault) [
        | inl n ↦ rw n (fresh, claimed, sym e)
        | inr (x, f) ↦ elim (Bool-cases tx.commit_kept) [
          | inl k ↦ rw (f, k) (inr (refl, fresh, claimed, sym e))
          | inr k ↦ rw (f, k) (inl refl)
        ]
      ]

  after_apply-Outcome :
      (before : Database) (r : Result (Unit {0}) × Database)
      → has_claim event before ≡ false
      → apply (record before { processed = new_claim tx.now event ∷ before.processed }) ≡ r
      → Outcome apply tx event before (after_apply tx before r)
  unfolding after_apply
  after_apply-Outcome before (err e, db) fresh h = inl refl
  after_apply-Outcome before (ok u, db) fresh h = commit-Outcome before db fresh h

  process-Outcome :
      (before : Database) → Outcome apply tx event before (process tx event apply before)
  unfolding process after_claim claim_event
  process-Outcome before = elim (Option-cases (validate_game_event event)) [
    | inr (e, v) ↦ rw (v, process) (inl refl)
    | inl valid ↦ elim (Option-cases tx.begin_fault) [
      | inr (e, b) ↦ rw (valid, b, process) (inl refl)
      | inl b ↦ elim (Option-cases tx.claim_fault) [
        | inr (e, c) ↦ rw (valid, b, c, process) (inl refl)
        | inl c ↦ elim (Bool-cases (has_claim event before)) [
          | inl claimed ↦ rw (valid, b, c, claimed, process) (claimed, refl)
          | inr fresh ↦
              rw (valid, b, c, fresh, process)
                (after_apply-Outcome before
                  (apply (record before { processed = new_claim tx.now event ∷ before.processed }))
                  fresh refl)
        ]
      ]
    ]
  ]

-- Processing a started or an ended event: true means that the consumer had no claim of the event, has it
-- now, and that the statement on the sessions succeeded; false means that the claim was there and that
-- nothing changes; after an error nothing has changed, or a commit that reported the error took effect as
-- a whole.
pub process_game-Outcome :
    (tx : Transaction) (event : GameEvent) (db : Database)
    → Outcome (apply_started tx event) tx event db (process_game_started tx event db)
      × Outcome (apply_ended tx event) tx event db (process_game_ended tx event db)
unfolding process_game_started process_game_ended
process_game-Outcome tx event db = (
  process-Outcome (apply_started tx event) (apply_started-KeepsClaims tx event) tx event db,
  process-Outcome (apply_ended tx event) (apply_ended-KeepsClaims tx event) tx event db,
)
