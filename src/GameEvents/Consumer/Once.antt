-- ===== src/GameEvents/Consumer/Once.antt =====
-- Messages that are delivered more than once: `Handle` of internal/consumers/game_consumer.go.
use lol_overlay.Prelude.{
  String, ◌≡◌, refl, sym, ◌∙◌, ◌⊎◌, inl, inr, Bool, true, false, List, [], ◌∷◌, ◌==◌, Bool-cases,
  Option-cases, Result, ok, err,
}
use mathlib.Core.List.{Memᴰ}
use mathlib.Core.Bool.{false≢true}
use lol_overlay.Messaging.{Bytes, subject_game_started, subject_game_ended, consumer_game_events}
use lol_overlay.GameEvents.{
  GameEvent, Transaction, Database, process_game_started, process_game_ended, is_claimed,
  apply_started, apply_ended,
}
use lol_overlay.GameEvents.Delivery.{Outcome, has_claim, process_game-Outcome}
use lol_overlay.GameEvents.Consumer.{
  GameMessage, handle, handle_message, after_process, to_repository_game_event,
  validate_consumed_game_event,
}

abbrev Process : Type 0
Process = GameEvent → Database → Result Bool × Database

-- A claimed event is not applied, and an event that is applied is claimed.
pub record IsOnce (process : Process) : Type 0 where
  pub ignores :
      (event : GameEvent) (db : Database) → has_claim event db ≡ true → (process event db).1 ≡ db
  pub claims :
      (event : GameEvent) (db : Database)
      → ((process event db).1 ≡ db) ⊎ (has_claim event (process event db).1 ≡ true)

Outcome-ignores :
    (apply : Database → Result (Unit {0}) × Database) (tx : Transaction) (event : GameEvent)
    (before : Database) (r : Result Bool) (after : Database)
    → Outcome apply tx event before (r, after)
    → has_claim event before ≡ true
    → after ≡ before
Outcome-ignores apply tx event before (ok true) after o h = absurd (false≢true (sym o.0 ∙ h))
Outcome-ignores apply tx event before (ok false) after o h = o.1
Outcome-ignores apply tx event before (err e) after (inl same) h = same
Outcome-ignores apply tx event before (err e) after (inr o) h = absurd (false≢true (sym o.1 ∙ h))

Outcome-claims :
    (apply : Database → Result (Unit {0}) × Database) (tx : Transaction) (event : GameEvent)
    (before : Database) (r : Result Bool) (after : Database)
    → Outcome apply tx event before (r, after)
    → (after ≡ before) ⊎ (has_claim event after ≡ true)
Outcome-claims apply tx event before (ok true) after o = inr o.1
Outcome-claims apply tx event before (ok false) after o = inl o.1
Outcome-claims apply tx event before (err e) after (inl same) = inl same
Outcome-claims apply tx event before (err e) after (inr o) = inr o.2

pub started-IsOnce : (tx : Transaction) → IsOnce (process_game_started tx)
started-IsOnce tx = record {
  ignores = λ event db h.
      let r = process_game_started tx event db in
      Outcome-ignores (apply_started tx event) tx event db r.0 r.1
        (process_game-Outcome tx event db).0 h;
  claims = λ event db.
      let r = process_game_started tx event db in
      Outcome-claims (apply_started tx event) tx event db r.0 r.1
        (process_game-Outcome tx event db).0;
}

pub ended-IsOnce : (tx : Transaction) → IsOnce (process_game_ended tx)
ended-IsOnce tx = record {
  ignores = λ event db h.
      let r = process_game_ended tx event db in
      Outcome-ignores (apply_ended tx event) tx event db r.0 r.1
        (process_game-Outcome tx event db).1 h;
  claims = λ event db.
      let r = process_game_ended tx event db in
      Outcome-claims (apply_ended tx event) tx event db r.0 r.1
        (process_game-Outcome tx event db).1;
}

after_process-same : (text : String) (r : Result Bool × Database) → (after_process text r).1 ≡ r.1
unfolding after_process
after_process-same text (ok a, db) = refl
after_process-same text (err e, db) = refl

abbrev message_claimed : GameMessage → Database → Bool
message_claimed message db = is_claimed consumer_game_events message.event_id db.processed

module _ (decode_text validate_text process_text subject : String) (process : Process)
    (once : IsOnce process) where
  handle_message-ignores :
      (message : GameMessage) (db : Database)
      → message_claimed message db ≡ true
      → (handle_message decode_text validate_text process_text subject process (ok message) db).1
        ≡ db
  unfolding handle_message
  handle_message-ignores message db h = elim (Option-cases (validate_consumed_game_event message)) [
    | inr (e, v) ↦ rw (v, handle_message)
    | inl v ↦
        rw (v, handle_message)
          (after_process-same process_text (process (to_repository_game_event subject message) db)
            ∙ once.ignores (to_repository_game_event subject message) db h)
  ]

  handle_message-claims :
      (decoded : Result GameMessage) (db : Database)
      → let after =
          (handle_message decode_text validate_text process_text subject process decoded db).1 in
        (after ≡ db)
        ⊎ ((message : GameMessage) × (decoded ≡ ok message)
            × (message_claimed message after ≡ true))
  unfolding handle_message
  handle_message-claims (err e) db = inl refl
  handle_message-claims (ok message) db =
      elim (Option-cases (validate_consumed_game_event message)) [
        | inr (e, v) ↦ rw (v, handle_message) (inl refl)
        | inl v ↦
            rw (v, handle_message, after_process-same)
              (elim (once.claims (to_repository_game_event subject message) db) [
                | inl same ↦ inl same
                | inr claimed ↦ inr (message, refl, claimed)
              ])
      ]

module _ (unmarshal : Bytes → Result GameMessage) (subject : String) (body : Bytes) where
  handle-ignores :
      (tx : Transaction) (message : GameMessage) (db : Database)
      → unmarshal body ≡ ok message
      → message_claimed message db ≡ true
      → (handle unmarshal tx subject body db).1 ≡ db
  unfolding handle
  handle-ignores tx message db u h = elim (Bool-cases (subject == subject_game_started)) [
    | inl s ↦
        rw (s, u)
          (handle_message-ignores "decode game started event" "validate game started event"
            "process game started event" subject_game_started (process_game_started tx)
            (started-IsOnce tx) message db h)
    | inr n ↦ elim (Bool-cases (subject == subject_game_ended)) [
      | inl s ↦
          rw (n, s, u)
            (handle_message-ignores "decode game ended event" "validate game ended event"
              "process game ended event" subject_game_ended (process_game_ended tx)
              (ended-IsOnce tx) message db h)
      | inr n' ↦ rw (n, n')
    ]
  ]

  handle-claims :
      (tx : Transaction) (db : Database)
      → let after = (handle unmarshal tx subject body db).1 in
        (after ≡ db)
        ⊎ ((message : GameMessage) × (unmarshal body ≡ ok message)
            × (message_claimed message after ≡ true))
  unfolding handle
  handle-claims tx db = elim (Bool-cases (subject == subject_game_started)) [
    | inl s ↦ rw s (
        handle_message-claims "decode game started event" "validate game started event"
          "process game started event" subject_game_started (process_game_started tx)
          (started-IsOnce tx) (unmarshal body) db)
    | inr n ↦ elim (Bool-cases (subject == subject_game_ended)) [
      | inl s ↦
          rw (n, s)
            (handle_message-claims "decode game ended event" "validate game ended event"
              "process game ended event" subject_game_ended (process_game_ended tx)
              (ended-IsOnce tx) (unmarshal body) db)
      | inr n' ↦ rw (n, n') (inl refl)
    ]
  ]

  -- The message is delivered once for each of the transactions.
  unfoldable pub deliver_all : List Transaction → Database → Database
  deliver_all [] db = db
  deliver_all (tx ∷ rest) db = deliver_all rest (handle unmarshal tx subject body db).1

  deliver_all-ignores :
      (txs : List Transaction) (message : GameMessage) (db : Database)
      → unmarshal body ≡ ok message
      → message_claimed message db ≡ true
      → deliver_all txs db ≡ db
  unfolding deliver_all
  deliver_all-ignores [] message db u h = refl
  deliver_all-ignores (tx ∷ rest) message db u h =
      rw (handle-ignores tx message db u h) (deliver_all-ignores rest message db u h)

  -- However often a message is delivered, with whatever faults of the database, a commit that took effect
  -- and reported an error included, the deliveries together change nothing or what one of them alone
  -- changes.
  pub deliver_all_once :
      (txs : List Transaction) (db : Database)
      → (deliver_all txs db ≡ db)
        ⊎ ((tx : Transaction) × Memᴰ tx txs
            × (deliver_all txs db ≡ (handle unmarshal tx subject body db).1))
  unfolding deliver_all
  deliver_all_once [] db = inl refl
  deliver_all_once (tx ∷ rest) db = elim (handle-claims tx db) [
    | inl same ↦ rw same (elim (deliver_all_once rest db) [
      | inl none_done ↦ inl none_done
      | inr (tx', m, one) ↦ inr (tx', Memᴰ.tail m, one)
    ])
    | inr (message, u, claimed) ↦ inr (
      tx,
      Memᴰ.head refl,
      deliver_all-ignores rest message (handle unmarshal tx subject body db).1 u claimed,
    )
  ]
