-- ===== src/GameEvents/Consumer/Settled.antt =====
-- The handler of internal/consumers/game_consumer.go behind the durable consumer of
-- internal/messaging/jetstream_consumer.go.
use lol_overlay.Prelude.{
  String, ◌≡◌, refl, sym, ap, ◌∙◌, ◌⊎◌, inl, inr, Bool, true, false, arith, ◌==◌, Bool-cases,
  Option-cases, Result, Result-cases, ok,
}
use mathlib.Core.Path.{subst}
use lol_overlay.Messaging.{Bytes, subject_game_started, subject_game_ended, consumer_game_events}
use lol_overlay.Messaging.Consumer.{ConsumerEnv, Msg, consume_message}
use lol_overlay.Messaging.Consumer.Disposal.{
  ConsumerLaws, IsDeadLettered, consume_message-IsDisposed, settled_message,
}
use lol_overlay.GameEvents.{
  GameEvent, Transaction, Database, process_game_started, process_game_ended, is_claimed,
  apply_started, apply_ended,
}
use lol_overlay.GameEvents.Delivery.{Outcome, has_claim, process_game-Outcome}
use lol_overlay.GameEvents.Consumer.{
  GameMessage, handle, handle_message, after_process, to_repository_game_event,
  validate_consumed_game_event,
}

abbrev Process : Type 0
Process = GameEvent → Database → Result Bool × Database

-- The event that the body holds is claimed by the consumer.
abbrev pub IsProcessed : (Bytes → Result GameMessage) → Bytes → Database → Type 0
IsProcessed unmarshal body db =
    (message : GameMessage) × (unmarshal body ≡ ok message)
    × (is_claimed consumer_game_events message.event_id db.processed ≡ true)

Outcome-claimed :
    (apply : Database → Result (Unit {0}) × Database) (tx : Transaction) (event : GameEvent)
    (before : Database) (b : Bool) (after : Database)
    → Outcome apply tx event before (ok b, after)
    → has_claim event after ≡ true
Outcome-claimed apply tx event before true after o = o.1
Outcome-claimed apply tx event before false after o = rw o.1 o.0

abbrev ClaimsIfOk : Process → Type 0
ClaimsIfOk process =
    (event : GameEvent) (db : Database) (b : Bool)
    → (process event db).0 ≡ ok b
    → has_claim event (process event db).1 ≡ true

started-ClaimsIfOk : (tx : Transaction) → ClaimsIfOk (process_game_started tx)
started-ClaimsIfOk tx event db b h =
    let r = process_game_started tx event db in
    Outcome-claimed (apply_started tx event) tx event db b r.1 (
      subst (λ (x : Result Bool). Outcome (apply_started tx event) tx event db (x, r.1)) h
        (process_game-Outcome tx event db).0)

ended-ClaimsIfOk : (tx : Transaction) → ClaimsIfOk (process_game_ended tx)
ended-ClaimsIfOk tx event db b h =
    let r = process_game_ended tx event db in
    Outcome-claimed (apply_ended tx event) tx event db b r.1 (
      subst (λ (x : Result Bool). Outcome (apply_ended tx event) tx event db (x, r.1)) h
        (process_game-Outcome tx event db).1)

handle_message-IsProcessed :
    (decode_text validate_text process_text subject : String) (process : Process)
    (claims : ClaimsIfOk process) (unmarshal : Bytes → Result GameMessage) (body : Bytes)
    (db : Database)
    → (handle_message decode_text validate_text process_text subject process (unmarshal body) db).0
      ≡ ok tt
    → IsProcessed unmarshal body
        (handle_message decode_text validate_text process_text subject process
          (unmarshal body)
          db).1
unfolding handle_message after_process
handle_message-IsProcessed decode_text validate_text process_text subject process claims unmarshal
      body db h =
    elim (Result-cases (unmarshal body)) [
      | inr (e, u) ↦ absurd (ground arith)
      | inl (message, u) ↦ elim (Option-cases (validate_consumed_game_event message)) [
        | inr (e, v) ↦ absurd (ground arith)
        | inl v ↦
            let r = process (to_repository_game_event subject message) db in
            elim (Result-cases r.0) [
              | inr (e, p) ↦ absurd (ground arith)
              | inl (b, p) ↦
                  rw (u, v, p, handle_message, after_process)
                    (message, refl, claims (to_repository_game_event subject message) db b p)
            ]
      ]
    ]

handle-IsProcessed :
    (unmarshal : Bytes → Result GameMessage) (tx : Transaction) (subject : String) (body : Bytes)
    (db : Database)
    → (handle unmarshal tx subject body db).0 ≡ ok tt
    → IsProcessed unmarshal body (handle unmarshal tx subject body db).1
unfolding handle
handle-IsProcessed unmarshal tx subject body db h =
    elim (Bool-cases (subject == subject_game_started)) [
      | inl s ↦
          let e : handle unmarshal tx subject body db
              ≡ handle_message "decode game started event" "validate game started event"
                  "process game started event" subject_game_started (process_game_started tx)
                  (unmarshal body) db =
            rw s refl in
          rw e (
            handle_message-IsProcessed "decode game started event" "validate game started event"
              "process game started event" subject_game_started (process_game_started tx)
              (started-ClaimsIfOk tx) unmarshal body db
              (ap (λ (r : Result (Unit {0}) × Database). r.0) (sym e) ∙ h))
      | inr s ↦ elim (Bool-cases (subject == subject_game_ended)) [
        | inl t ↦
            let e : handle unmarshal tx subject body db
                ≡ handle_message "decode game ended event" "validate game ended event"
                    "process game ended event" subject_game_ended (process_game_ended tx)
                    (unmarshal body) db =
              rw (s, t) refl in
            rw e (
              handle_message-IsProcessed "decode game ended event" "validate game ended event"
                "process game ended event" subject_game_ended (process_game_ended tx)
                (ended-ClaimsIfOk tx) unmarshal body db
                (ap (λ (r : Result (Unit {0}) × Database). r.0) (sym e) ∙ h))
        | inr t ↦ absurd (ground arith)
      ]
    ]

module _ {W : Type 0} (env : ConsumerEnv W) (settled : Msg → W → Bool)
    (laws : ConsumerLaws env settled) (unmarshal : Bytes → Result GameMessage) (tx : Transaction)
    (msg : Msg) (db : Database) where
  -- No game event is lost: when one delivery settles a message, so that the server delivers it no more, the
  -- event in it is claimed in the database, where its transaction was committed, or the message was
  -- delivered at least five times and its dead letter is stored.
  pub settled_game_event :
      (w : W)
      → settled msg w ≡ false
      → settled msg (consume_message env msg (handle unmarshal tx) db w).2 ≡ true
      → IsProcessed unmarshal msg.body (consume_message env msg (handle unmarshal tx) db w).1
        ⊎ IsDeadLettered env settled laws
            (handle unmarshal tx)
            db
            msg
            (consume_message env msg (handle unmarshal tx) db w).2
  unfolding consume_message
  settled_game_event w h done =
      let after = consume_message env msg (handle unmarshal tx) db w in
      elim (settled_message env settled laws (handle unmarshal tx) db msg (after.0, after.2)
        (consume_message-IsDisposed env settled laws (handle unmarshal tx) db msg w h) done) [
          | inl fine ↦ inl (handle-IsProcessed unmarshal tx msg.subject msg.body db fine)
          | inr dead ↦ inr dead
        ]
