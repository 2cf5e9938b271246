-- ===== src/GameEvents.antt =====
-- internal/repositories/postgres/gameevent/repository.go, with internal/repositories/
-- game_event_repository.go and the tables of migrations/004 and 006: one transaction that claims an event
-- for a consumer and applies it to the sessions of the games. What the database adds is an argument,
-- `Transaction`: the faults of its statements, its clock, the error of a violated constraint, and whether
-- a commit that returned an error took effect all the same.
pub mod Consumer
pub mod Delivery
use lol_overlay.Prelude.{
  ℕ, zero, suc, ◌+◌, ◌-◌, ◌*◌, ◌/◌, ◌%◌, ◌^◌, ◌≤◌, ◌<◌, min, String, ◌≡◌, refl, sym, ap, ◌∙◌,
  fun_ext, ◌≢◌, ◌↔◌, ◌⊎◌, inl, inr, Bool, true, false, not, ◌&&◌, ◌||◌, Option, none, some, List,
  [], ◌∷◌, ◌++◌, map, arith, ◌==◌, eq_iff, eq_refl, ltb, leb, nat_eq, if◌then◌else◌, ℤ, int_eq,
  is_positive, Bool-cases, Option-cases, pos, negsuc, All, length, length-append, take, drop, find,
  modify_first, All-append, Error, Result, map_err, Result-cases, failure, wrap, ok, err, Exec,
  pure, wrapping, continue, ◌>>=◌, ◌>>◌,
}
use lol_overlay.Models.{Time, is_zero}

pub record GameEvent : Type 0 where
  pub consumer_name : String
  pub event_id : String
  pub subject : String
  pub game_id : ℤ
  pub room_id : String
  pub occurred_at : Time

-- A row of `game_sessions`.
pub record Session : Type 0 where
  pub game_id : ℤ
  pub room_id : String
  pub started_at : Time
  pub ended_at : Option Time
  pub created_at : Time
  pub updated_at : Time

-- A row of `processed_events`.
pub record ProcessedEvent : Type 0 where
  pub consumer_name : String
  pub event_id : String
  pub subject : String
  pub processed_at : Time

pub record Database : Type 0 where
  pub sessions : List Session
  pub processed : List ProcessedEvent

pub record Transaction : Type 0 where
  pub begin_fault : Option Error
  pub claim_fault : Option Error
  pub apply_fault : Option Error
  pub commit_fault : Option Error
  pub commit_kept : Bool
  pub now : Time
  pub constraint_error : Error

-- `none` is the nil error.
unfoldable pub validate_game_event : GameEvent → Option Error
validate_game_event event =
    if event.consumer_name == ""
    then some (failure "consumer name is required")
    else if event.event_id == ""
    then some (failure "event ID is required")
    else if event.subject == ""
    then some (failure "subject is required")
    else if not (is_positive event.game_id)
    then some (failure "game ID must be positive")
    else if event.room_id == ""
    then some (failure "room ID is required")
    else if is_zero event.occurred_at
    then some (failure "occurredAt is required")
    else none

abbrev pub is_claim : String → String → ProcessedEvent → Bool
is_claim consumer_name event_id row = row.consumer_name == consumer_name && row.event_id == event_id

unfoldable pub is_claimed : String → String → List ProcessedEvent → Bool
is_claimed consumer_name event_id [] = false
is_claimed consumer_name event_id (row ∷ rest) =
    is_claim consumer_name event_id row || is_claimed consumer_name event_id rest

abbrev pub new_claim : Time → GameEvent → ProcessedEvent
new_claim now event = record {
  consumer_name = event.consumer_name;
  event_id = event.event_id;
  subject = event.subject;
  processed_at = now;
}

-- INSERT … ON CONFLICT (consumer_name, event_id) DO NOTHING
unfoldable pub claim_event : Transaction → GameEvent → Database → Result Bool × Database
claim_event tx event db = elim tx.claim_fault [
  | some e ↦ (err (wrap "claim game event" e), db)
  | none ↦
      if is_claimed event.consumer_name event.event_id db.processed
      then (ok false, db)
      else (ok true, record db { processed = new_claim tx.now event ∷ db.processed })
]

-- The constraint `game_sessions_ended_after_started`.
abbrev pub is_allowed : Session → Bool
is_allowed session = elim session.ended_at [
  | none ↦ true
  | some ended_at ↦ leb session.started_at ended_at
]

abbrev pub has_game_id : ℤ → Session → Bool
has_game_id game_id session = int_eq session.game_id game_id

-- The update of a session whose row the statement finds, which the constraint may refuse.
unfoldable pub write_session :
    Transaction
    → String
    → (Session → Bool)
    → (Session → Session)
    → Error
    → Database
    → Result (Unit {0}) × Database
write_session tx text p f missing db = elim (find p db.sessions) [
  | none ↦ (err missing, db)
  | some session ↦
      if is_allowed (f session)
      then elim (modify_first p f db.sessions) [
        | none ↦ (err missing, db)
        | some sessions ↦ (ok tt, record db { sessions = sessions })
      ]
      else (err (wrap text tx.constraint_error), db)
]

abbrev pub set_started : Time → GameEvent → Session → Session
set_started now event session = record session {
  room_id = event.room_id;
  started_at = min session.started_at event.occurred_at;
  updated_at = now;
}

abbrev pub new_session : Time → GameEvent → Session
new_session now event = record {
  game_id = event.game_id;
  room_id = event.room_id;
  started_at = event.occurred_at;
  ended_at = none;
  created_at = now;
  updated_at = now;
}

-- The statement of `ProcessGameStarted`: INSERT … ON CONFLICT (game_id) DO UPDATE.
unfoldable pub apply_started : Transaction → GameEvent → Database → Result (Unit {0}) × Database
unfolding write_session
apply_started tx event db = elim tx.apply_fault [
  | some e ↦ (err (wrap "upsert started game" e), db)
  | none ↦ elim (find (has_game_id event.game_id) db.sessions) [
    | none ↦ (ok tt, record db { sessions = new_session tx.now event ∷ db.sessions })
    | some session ↦
        write_session tx "upsert started game" (has_game_id event.game_id)
          (set_started tx.now event) tx.constraint_error db
  ]
]

abbrev pub set_ended : Time → GameEvent → Session → Session
set_ended now event session = record session {
  ended_at = elim session.ended_at [
    | none ↦ some event.occurred_at
    | some ended_at ↦
        if ltb event.occurred_at ended_at then some event.occurred_at else some ended_at
  ];
  updated_at = now;
}

abbrev pub is_game : ℤ → String → Session → Bool
is_game game_id room_id session = has_game_id game_id session && session.room_id == room_id

-- The statement of `ProcessGameEnded`; the primary key lets it change one row at most.
unfoldable pub apply_ended : Transaction → GameEvent → Database → Result (Unit {0}) × Database
unfolding write_session
apply_ended tx event db = elim tx.apply_fault [
  | some e ↦ (err (wrap "end game" e), db)
  | none ↦
      write_session tx "end game" (is_game event.game_id event.room_id) (set_ended tx.now event)
        (failure "started game not found") db
]

-- The commit: `before` is what a rollback leaves.
commit : Transaction → Database → Database → Result Bool × Database
commit tx before after = elim tx.commit_fault [
  | none ↦ (ok true, after)
  | some e ↦
      (err (wrap "commit game event transaction" e), if tx.commit_kept then after else before)
]

-- What follows the statement on the sessions.
after_apply : Transaction → Database → Result (Unit {0}) × Database → Result Bool × Database
unfolding commit
after_apply tx before (err e, db) = (err e, before)
after_apply tx before (ok u, db) = commit tx before db

-- What follows the claim.
after_claim :
    Transaction
    → (Database → Result (Unit {0}) × Database)
    → Database
    → Result Bool × Database
    → Result Bool × Database
unfolding after_apply
after_claim tx apply before (err e, db) = (err e, before)
after_claim tx apply before (ok false, db) = (ok false, before)
after_claim tx apply before (ok true, db) = after_apply tx before (apply db)

unfoldable pub process :
    Transaction
    → GameEvent
    → (Database → Result (Unit {0}) × Database)
    → Database
    → Result Bool × Database
unfolding after_claim claim_event
process tx event apply db = elim (validate_game_event event) [
  | some e ↦ (err e, db)
  | none ↦ elim tx.begin_fault [
    | some e ↦ (err (wrap "begin game event transaction" e), db)
    | none ↦ after_claim tx apply db (claim_event tx event db)
  ]
]

unfoldable pub process_game_started : Transaction → GameEvent → Database → Result Bool × Database
process_game_started tx event = process tx event (apply_started tx event)

unfoldable pub process_game_ended : Transaction → GameEvent → Database → Result Bool × Database
process_game_ended tx event = process tx event (apply_ended tx event)
