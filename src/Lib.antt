-- ===== src/Lib.antt =====
-- The backend of lol-timer: rooms with the cooldowns of the players' summoner spells, the tracking of
-- the game that a League client plays, and the outbox through which game events reach JetStream.
--
-- The parts and how they interact. A champion select of the League client becomes a room
-- (SyncFromChampSelect); clients toggle spells in it, a ticker refreshes the cooldowns and another
-- one deletes old rooms. Rooms are kept by a room store behind one interface, and a method that
-- changes a room notifies its subscribers afterwards. The tracker turns the polled phases of the
-- client into game events. An event is written to the outbox table first, and the relay claims it
-- under a lease, publishes it under its id and marks it as published or, after a failure, as due for
-- another attempt. The consumer of the events claims each by its id and applies it to the sessions
-- of the games, in one transaction; an event that fails again and again becomes a dead letter, which
-- can be replayed. The websocket hub tells its clients what changed in their room.
--
-- The files, with the code that they model:
-- - Prelude: the conditional, Boolean tests, lists, results, and the action monad `Exec` that passes a
--   state and stops at the first error, as `if err != nil { return … }` does.
-- - Relations: a list whose first match has changed, and lists that are related one by one.
-- - Models: internal/models and internal/constants. Times and durations are nanoseconds since the zero
--   time, and the zero time is 0.
-- - Spell: internal/services/summoner_spell_service.go and `refreshRoomCooldowns`. Spell/Cooldown and
--   Spell/Toggle hold the theorems on refreshing and on toggling and copying; Spell/Changes has these
--   changes as relations.
-- - Repository: internal/repositories/room_repository.go with the contract of a room store, and
--   Repository/InMemory: internal/repositories/in_memory_room_repository.go, and Repository/Cached:
--   internal/repositories/cached_room_repository.go over a cache with the operations of
--   internal/cache/room_cache.go, and Repository/Postgres: internal/repositories/postgres/room/repository.go
--   on the tables of rooms, players and spells, with Load: load.go, and by theorem Saved, Joins,
--   RoundTrip, Untouched, Others, Freshness and Torn.
-- - RoomId: internal/services/room_id.go, over Prelude/Decimals, the decimal print of fmt.Sprintf.
-- - RoomService: internal/services/room_service.go over the record `RoomEnv` of the calls that it
--   makes (Env). Players has what the methods write to one room, Changes the same as relations on
--   rooms (by theorem Described), Locked the methods that change one room, Current the current room
--   and `CreateRoom`, Sync `SyncFromChampSelect`, Refresh `RefreshCooldowns` and Cleanup
--   `cleanupOldRooms`; Methods, RiotIds and Effects hold theorems and lemmas.
-- - Lifecycle: internal/services/game_lifecycle.go; Lifecycle/Trace is about runs of observations.
--   Lifecycle/Service: internal/services/game_lifecycle_service.go over the record `LifecycleEnv`.
-- - Messaging: `PublishDurable` of internal/messaging/jetstream.go and the subjects of events.go.
--   Messaging/Events: game_events.go and the event ids of durable_events.go, Messaging/DeadLetters:
--   dead_letter_events.go, dead_letter_publisher.go and dead_letter_store.go, Messaging/Consumer: the
--   callback of jetstream_consumer.go over the record `ConsumerEnv`.
-- - Replay: internal/services/dead_letter_replay_service.go over the record `ReplayEnv`; Replay/Wiring
--   fills it with the dead letters and the durable publisher.
-- - Outbox: internal/repositories/postgres/outbox/repository.go as functions on a table of rows, with
--   child modules by theorem (Table, Claims, Claims/Leases, Updates), Outbox/Retry: `outboxRetryDelay`,
--   and Outbox/Relay: `RelayOnce` of internal/services/outbox_relay_service.go over the record `RelayEnv`,
--   which Outbox/Relay/Database fills with the table and the durable publisher.
-- - GameEvents: internal/repositories/postgres/gameevent/repository.go as one transaction on the tables of
--   processed events and game sessions, GameEvents/Consumer: internal/consumers/game_consumer.go, and
--   GameEvents/Delivery, GameEvents/Consumer/Once and GameEvents/Consumer/Settled on one delivery, on
--   many, and behind the durable consumer.
-- - Cleanup: internal/services/outbox_cleanup_service.go and processed_event_cleanup_service.go, with the
--   repository of internal/repositories/postgres/processedevent; Cleanup/Recent is about late deliveries.
-- - Websocket: internal/websocket, the sets of clients and the broadcasts, and Websocket/Connection: the
--   two handlers over the record `ConnectionEnv`. RoomConsumer: internal/consumers/room_consumer.go, which
--   feeds the hub with the snapshots of RoomService/Snapshots.
-- - Handlers: internal/handlers/room_handler.go with internal/dto; Handlers/Routes is about its paths.
-- - Tests: runs on concrete data, and the theorems applied to it.
--
-- Parameters. The store of a room service, the champion catalogue, the publisher, the clock and the
-- context are arguments (`RoomEnv`); what the theorems rely on is `RoomEnvLaws`: the store keeps its
-- contract, and no other call changes a room. The database adds its
-- faults, its clock and the rows that others have locked as arguments of each statement. JetStream is a
-- `Stream` that stores what it acknowledges and drops nothing on a publication. A method that holds the
-- service's lock is one action on the state. What a time column keeps of a time, the random bytes of an
-- event id, the connections of the websockets and what other goroutines do while a handler reads from its
-- connection are arguments too. So are what a `timestamptz` of the outbox keeps of a time, and which slices
-- of a room are nil where `reflect.DeepEqual` compares them.
--
-- Loops are recursion on the list of rooms, players, spells, rows or events; the loop of the retry delay
-- is recursion on the number of attempts, which bounds its rounds. The decimal print of a number is
-- recursion on rounds, and it is given as many rounds as the number, which has fewer digits. No other
-- definition uses fuel.
--
-- Not modelled: the tickers and pings, the middleware and the health check, gRPC, Redis, the League
-- client and its polling, the configuration of streams and consumers, metrics and logging, the
-- generated code and the frontend. Integers of cooldowns and attempts do not overflow in the ranges
-- that the program uses, so they are natural numbers. A nil slice and an empty one are the same list
-- but for that comparison, and the values that an error's text quotes are left out.
pub mod Prelude
pub mod Models
pub mod Spell
pub mod Repository
pub mod RoomService
pub mod Lifecycle
pub mod Messaging
pub mod Outbox
pub mod Cleanup
pub mod GameEvents
pub mod Handlers
pub mod Relations
pub mod Replay
pub mod RoomConsumer
pub mod RoomId
pub mod Websocket
pub mod Tests
