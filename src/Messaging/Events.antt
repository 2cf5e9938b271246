-- ===== src/Messaging/Events.antt =====
-- internal/messaging/game_events.go and the event ids of durable_events.go. The random bytes of a new id
-- and the clock are arguments. A byte is a number below 256, and `%x` prints its two digits.
pub mod Validity
use lol_overlay.Prelude.{
  ℕ, zero, suc, ◌+◌, ◌-◌, ◌*◌, ◌/◌, ◌%◌, ◌^◌, ◌≤◌, ◌<◌, min, String, ◌≡◌, refl, sym, ap, ◌∙◌,
  fun_ext, ◌≢◌, ◌↔◌, ◌⊎◌, inl, inr, Bool, true, false, not, ◌&&◌, ◌||◌, Option, none, some, List,
  [], ◌∷◌, ◌++◌, map, arith, ◌==◌, eq_iff, eq_refl, ltb, leb, nat_eq, if◌then◌else◌, ℤ, int_eq,
  is_positive, Bool-cases, Option-cases, pos, negsuc, All, length, length-append, take, drop, find,
  modify_first, All-append, Error, Result, map_err, Result-cases, map_err_ok, failure, wrap, ok,
  err, Exec, pure, wrapping, continue, ◌>>=◌, ◌>>◌,
}
use Prim.Native.Char.{Char}
use lol_overlay.Prelude.Decimals.{digit}
use lol_overlay.Models.{Time, is_zero}
use lol_overlay.Messaging.{
  Bytes, EventMetadata, PublishAck, Stream, publish_durable, subject_game_started,
  subject_game_ended,
}

abbrev pub game_event_version : ℤ
game_event_version = pos 1

-- `value[i] = f(value[i])`
unfoldable pub set_byte : ℕ → (ℕ → ℕ) → Bytes → Bytes
set_byte i f [] = []
set_byte zero f (x ∷ xs) = f x ∷ xs
set_byte (suc i) f (x ∷ xs) = x ∷ set_byte i f xs

-- `(x & 0x0f) | 0x40`
abbrev pub as_version_4 : ℕ → ℕ
as_version_4 x = x % 16 + 64

-- `(x & 0x3f) | 0x80`
abbrev pub as_rfc_4122 : ℕ → ℕ
as_rfc_4122 x = x % 64 + 128

abbrev pub uuid_bytes : Bytes → Bytes
uuid_bytes value = set_byte 8 as_rfc_4122 (set_byte 6 as_version_4 value)

hex_digit : ℕ → Char
hex_digit d =
    if ltb d 10
    then digit d
    else if nat_eq d 10
    then "a"
    else if nat_eq d 11
    then "b"
    else if nat_eq d 12
    then "c"
    else if nat_eq d 13
    then "d"
    else if nat_eq d 14
    then "e"
    else "f"

-- `%x` in front of the text that follows.
unfoldable pub print_hex : Bytes → String → String
unfolding hex_digit
print_hex [] rest = rest
print_hex (x ∷ xs) rest =
    String.◌∷◌ (hex_digit (x / 16)) (String.◌∷◌ (hex_digit (x % 16)) (print_hex xs rest))

-- "%x-%x-%x-%x-%x" of `value[0:4]`, `value[4:6]`, `value[6:8]`, `value[8:10]` and `value[10:16]`
unfoldable pub print_uuid : Bytes → String
unfolding print_hex
print_uuid value = print_hex (take 4 value) (
    String.◌∷◌ "-" (
      print_hex (take 2 (drop 4 value)) (
        String.◌∷◌ "-" (
          print_hex (take 2 (drop 6 value)) (
            String.◌∷◌ "-" (
              print_hex (take 2 (drop 8 value))
                (String.◌∷◌ "-" (print_hex (take 6 (drop 10 value)) ""))))))))

-- The argument is what `rand.Read` filled the 16 bytes with.
unfoldable pub new_event_id : Result Bytes → Result String
unfolding print_uuid set_byte
new_event_id (err e) = err (wrap "generate event ID" e)
new_event_id (ok value) = ok (print_uuid (uuid_bytes value))

unfoldable pub new_event_metadata : Time → Result Bytes → Result EventMetadata
unfolding new_event_id
new_event_metadata now random = elim (new_event_id random) [
  | err e ↦ err e
  | ok event_id ↦
      ok (record { event_id = event_id; occurred_at = now; version = game_event_version })
]

-- `none` is the nil error.
unfoldable pub validate_game_event : EventMetadata → ℤ → String → Option Error
validate_game_event metadata game_id room_id =
    if metadata.event_id == ""
    then some (failure "event ID is required")
    else if is_zero metadata.occurred_at
    then some (failure "occurredAt is required")
    else if not (is_positive metadata.version)
    then some (failure "event version must be positive")
    else if not (is_positive game_id)
    then some (failure "game ID must be positive")
    else if room_id == ""
    then some (failure "room ID is required")
    else none

module _ {J : Type 0} (stream : Stream J)
    (marshal : EventMetadata → ℤ → String → Result Bytes) where
  -- The shape that the two publishers share.
  publish_game : String → String → String → EventMetadata → ℤ → String → Exec J PublishAck
  publish_game validate_text marshal_text subject metadata game_id room_id j =
      elim (validate_game_event metadata game_id room_id) [
        | some e ↦ (err (wrap validate_text e), j)
        | none ↦ elim (marshal metadata game_id room_id) [
          | err e ↦ (err (wrap marshal_text e), j)
          | ok body ↦ publish_durable stream subject metadata.event_id body j
        ]
      ]

  unfoldable pub publish_game_started : EventMetadata → ℤ → String → Exec J PublishAck
  unfolding publish_game
  publish_game_started =
      publish_game "validate game started event" "marshal game started event" subject_game_started

  unfoldable pub publish_game_ended : EventMetadata → ℤ → String → Exec J PublishAck
  unfolding publish_game
  publish_game_ended =
      publish_game "validate game ended event" "marshal game ended event" subject_game_ended
