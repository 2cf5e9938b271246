-- ===== src/Messaging/Events/Validity.antt =====
-- New game events and the checks that they pass on the way to a consumer.
use lol_overlay.Messaging.Events.{
  arith, new_event_id, new_event_metadata, game_event_version, print_uuid, hex_digit, print_hex,
  uuid_bytes, validate_game_event,
}
use lol_overlay.Prelude.{
  ◌/◌, String, ◌≡◌, refl, sym, ap, true, false, none, [], ◌∷◌, ◌==◌, ℤ, is_positive, Result, ok,
  err,
}
use lol_overlay.Prelude.Decimals.{text_not_empty}
use Prim.Native.Char.{Char}
use lol_overlay.Models.{Time, is_zero}
use lol_overlay.Messaging.{Bytes, EventMetadata}
use lol_overlay.GameEvents.Consumer.{GameMessage, validate_consumed_game_event}

abbrev pub message_of : EventMetadata → ℤ → String → GameMessage
message_of metadata game_id room_id = record {
  event_id = metadata.event_id;
  occurred_at = metadata.occurred_at;
  version = metadata.version;
  game_id = game_id;
  room_id = room_id;
}

print_uuid-begins :
    (value : Bytes) → (c : Char) × (s : String) × (print_uuid value ≡ String.◌∷◌ c s)
unfolding print_uuid print_hex
print_uuid-begins [] = ("-", _, refl)
print_uuid-begins (x ∷ xs) = (hex_digit (x / 16), _, refl)

print_uuid-text : (value : Bytes) → (print_uuid value == "") ≡ false
print_uuid-text value =
    let begins = print_uuid-begins value in rw begins.2 (text_not_empty begins.0 begins.1)

-- An event that is made with new metadata, for a positive game id and a room, passes the check of its
-- publisher and the check of the consumer, which are the same check for every event.
pub new_event_metadata-valid :
    (now : Time) (random : Result Bytes) (metadata : EventMetadata) (game_id : ℤ) (room_id : String)
    → new_event_metadata now random ≡ ok metadata
    → is_zero now ≡ false
    → is_positive game_id ≡ true
    → (room_id == "") ≡ false
    → (validate_game_event metadata game_id room_id ≡ none)
      × (validate_consumed_game_event (message_of metadata game_id room_id) ≡ none)
unfolding new_event_metadata new_event_id validate_game_event validate_consumed_game_event
new_event_metadata-valid now (err e) metadata game_id room_id h clock positive room = absurd (cc h)
new_event_metadata-valid now (ok value) metadata game_id room_id h clock positive room =
    let made : EventMetadata = record {
      event_id = print_uuid (uuid_bytes value);
      occurred_at = now;
      version = game_event_version;
    } in
    let same : made ≡ metadata =
      ap (λ (r : Result EventMetadata). elim r [ ok m ↦ m | err e ↦ made ]) h in
    rw (sym same) (let named = print_uuid-text (uuid_bytes value) in (ground arith, ground arith))
