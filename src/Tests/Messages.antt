-- ===== src/Tests/Messages.antt =====
-- Messages in flight: an album of which one message is sent and the other fails.
use core_telegram_api.Common.{
  ℕ, ◌+◌, ◌≡◌, refl, false, Option, none, some, List, [], ◌∷◌, arith, nat_eq, bytes_eq, int_eq, pos,
  find, insert, erase, Bytes, codes,
}
use core_telegram_api.Sending.{
  TdError, full_id_eq, album, Request, messages_result, Sending, close_messages, send_messages,
  on_result, on_message_send_succeeded, on_message_send_failed,
}
use core_telegram_api.Sending.Invariant.{Inv, ledger, answered, holding}
use core_telegram_api.Sending.History.{
  Event, send, result, succeeded, not_sent, step, started, run, Lawful, ends, continues, nothing,
  nothing-Inv, run-Kept, run-Answered, close_messages-Answered,
}

abbrev decimal : ℕ → Bytes
decimal n = codes "2"

abbrev flood : TdError
flood = record { code = pos 429; message = codes "Too Many Requests" }

abbrev album_of_two : Event
album_of_two = send 1 album (pos 5) 2 70

abbrev both_known : Event
both_known = result 1 (messages_result (some (pos 5, 8) ∷ some (pos 5, 9) ∷ []))

abbrev asked : Request
asked = record { kind = album; chat_id = pos 5; message_count = 2; query = 70 }

abbrev first_sent : Event
first_sent = succeeded (pos 5, 9) (codes "ok")

abbrev second_failed : Event
second_failed = not_sent false (pos 5, 8) 20 flood

abbrev some_events : List Event
some_events = album_of_two ∷ both_known ∷ first_sent ∷ []

abbrev all_events : List Event
all_events = album_of_two ∷ both_known ∷ first_sent ∷ second_failed ∷ []

abbrev or_nothing : Option Sending → Sending
or_nothing none = nothing
or_nothing (some s) = s

abbrev after : List Event → Sending
after es = or_nothing (run decimal es nothing)

then_second : Lawful decimal (after some_events) (second_failed ∷ [])
unfolding run step find insert erase send_messages on_result on_message_send_succeeded
    on_message_send_failed
then_second = continues decimal {t = after all_events} (1, refl) refl (ends)

from_first :
    (es : List Event)
    → Lawful decimal (after some_events) es
    → Lawful decimal nothing (album_of_two ∷ both_known ∷ first_sent ∷ es)
unfolding run step find insert erase send_messages on_result on_message_send_succeeded
    on_message_send_failed
from_first es l =
    continues decimal {t = after (album_of_two ∷ [])} (refl, ground arith) refl
      (continues decimal {t = after (album_of_two ∷ both_known ∷ [])}
        (asked, refl, (ground arith, ground arith, (refl, (refl, tt)), (refl, (refl, tt)))) refl
        (continues decimal {t = after some_events} (1, refl) refl l))

all-Lawful : Lawful decimal nothing all_events
all-Lawful = from_first (second_failed ∷ []) then_second

run-Kept_example :
    (t : Sending) × (run decimal all_events nothing ≡ some t)
    × Inv t
    × ((x : ℕ) → ledger t x ≡ ledger nothing x + started decimal x all_events)
run-Kept_example = run-Kept decimal all_events nothing nothing-Inv all-Lawful

run-Answered_example : answered (after all_events) 70 ≡ started decimal 70 all_events
unfolding run step find insert erase send_messages on_result on_message_send_succeeded
    on_message_send_failed
run-Answered_example =
    run-Answered decimal all_events (after all_events) all-Lawful refl refl refl 70

close_messages-Answered_example :
    (answered (close_messages (after some_events)) 70 ≡ started decimal 70 some_events)
    × (holding (close_messages (after some_events)) 70 ≡ 0)
unfolding run step find insert erase send_messages on_result on_message_send_succeeded
    on_message_send_failed
close_messages-Answered_example =
    close_messages-Answered decimal some_events (after some_events) (from_first [] ends) refl refl
      70
