-- ===== src/Sending.antt =====
-- The messages that a bot is sending: `TdOnSendMessageCallback` and the callbacks of albums and
-- forwarded messages, `get_send_message_query_id`, `on_sent_message`, `on_message_send_succeeded`,
-- `on_message_send_failed` and `on_closed` in telegram-bot-api/Client.cpp.
pub mod Invariant
pub mod Opening
pub mod Requests
pub mod Reports
pub mod History
use core_telegram_api.Common.{
  ℕ, zero, suc, ◌+◌, ◌-◌, ◌*◌, ◌/◌, ◌%◌, ◌^◌, ◌≤◌, ◌<◌, min, max, ◌≡◌, refl, sym, ap, ◌∙◌, subst,
  ◌≢◌, ◌↔◌, ◌⊎◌, inl, inr, Bool, true, false, not, ◌&&◌, ◌||◌, Option, none, some, List, [], ◌∷◌,
  ◌++◌, map, arith, ltb, leb, if◌then◌else◌, ltb→lt, lt→ltb, leb→le, Bool-cases, Option-cases,
  length, take, All, length-append, length-take, Eq, ◌==◌, nat_eq, bytes_eq, int_eq, beq_refl,
  beq_ne, ℤ, pos, negsuc, leℤ, Map, Unique, find, insert, erase, find-insert, find-erase,
  length-insert, length-insert_present, length-erase, Unique-insert, Unique-erase, count, hit,
  count-insert, count-erase, count_pos_of_find, tally, weight_at, tally-insert, tally-erase,
  tally_pos, Bytes, codes, is_prefix, prefix_rest, split_at_byte, append_nil, is_prefix-append,
  prefix_rest-append, split_at_byte-append, Lacks, lacks,
}
use core_telegram_api.Errors.{is_special_error_code}

-- `td_api::error`.
pub record TdError : Type 0 where
  pub code : ℤ
  pub message : Bytes

-- `MessageFullId`: a chat and a message.
abbrev pub MessageFullId : Type 0
MessageFullId = ℤ × ℕ

abbrev pub full_id_beq : MessageFullId → MessageFullId → Bool
full_id_beq (c, m) (d, n) = c == d && m == n

pub full_id_beq_iff : (a b : MessageFullId) → (full_id_beq a b ≡ true) ↔ (a ≡ b)
full_id_beq_iff (c, m) (d, n) = ground (arith, int_eq.beq_iff c d)

instance abbrev pub full_id_eq : Eq MessageFullId
full_id_eq = record { beq = full_id_beq; beq_iff = full_id_beq_iff }

-- `PendingSendMessageQuery`; `query` names the query that it holds, and `messages` are the encoded
-- answers for the messages that were sent.
pub record Pending : Type 0 where
  pub query : ℕ
  pub is_multisend : Bool
  pub total_message_count : ℕ
  pub awaited_message_count : ℕ
  pub messages : List Bytes
  pub error : Option TdError

-- Which callback waits for the result of a request: `TdOnSendMessageCallback`,
-- `TdOnSendMessageAlbumCallback` or `TdOnForwardMessagesCallback`.
pub data Kind : Type 0 where
  single album forward : Kind

pub record Request : Type 0 where
  pub kind : Kind
  pub chat_id : ℤ
  pub message_count : ℕ
  pub query : ℕ

-- How a query ends: with the encoded message, the encoded messages, an error, a 429 after a while,
-- or the error of a closing client.
pub data Answer : Type 0 where
  sent : Bytes → Answer
  sent_all : List Bytes → Answer
  failed : TdError → Answer
  flood_limited : Answer
  closed : Answer

-- The part of `Client` that the callbacks work on. `requests` are those of `handlers_`, `answers` the
-- queries that were answered, and `deletions` the messages that the client library was asked to
-- delete.
pub record Sending : Type 0 where
  pub unsent : Map MessageFullId ℕ
  pub counts : Map ℤ ℕ
  pub pending : Map ℕ Pending
  pub next_query_id : ℕ
  pub requests : Map ℕ Request
  pub answers : List (ℕ × Answer)
  pub deletions : List MessageFullId

abbrev pub answer : ℕ → Answer → Sending → Sending
answer x a s = record s { answers = s.answers ++ (x, a) ∷ [] }

abbrev pub or_zero : Option ℕ → ℕ
or_zero none = 0
or_zero (some n) = n

-- `MAX_CONCURRENTLY_SENT_CHAT_MESSAGES`.
abbrev pub max_concurrently_sent_chat_messages : ℕ
max_concurrently_sent_chat_messages = 310

-- The end of `do_send_message` and of the requests for several messages: `id` is what
-- `handlers_.create` gives.
unfoldable pub send_messages : ℕ → Kind → ℤ → ℕ → ℕ → Sending → Sending
send_messages id kind chat_id message_count query s =
    if leb max_concurrently_sent_chat_messages (or_zero (find chat_id s.counts))
    then answer query flood_limited s
    else record s {
      counts = insert chat_id (or_zero (find chat_id s.counts) + message_count) s.counts;
      requests =
          insert id
            (record {
              kind = kind;
              chat_id = chat_id;
              message_count = message_count;
              query = query;
            })
            s.requests;
    }

-- `decrease_yet_unsent_message_count`.
unfoldable pub decrease : ℤ → ℕ → Sending → Option Sending
decrease chat_id n s = elim (find chat_id s.counts) [
  | none ↦ none
  | some c ↦
      if leb n c
      then some (record s {
        counts = if c == n then erase chat_id s.counts else insert chat_id (c - n) s.counts;
      })
      else none
]

-- `get_send_message_query_id`: the query gets the next identifier.
unfoldable pub get_send_message_query_id : Bool → ℕ → Sending → Option Sending
get_send_message_query_id is_multisend query s = elim (find s.next_query_id s.pending) [
  | some p ↦ none
  | none ↦ some (record s {
    next_query_id = s.next_query_id + 1;
    pending =
        insert s.next_query_id
          (record {
            query = query;
            is_multisend = is_multisend;
            total_message_count = 0;
            awaited_message_count = 0;
            messages = [];
            error = none;
          })
          s.pending;
  })
]

abbrev pub one_more : Pending → Pending
one_more p = record p {
  awaited_message_count = p.awaited_message_count + 1;
  total_message_count = p.total_message_count + 1;
}

-- `on_sent_message`.
unfoldable pub on_sent_message : MessageFullId → ℕ → Sending → Option Sending
on_sent_message m query_id s = elim (find m s.unsent) [
  | some q ↦ none
  | none ↦ elim (find query_id s.pending) [
    | none ↦ none
    | some p ↦ some (record s {
      unsent = insert m query_id s.unsent;
      pending = insert query_id (one_more p) s.pending;
    })
  ]
]

unfoldable pub on_sent_messages : List MessageFullId → ℕ → Sending → Option Sending
unfolding on_sent_message
on_sent_messages [] query_id s = some s
on_sent_messages (m ∷ ms) query_id s = elim (on_sent_message m query_id s) [
  | none ↦ none
  | some s' ↦ on_sent_messages ms query_id s'
]

-- The messages enter under a new identifier.
unfoldable pub open_messages : Bool → ℕ → List MessageFullId → Sending → Option Sending
unfolding get_send_message_query_id on_sent_messages
open_messages is_multisend query ms s = elim (get_send_message_query_id is_multisend query s) [
  | none ↦ none
  | some s' ↦ on_sent_messages ms s.next_query_id s'
]

-- The result of a request: an error, a message, or messages, some of which may be missing.
pub data Result : Type 0 where
  error_result : TdError → Result
  message_result : MessageFullId → Result
  messages_result : List (Option MessageFullId) → Result

abbrev pub present : List (Option MessageFullId) → List MessageFullId
present [] = []
present (none ∷ ms) = present ms
present (some m ∷ ms) = m ∷ present ms

-- `decrease`, unless there is nothing to take off.
unfoldable pub give_back : ℤ → ℕ → Sending → Option Sending
unfolding decrease
give_back chat_id n s = if n == 0 then some s else decrease chat_id n s

abbrev pub answer_after : ℕ → Answer → Option Sending → Option Sending
answer_after query a none = none
answer_after query a (some s) = some (answer query a s)

abbrev pub cannot_forward : TdError
cannot_forward = record { code = pos 400; message = codes "Messages can't be forwarded" }

abbrev pub no_messages : List MessageFullId → Bool
no_messages [] = true
no_messages (m ∷ ms) = false

-- The end of the callback of forwarded messages, once the missing ones are given back.
unfoldable pub forward_messages : ℕ → List MessageFullId → Sending → Option Sending
unfolding open_messages
forward_messages query ms s =
    if no_messages ms
    then some (answer query (failed cannot_forward) s)
    else open_messages true query ms s

abbrev pub then_forward : ℕ → List MessageFullId → Option Sending → Option Sending
then_forward query ms none = none
then_forward query ms (some s) = forward_messages query ms s

-- `on_result` of the three callbacks; a result of the wrong kind, a wrong number of messages, and a
-- missing message of an album fail a `CHECK`.
unfoldable pub on_request_result : Kind → ℤ → ℕ → ℕ → Result → Sending → Option Sending
unfolding give_back decrease open_messages forward_messages
on_request_result single chat_id n query (error_result e) s =
    answer_after query (failed e) (decrease chat_id 1 s)
on_request_result single chat_id n query (message_result m) s = open_messages false query (m ∷ []) s
on_request_result single chat_id n query (messages_result ms) s = none
on_request_result album chat_id n query (error_result e) s =
    answer_after query (failed e) (give_back chat_id n s)
on_request_result album chat_id n query (message_result m) s = none
on_request_result album chat_id n query (messages_result ms) s =
    if length ms == n && length (present ms) == n
    then open_messages true query (present ms) s
    else none
on_request_result forward chat_id n query (error_result e) s =
    answer_after query (failed e) (give_back chat_id n s)
on_request_result forward chat_id n query (message_result m) s = none
on_request_result forward chat_id n query (messages_result ms) s =
    if length ms == n
    then then_forward query (present ms) (give_back chat_id (n - length (present ms)) s)
    else none

-- `Client::on_result` for a request that sends messages.
unfoldable pub on_result : ℕ → Result → Sending → Option Sending
unfolding on_request_result
on_result id result s = elim (find id s.requests) [
  | none ↦ none
  | some r ↦
      on_request_result r.kind r.chat_id r.message_count r.query result
        (record s { requests = erase id s.requests })
]

-- `extract_yet_unsent_message_query_id`.
unfoldable pub extract : MessageFullId → Sending → Option (ℕ × Sending)
unfolding decrease
extract m s = elim (find m s.unsent) [
  | none ↦ none
  | some q ↦ elim (decrease m.0 1 (record s { unsent = erase m s.unsent })) [
    | none ↦ none
    | some s' ↦ some (q, s')
  ]
]

-- How a query for several messages ends.
abbrev pub final_answer : Pending → Answer
final_answer p = elim p.error [ none ↦ sent_all p.messages | some e ↦ failed e ]

-- The query was answered.
abbrev pub finish : ℕ → ℕ → Answer → Sending → Sending
finish query_id query a s = answer query a (record s { pending = erase query_id s.pending })

-- `awaited_message_count--`, which ends the query if nothing is awaited then.
unfoldable pub settle_one : ℕ → Pending → Sending → Sending
settle_one query_id p s =
    if p.awaited_message_count == 1 then finish query_id p.query (final_answer p) s else record s {
      pending =
          insert query_id (record p { awaited_message_count = p.awaited_message_count - 1 })
            s.pending;
    }

abbrev pub settle_single : ℕ → Pending → Answer → Sending → Option Sending
settle_single query_id p a s =
    if p.awaited_message_count == 1 then some (finish query_id p.query a s) else none

-- `on_message_send_succeeded`; `encoded` is the answer for the message, or for its identifier if the
-- method copies or forwards.
unfoldable pub on_message_send_succeeded : MessageFullId → Bytes → Sending → Option Sending
unfolding extract settle_one
on_message_send_succeeded m encoded s = elim (extract m s) [
  | none ↦ none
  | some (q, s') ↦ elim (find q s'.pending) [
    | none ↦ none
    | some p ↦
        if p.is_multisend
        then some (settle_one q (record p { messages = p.messages ++ encoded ∷ [] }) s')
        else settle_single q p (sent encoded) s'
  ]
]

abbrev pub group_send_failed : Bytes
group_send_failed = codes "Group send failed"

-- Whether the first error of a query is still to be found.
abbrev pub takes_error : Option TdError → Bool
takes_error none = true
takes_error (some e) = e.message == group_send_failed

-- The error that a query for several messages keeps; `decimal` prints a position.
unfoldable pub merge_error : (ℕ → Bytes) → TdError → Pending → Option TdError
unfolding is_special_error_code
merge_error decimal e p =
    if takes_error p.error
    then if is_special_error_code e.code || (e.code == pos 406 || e.message == group_send_failed)
      then some e
      else some (record {
        code = e.code;
        message =
            codes "Failed to send message #"
            ++ (decimal (p.total_message_count - p.awaited_message_count + 1)
                ++ (codes " with the error message \"" ++ (e.message ++ codes "\"")));
      })
    else p.error

-- The end of `on_message_send_failed`: the failed message is deleted.
abbrev pub delete_failed : Bool → MessageFullId → Sending → Sending
delete_failed is_closing m s =
    if not (m.1 == 0) && not is_closing then record s { deletions = s.deletions ++ m ∷ [] } else s

abbrev pub delete_after : Bool → MessageFullId → Option Sending → Option Sending
delete_after is_closing m none = none
delete_after is_closing m (some s) = some (delete_failed is_closing m s)

-- `on_message_send_failed`; `is_closing` is `logging_out_ || closing_`.
unfoldable pub on_message_send_failed :
    (ℕ → Bytes) → Bool → MessageFullId → ℕ → TdError → Sending → Option Sending
unfolding extract settle_one merge_error
on_message_send_failed decimal is_closing m new_message_id e s = elim (extract m s) [
  | none ↦ none
  | some (q, s') ↦ elim (find q s'.pending) [
    | none ↦ none
    | some p ↦
        delete_after is_closing (m.0, new_message_id)
          (if p.is_multisend
            then some (settle_one q (record p { error = merge_error decimal e p }) s')
            else settle_single q p (failed e) s')
  ]
]

abbrev pub close_pending : Map ℕ Pending → List (ℕ × Answer)
close_pending [] = []
close_pending ((q, p) ∷ ps) = (p.query, closed) ∷ close_pending ps

-- The part of `on_closed` for these messages.
unfoldable pub close_messages : Sending → Sending
close_messages s = record s {
  unsent = [];
  counts = [];
  pending = [];
  answers = s.answers ++ close_pending s.pending;
}
