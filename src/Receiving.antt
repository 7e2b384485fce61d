-- ===== src/Receiving.antt =====
-- How a bot gets its updates: the webhook that is set, replaced and closed, and the request for
-- updates that waits, in telegram-bot-api/Client.h and Client.cpp.
pub mod Webhook
pub mod Updates
pub mod Closing
pub mod Invariant
pub mod Setting
pub mod Replacing
pub mod Reporting
pub mod Polling
pub mod Ending
pub mod History
pub mod Sizes
pub mod Restart
use core_telegram_api.Common.{
  ℕ, zero, suc, ◌+◌, ◌-◌, ◌*◌, ◌/◌, ◌%◌, ◌^◌, ◌≤◌, ◌<◌, min, max, ◌≡◌, refl, sym, ap, ◌∙◌, subst,
  ◌≢◌, ◌↔◌, ◌⊎◌, inl, inr, Bool, true, false, not, ◌&&◌, ◌||◌, Option, none, some, List, [], ◌∷◌,
  ◌++◌, map, arith, ltb, leb, if◌then◌else◌, ltb→lt, lt→ltb, leb→le, Bool-cases, Option-cases,
  length, take, All, length-append, length-take, Eq, ◌==◌, nat_eq, bytes_eq, int_eq, beq_refl,
  beq_ne, ℤ, pos, negsuc, leℤ, Map, Unique, find, insert, erase, find-insert, find-erase,
  length-insert, length-insert_present, length-erase, Unique-insert, Unique-erase, count, hit,
  count-insert, count-erase, count_pos_of_find, tally, weight_at, tally-insert, tally-erase,
  tally_pos, Bytes, codes, is_prefix, prefix_rest, split_at_byte, append_nil, is_prefix-append,
  prefix_rest-append, split_at_byte-append, Lacks, lacks,
}
use core_telegram_api.Manager.{second}
use core_telegram_api.Query.{Query, arg}
use core_telegram_api.WebhookInfo.{Settings, TextLibrary}
use core_telegram_api.UpdateTypes.{JsonValue}

-- A query that came in, under an identifier of its own.
pub record Asked : Type 0 where
  pub id : ℕ
  pub request : Query

-- How a query ends: with `true` and a description, with updates, with an error, with error 409 three
-- seconds later, or with error 429.
pub data Outcome (U : Type 0) : Type 0 where
  answered_true : Bytes → Outcome U
  answered_updates : List U → Outcome U
  failed_with : ℕ → Bytes → Outcome U
  failed_later : Bytes → Outcome U
  retry_after : ℕ → Outcome U

-- What the code uses of tdlib: its texts, and the queue of a bot's updates in `td::TQueue`, where
-- `get` may drop old updates, takes an identifier, a limit and the date, and gives updates and how
-- many there are in all. `parses_url` says that `td::parse_url` succeeds. The last two are
-- `local_mode_` and `default_max_webhook_connections_` of the parameters of the server.
pub record Tdlib (Q U : Type 0) : Type 0 where
  pub text : TextLibrary
  pub json_decode : Bytes → Option JsonValue
  pub to_integer_safe : Bytes → Option ℕ
  pub to_int32 : Bytes → ℤ
  pub to_lower : Bytes → Bytes
  pub trim : Bytes → Bytes
  pub parses_url : Bytes → Bool
  pub is_base64url_characters : Bytes → Bool
  pub clear : ℕ → Q → Q
  pub get_head : Q → ℤ
  pub from_int32 : ℤ → Option ℤ
  pub get : ℤ → ℕ → ℕ → Q → Option (List U × ℕ × Q)
  pub data_size : U → ℕ
  pub local_mode : Bool
  pub default_max_webhook_connections : ℕ

-- What it relies on: the updates from the head on can be had, and are not more than there are.
pub record IsTdlib {Q U : Type 0} (lib : Tdlib Q U) : Type 0 where
  pub get_from_head :
      (limit now : ℕ) (queue : Q) → lib.get (lib.get_head queue) limit now queue ≢ none
  pub get_total :
      (from : ℤ) (limit now : ℕ) (queue : Q) (us : List U) (total : ℕ) (left : Q)
      → lib.get from limit now queue ≡ some (us, total, left)
      → length us ≤ total

-- `WebhookQueryType`.
pub data WebhookQueryType : Type 0 where
  cancel verify : WebhookQueryType

-- The part of `Client` that concerns how updates are received. `has_webhook` says that `webhook_id_`
-- is set, `has_td_client` that `td_client_` is, `stored` is what the webhook database has, and
-- `answers` are the queries that were answered. Times are in nanoseconds.
pub record Receiving (Q U : Type 0) : Type 0 where
  pub settings : Settings
  pub has_webhook : Bool
  pub webhook_query_type : WebhookQueryType
  pub webhook_set_query : Option Asked
  pub active_webhook_set_query : Option Asked
  pub webhook_generation : ℕ
  pub next_allowed_set_webhook_time : ℕ
  pub stored : Option Bytes
  pub long_poll_query : Option Asked
  pub long_poll_offset : ℤ
  pub long_poll_limit : ℕ
  pub long_poll_was_wakeup : Bool
  pub long_poll_hard_timeout : ℕ
  pub long_poll_slot : ℕ
  pub previous_get_updates_offset : ℤ
  pub previous_get_updates_start_time : ℕ
  pub next_get_updates_conflict_time : ℕ
  pub updates : Q
  pub logging_out : Bool
  pub closing : Bool
  pub is_api_id_invalid : Bool
  pub clear_tqueue : Bool
  pub next_authorization_time : ℕ
  pub has_td_client : Bool
  pub answers : List (ℕ × Outcome U)

abbrev pub is_present : {A : Type 0} → Option A → Bool
is_present none = false
is_present (some x) = true

-- `to_bool`.
unfoldable pub to_bool : {Q U : Type 0} → Tdlib Q U → Bytes → Bool
to_bool lib value =
    let v = lib.trim (lib.to_lower value) in
    v == codes "true" || (v == codes "yes" || v == codes "1")

abbrev pub is_closing : {Q U : Type 0} → Receiving Q U → Bool
is_closing s = s.logging_out || s.closing

abbrev pub reply : {Q U : Type 0} → Asked → Outcome U → Receiving Q U → Receiving Q U
reply q o s = record s { answers = s.answers ++ (q.id, o) ∷ [] }

-- `get_closing_error`, as the outcome that it leads to; a client that is not closing fails a `CHECK`.
unfoldable pub get_closing_error : {Q U : Type 0} → ℕ → Receiving Q U → Option (Outcome U)
get_closing_error now s =
    if s.logging_out
    then if s.is_api_id_invalid
      then some (failed_with 401 (codes "Unauthorized: invalid api-id/api-hash"))
      else if ltb 0 s.next_authorization_time
      then some (retry_after ((s.next_authorization_time - now) / second + 1))
      else if s.clear_tqueue
      then some (failed_with 400 (codes "Logged out"))
      else some (failed_with 401 (codes "Unauthorized"))
    else if s.closing
    then some (failed_with 500 (codes "Internal Server Error: restart"))
    else none

-- `fail_query_closing`.
unfoldable pub fail_query_closing :
    {Q U : Type 0} → ℕ → Asked → Receiving Q U → Option (Receiving Q U)
unfolding get_closing_error
fail_query_closing now q s = elim (get_closing_error now s) [
  | none ↦ none
  | some o ↦ some (reply q o s)
]

-- `fail_query_conflict`: at once, or after three seconds.
unfoldable pub fail_query_conflict :
    {Q U : Type 0} → ℕ → Bytes → Asked → Receiving Q U → Receiving Q U
fail_query_conflict now message q s =
    if leb s.next_get_updates_conflict_time now
    then record (reply q (failed_with 409 message) s) {
      next_get_updates_conflict_time = now + 3 * second;
    }
    else reply q (failed_later message) s

abbrev pub abort_message : Bool → Bytes
abort_message from_set_webhook =
    if from_set_webhook
    then codes "Conflict: terminated by setWebhook request"
    else codes
        "Conflict: terminated by other getUpdates request; make sure that only one bot instance is running"

-- `abort_long_poll`.
unfoldable pub abort_long_poll : {Q U : Type 0} → ℕ → Bool → Receiving Q U → Receiving Q U
unfolding fail_query_conflict
abort_long_poll now from_set_webhook s = elim s.long_poll_query [
  | none ↦ s
  | some q ↦
      fail_query_conflict now (abort_message from_set_webhook) q
        (record s { long_poll_query = none })
]
