-- ===== src/Receiving/Updates.antt =====
-- Getting updates: `process_get_updates_query`, `do_get_updates` and `long_poll_wakeup` in
-- telegram-bot-api/Client.cpp.
use core_telegram_api.Common.{
  ℕ, ◌+◌, ◌-◌, ◌*◌, ◌/◌, min, Bool, true, false, not, ◌&&◌, ◌||◌, Option, none, some, List, [], ◌∷◌,
  ltb, leb, if◌then◌else◌, length, ◌==◌, nat_eq, bytes_eq, int_eq, ℤ, pos, negsuc, codes,
}
use core_telegram_api.Query.{Query, arg}
use core_telegram_api.WebhookInfo.{is_empty, get_integer_arg}
use core_telegram_api.Manager.{second}
use core_telegram_api.Receiving.{
  Asked, answered_updates, Tdlib, Receiving, is_present, reply, fail_query_conflict,
  abort_long_poll,
}
use core_telegram_api.Receiving.Webhook.{update_allowed_update_types}

abbrev pub long_poll_max_timeout : ℕ
long_poll_max_timeout = 50

abbrev pub long_poll_max_delay : ℕ
long_poll_max_delay = 2000000

abbrev pub long_poll_wait_after : ℕ
long_poll_wait_after = 1000000

abbrev pub answer_size : ℕ
answer_size = 4194304

module _ {Q U : Type 0} (lib : Tdlib Q U) where
  -- `JsonUpdates`: the updates that fit in an answer of `left_len` bytes.
  unfoldable pub json_updates : ℕ → List U → List U
  json_updates left_len [] = []
  json_updates left_len (u ∷ us) =
      let rest = json_updates (left_len - (50 + lib.data_size u)) us in
      if leb left_len (50 + lib.data_size u) then [] else u ∷ rest

  -- A negative offset leaves that many updates.
  abbrev pub forget : ℤ → Q → Q
  forget (pos n) queue = queue
  forget (negsuc n) queue = lib.clear (n + 1) queue

  abbrev pub is_positive : ℤ → Bool
  is_positive (pos n) = ltb 0 n
  is_positive (negsuc n) = false

  abbrev pub or_head : ℤ → Q → ℤ
  or_head offset queue = if is_positive offset then offset else lib.get_head queue

  abbrev pub get_at : Option ℤ → ℕ → ℕ → Q → Option (List U × ℕ × Q)
  get_at none limit date queue = none
  get_at (some from) limit date queue = lib.get from limit date queue

  -- The updates from an offset on, or from the head if there are none.
  unfoldable pub get_from : ℤ → ℕ → ℕ → Q → Option (List U × ℕ × Q)
  get_from offset limit date queue = elim (get_at (lib.from_int32 offset) limit date queue) [
    | some r ↦ some r
    | none ↦ lib.get (lib.get_head queue) limit date queue
  ]

  unfoldable pub find_updates : ℤ → ℕ → ℕ → Q → Option (List U × ℕ × Q)
  unfolding get_from
  find_updates offset limit date queue =
      if is_positive offset then get_from offset limit date queue else some ([], 0, queue)

  -- The end of `do_get_updates`: the query waits, or is answered.
  unfoldable pub hold_or_answer : ℕ → ℤ → ℕ → ℕ → List U → Asked → Receiving Q U → Receiving Q U
  unfolding abort_long_poll json_updates
  hold_or_answer now offset limit timeout us q s =
      if not (timeout == 0) && length us == 0
      then record (abort_long_poll now false s) {
        long_poll_offset = offset;
        long_poll_limit = limit;
        long_poll_query = some q;
        long_poll_was_wakeup = false;
        long_poll_hard_timeout = now + timeout * second;
        long_poll_slot = now + timeout * second;
      }
      else reply q (answered_updates (json_updates answer_size us)) s

  -- `do_get_updates`; `date` is `get_unix_time()`.
  unfoldable pub do_get_updates : ℕ → ℕ → ℤ → ℕ → ℕ → Asked → Receiving Q U → Option (Receiving Q U)
  unfolding find_updates hold_or_answer
  do_get_updates now date offset limit timeout q s =
      let queue = forget offset s.updates in
      let from = or_head offset queue in
      elim (find_updates from limit date queue) [
        | none ↦ none
        | some (us, total, left) ↦
            if ltb total (length us)
            then none
            else some (hold_or_answer now from limit timeout us q (record s { updates = left }))
      ]

  abbrev pub offset_of : Query → ℤ
  offset_of q = let s = arg (codes "offset") q.args in if is_empty s then pos 0 else lib.to_int32 s

  -- A client that asks again within half a second gets one update, and one that asks again within
  -- three seconds waits for three.
  abbrev pub is_again : Query → Receiving Q U → Bool
  is_again q s = offset_of q == s.previous_get_updates_offset

  abbrev pub limit_of : ℕ → Query → Receiving Q U → ℕ
  limit_of now q s =
      if is_again q s && ltb now (s.previous_get_updates_start_time + second / 2)
      then 1
      else get_integer_arg lib.text q.args (codes "limit") 100 1 100

  abbrev pub timeout_of : ℕ → Query → Receiving Q U → ℕ
  timeout_of now q s =
      let timeout = get_integer_arg lib.text q.args (codes "timeout") 0 0 long_poll_max_timeout in
      if is_again q s && (ltb timeout 3 && ltb now (s.previous_get_updates_start_time + 3 * second))
      then 3
      else timeout

  abbrev pub asked_for : ℕ → Query → Receiving Q U → Receiving Q U
  asked_for now q s = record s {
    settings = record s.settings {
      allowed_update_types = update_allowed_update_types lib q s.settings.allowed_update_types;
    };
    previous_get_updates_offset = offset_of q;
    previous_get_updates_start_time = now;
  }

  -- `process_get_updates_query`.
  unfoldable pub process_get_updates_query : ℕ → ℕ → Asked → Receiving Q U → Option (Receiving Q U)
  unfolding fail_query_conflict do_get_updates
  process_get_updates_query now date q s =
      if not (is_empty s.settings.url)
        || (is_present s.webhook_set_query || is_present s.active_webhook_set_query)
      then some (
          fail_query_conflict now
            (codes
              "Conflict: can't use getUpdates method while webhook is active; use deleteWebhook to delete the webhook first")
            q s)
      else do_get_updates now date (offset_of q.request) (limit_of now q.request s)
          (timeout_of now q.request s) q (asked_for now q.request s)

  -- `long_poll_wakeup`.
  unfoldable pub long_poll_wakeup : ℕ → ℕ → Bool → Receiving Q U → Option (Receiving Q U)
  unfolding do_get_updates
  long_poll_wakeup now date force_flag s = elim s.long_poll_query [
    | none ↦ some s
    | some q ↦
        if force_flag
        then do_get_updates now date s.long_poll_offset s.long_poll_limit 0 q
            (record s { long_poll_query = none })
        else let hard =
            if s.long_poll_was_wakeup
            then s.long_poll_hard_timeout
            else min (now + long_poll_max_delay) s.long_poll_hard_timeout in
          some (record s {
            long_poll_was_wakeup = true;
            long_poll_hard_timeout = hard;
            long_poll_slot = min (now + long_poll_wait_after) hard;
          })
  ]
