-- ===== src/Webhook/Actor.antt =====
-- The handlers of `WebhookActor` that load updates and take the answers of the webhook.
-- Each handler is given the clock's time, and gives `none` where a `CHECK` fails.
pub mod Loading
pub mod Answers
use core_telegram_api.Common.{
  ℕ, zero, suc, ◌+◌, ◌-◌, ◌*◌, ◌/◌, ◌%◌, ◌^◌, ◌≤◌, ◌<◌, min, max, ◌≡◌, refl, sym, ap, ◌∙◌, subst,
  ◌≢◌, ◌↔◌, ◌⊎◌, inl, inr, Bool, true, false, not, ◌&&◌, ◌||◌, Option, none, some, List, [], ◌∷◌,
  ◌++◌, map, arith, ltb, leb, if◌then◌else◌, ltb→lt, lt→ltb, leb→le, Bool-cases, Option-cases,
  length, take, All, length-append, length-take, Eq, ◌==◌, nat_eq, bytes_eq, int_eq, beq_refl,
  beq_ne, ℤ, pos, negsuc, leℤ, Map, Unique, find, insert, erase, find-insert, find-erase,
  length-insert, length-erase, Unique-insert, Unique-erase, count, hit, count-insert, count-erase,
  count_pos_of_find, Bytes, codes, is_prefix, prefix_rest, split_at_byte, append_nil,
  is_prefix-append, prefix_rest-append, split_at_byte-append, Lacks, lacks,
}
use core_telegram_api.Webhook.Queue.{Queue}
use core_telegram_api.Webhook.Delivery.{
  Update, Connection, Event, Delivery, events, load_all, drop_event, on_update_error, send_update,
  close_connection, release_connection, Sent, sent, refused, not_before,
}

-- What the actor sends to others: the calls of its `Callback`, and `TQueue::forget`.
pub data Effect : Type 0 where
  webhook_success : Effect
  webhook_error : Bytes → Effect
  send_query : Bytes → Effect
  forget : ℕ → Effect

pub record Actor : Type 0 where
  pub delivery : Delivery
  pub open delivery use *
  pub tqueue_empty : Bool
  pub last_pending_update_count : ℕ
  pub max_loaded_updates : ℕ
  pub was_checked : Bool
  pub first_error_410_time : ℕ
  pub ip_generation : ℕ
  pub last_error_time : ℕ
  pub last_error_message : Bytes
  pub last_success_time : ℕ
  pub wakeup_at : ℕ
  pub last_update_was_successful : Bool
  pub total_connection_count : ℕ
  pub effects : List Effect

abbrev pub emit : Effect → Actor → Actor
emit e a = record a { effects = a.effects ++ e ∷ [] }

-- `relax_wakeup_at`.
unfoldable pub relax_wakeup_at : ℕ → Actor → Actor
relax_wakeup_at t a =
    if a.wakeup_at == 0 || ltb t a.wakeup_at then record a { wakeup_at = t } else a

-- `on_webhook_error`.
unfoldable pub on_webhook_error : ℕ → Bytes → Actor → Actor
on_webhook_error now error a =
    if a.was_checked
    then record (emit (webhook_error error) a) { last_error_time = now; last_error_message = error }
    else a

-- The shared update queue as the actor meets it: `get_head`, `get` without forgetting, and
-- `EventId::next`. `none` is the empty identifier, or an error.
pub record Tqueue : Type 0 where
  pub head : Option ℕ
  pub get : Option ℕ → ℕ → Option (ℕ × List Event)
  pub next : ℕ → Option ℕ

abbrev pub tqueue_event_buffer_size : ℕ
tqueue_event_buffer_size = 1000

abbrev pub min_pending_updates_warning : ℕ
min_pending_updates_warning = 50

-- `while (total_size >= last) last *= 2`, on fuel.
unfoldable pub raise_pending : ℕ → ℕ → ℕ → Option ℕ
raise_pending zero total last = none
raise_pending (suc f) total last =
    let rest = raise_pending f total (last * 2) in if leb last total then rest else some last

-- The update of `last_pending_update_count_`. `total + 1` rounds are enough.
unfoldable pub next_pending : ℕ → ℕ → Option ℕ
next_pending total last =
    if leb total 25
    then some (if ltb min_pending_updates_warning last then min_pending_updates_warning else last)
    else if leb last total
    then raise_pending (total + 1) total last
    else some last

abbrev pub start_offset : Tqueue → Option ℕ → Option ℕ
start_offset tq none = tq.head
start_offset tq (some o) = some o

-- `TQueue::get`, once more from the head of the queue if the offset is refused. The offset comes
-- back with the total size and the events.
unfoldable pub fetch : Tqueue → ℕ → Option ℕ → Option (Option ℕ × (ℕ × List Event))
fetch tq limit none = some (none, (0, []))
fetch tq limit (some o) = elim (tq.get (some o) limit) [
  | some r ↦ some (some o, r)
  | none ↦ elim (tq.get tq.head limit) [ some r ↦ some (tq.head, r) | none ↦ none ]
]

abbrev pub no_events : List Event → Bool
no_events [] = true
no_events (e ∷ es) = false

-- `load_updates` once the events are there.
unfoldable pub take_events :
    ℕ → ℕ → (ℕ → Option ℕ) → Option ℕ → ℕ → List Event → Actor → Option Actor
take_events now unix_time next offset total evs a =
    elim (load_all now unix_time next evs (record (a.delivery) { tqueue_offset = offset })) [
      | none ↦ none
      | some d ↦ elim (next_pending total a.last_pending_update_count) [
        | none ↦ none
        | some n ↦
            let b = record a {
              delivery = d;
              tqueue_empty = a.tqueue_empty || no_events evs;
              last_pending_update_count = n;
            } in
            some (
              if length evs == total && a.last_update_was_successful
              then emit webhook_success b
              else b)
      ]
    ]

abbrev pub load_limit : Actor → ℕ
load_limit a = min tqueue_event_buffer_size (a.max_loaded_updates - length a.queue_updates)

unfoldable pub load_updates : Tqueue → ℕ → ℕ → Actor → Option Actor
unfolding take_events fetch
load_updates tq now unix_time a =
    if a.tqueue_empty
    then some a
    else if leb a.max_loaded_updates (length a.queue_updates)
    then if length a.queue_updates == a.max_loaded_updates then some a else none
    else elim (fetch tq (load_limit a) (start_offset tq a.tqueue_offset)) [
      | none ↦ none
      | some (offset, (total, evs)) ↦ take_events now unix_time tq.next offset total evs a
    ]

-- `on_update_ok`.
unfoldable pub on_update_ok : ℕ → ℕ → Actor → Option Actor
on_update_ok now e a = elim (drop_event e a.delivery) [
  | none ↦ none
  | some d ↦ some (
      emit (forget e)
        (record a { delivery = d; last_update_was_successful = true; last_success_time = now }))
]

abbrev pub forget_if_dropped : ℕ → Actor → Actor
forget_if_dropped e a = elim (find e a.update_map) [ none ↦ emit (forget e) a | some u ↦ a ]

-- `on_update_error`; `forget` is called when the update was dropped.
unfoldable pub on_error_answer : ℕ → ℕ → ℕ → ℤ → ℕ → Actor → Option Actor
on_error_answer now unix_time max_timeout retry_after e a =
    elim (on_update_error now unix_time max_timeout retry_after e a.delivery) [
      | none ↦ none
      | some d ↦
          some (forget_if_dropped e (record a { delivery = d; last_update_was_successful = false }))
    ]

-- An answer as the HTTP library gives it. `method` is the argument "method" in lower case, and
-- `text` the answer as it is printed in an error.
pub record Response : Type 0 where
  pub is_response : Bool
  pub keep_alive : Bool
  pub code : ℕ
  pub reason : Bytes
  pub method : Bytes
  pub retry_after : ℤ
  pub text : Bytes

abbrev pub method_is : Response → Bytes → Bool
method_is r m = r.method == m

-- Whether the answer holds a request to run.
unfoldable pub is_reply : Response → Bool
is_reply r =
    not (method_is r [])
    && not (method_is r (codes "deletewebhook"))
    && not (method_is r (codes "setwebhook"))
    && not (method_is r (codes "close"))
    && not (method_is r (codes "logout"))
    && not (is_prefix (codes "get") r.method)

-- `WEBHOOK_DROP_TIMEOUT`, 23 hours.
abbrev pub webhook_drop_timeout : ℕ
webhook_drop_timeout = 82800000000000

-- The variables that `handle` sets from the answer, and the actor by then.
pub record Verdict : Type 0 where
  pub close_connection : Bool
  pub query_error : Option Bytes
  pub retry_after : ℤ
  pub need_close : Bool
  pub actor : Actor

-- A `2xx` answer.
unfoldable pub judge_success : Bool → Response → Actor → Verdict
unfolding is_reply
judge_success closing r a = record {
  close_connection = closing;
  query_error = none;
  retry_after = pos 0;
  need_close = false;
  actor =
      let b = record a { first_error_410_time = 0 } in
      if is_reply r then emit (send_query r.method) b else b;
}

-- The new `first_error_410_time_` after an answer that is no success.
unfoldable pub next_410 : ℕ → ℕ → ℕ → ℕ
next_410 now code first = if code == 410 then if first == 0 then now else first else 0

unfoldable pub gone_for_long : ℕ → ℕ → ℕ → Bool
gone_for_long now code first =
    code == 410 && (not (first == 0) && ltb (first + webhook_drop_timeout) now)

-- Any other answer; `wrong` is the text of the error.
unfoldable pub judge_failure : ℕ → Bool → Bytes → Response → Actor → Verdict
unfolding next_410 gone_for_long on_webhook_error
judge_failure now closing wrong r a = record {
  close_connection = closing;
  query_error = some wrong;
  retry_after = r.retry_after;
  need_close = gone_for_long now r.code a.first_error_410_time;
  actor =
      on_webhook_error now wrong
        (record a { first_error_410_time = next_410 now r.code a.first_error_410_time });
}

-- What is no HTTP response.
unfoldable pub judge_garbage : ℕ → Bool → Response → Actor → Verdict
unfolding on_webhook_error
judge_garbage now closing r a = record {
  close_connection = closing;
  query_error = some (codes "Wrong response from the webhook: " ++ r.text);
  retry_after = pos 0;
  need_close = false;
  actor = on_webhook_error now (codes "Wrong response from the webhook: " ++ r.text) a;
}

-- `decimal` prints a status code.
abbrev pub wrong_response : (ℕ → Bytes) → Response → Bytes
wrong_response decimal r =
    codes "Wrong response from the webhook: " ++ (decimal r.code ++ (codes " " ++ r.reason))

-- `none` is the hangup of a connection.
unfoldable pub judge : (ℕ → Bytes) → ℕ → Connection → Option Response → Actor → Verdict
unfolding judge_success judge_failure judge_garbage
judge decimal now k none a = record {
  close_connection = true;
  query_error = some (codes "Webhook connection closed");
  retry_after = pos 0;
  need_close = false;
  actor = a;
}
judge decimal now k (some r) a =
    let closing =
      not r.is_response || (not r.keep_alive || not (a.ip_generation == k.ip_generation)) in
    if r.is_response
    then if leb 200 r.code && leb r.code 299
      then judge_success closing r a
      else judge_failure now closing (wrong_response decimal r) r a
    else judge_garbage now closing r a

-- The part of `handle` that settles the update of the connection. An answer with no error on a
-- connection that carries nothing fails a `CHECK`.
unfoldable pub settle : ℕ → ℕ → ℕ → Verdict → Option ℕ → Option Actor
unfolding on_update_ok on_error_answer
settle now unix_time max_timeout v none = elim v.query_error [
  | none ↦ none
  | some error ↦ some v.actor
]
settle now unix_time max_timeout v (some e) = elim v.query_error [
  | none ↦ on_update_ok now e v.actor
  | some error ↦ on_error_answer now unix_time max_timeout v.retry_after e v.actor
]

abbrev pub u64_mod : ℕ
u64_mod = 2 ^ 64

-- The end of `handle`: the connection is closed, or free again.
unfoldable pub let_go : ℕ → Connection → Bool → Actor → Actor
let_go c k closing a =
    if closing
    then record a {
      delivery = close_connection c a.delivery;
      total_connection_count = (a.total_connection_count + u64_mod - 1) % u64_mod;
    }
    else record a { delivery = release_connection c k a.delivery }

-- What `handle` calls last: nothing, `close` later, or `loop`.
pub data Ending : Type 0 where
  ignored closes loops : Ending

unfoldable pub handle :
    (ℕ → Bytes) → ℕ → ℕ → ℕ → ℕ → Option Response → Actor → Option (Actor × Ending)
handle decimal now unix_time max_timeout c response a = elim (find c a.connections) [
  | none ↦ some (a, ignored)
  | some k ↦
      let v = judge decimal now k response a in
      elim (settle now unix_time max_timeout v k.event_id) [
        | none ↦ none
        | some b ↦ some (
          let_go c k (v.need_close || v.close_connection) b,
          (if v.need_close then closes else loops),
        )
      ]
]

-- `while (send_update().is_ok())`, on fuel: `ready` is the choice of `ready_connections_.get()`,
-- and one round more than there are ready connections is enough. `fits` is what
-- `HttpHeaderCreator::finish` answers for the update that is to be sent.
unfoldable pub send_updates :
    ℕ → ℕ → (Delivery → Bool) → (Delivery → Option ℕ) → Actor → Option Actor
send_updates zero now fits ready a = none
send_updates (suc f) now fits ready a =
    elim (send_update now (fits a.delivery) (ready a.delivery) a.delivery) [
      | none ↦ none
      | some (sent e c, d) ↦ send_updates f now fits ready (record a { delivery = d })
      | some (refused r, d) ↦ some (record a { delivery = d })
      | some (not_before t, d) ↦ some (relax_wakeup_at t (record a { delivery = d }))
    ]
