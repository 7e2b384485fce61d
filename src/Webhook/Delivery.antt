-- ===== src/Webhook/Delivery.antt =====
-- The updates that a `WebhookActor` has loaded, their queues, and the connections that carry them.
-- A failed `CHECK` stops the process, so each operation gives an `Option`.
pub mod Invariant
pub mod Load
pub mod Drop
mod Touch
pub mod Retry
pub mod Send
pub mod Headers
use core_telegram_api.Common.{
  ℕ, zero, suc, ◌+◌, ◌-◌, ◌*◌, ◌/◌, ◌%◌, ◌^◌, ◌≤◌, ◌<◌, min, max, ◌≡◌, refl, sym, ap, ◌∙◌, subst,
  ◌≢◌, ◌↔◌, ◌⊎◌, inl, inr, Bool, true, false, not, ◌&&◌, ◌||◌, Option, none, some, List, [], ◌∷◌,
  ◌++◌, map, arith, ltb, leb, if◌then◌else◌, ltb→lt, lt→ltb, leb→le, Bool-cases, Option-cases,
  length, take, All, length-append, length-take, Eq, ◌==◌, nat_eq, bytes_eq, int_eq, beq_refl,
  beq_ne, ℤ, pos, negsuc, leℤ, Map, Unique, find, insert, erase, find-insert, find-erase,
  length-insert, length-erase, Unique-insert, Unique-erase, count, hit, count-insert, count-erase,
  count_pos_of_find, Bytes, codes, is_prefix, prefix_rest, split_at_byte, append_nil,
  is_prefix-append, prefix_rest-append, split_at_byte-append, Lacks, lacks,
}
use core_telegram_api.Webhook.Queue.{Queue, emplace, entries, wakeup}

-- `WebhookActor::Update`. The identifiers of updates are valid `TQueue::EventId`s.
pub record Update : Type 0 where
  pub id : ℕ
  pub json : Bytes
  pub expires_at : ℕ
  pub last_send_time : ℕ
  pub wakeup_at : ℕ
  pub delay : ℕ
  pub fail_count : ℕ
  pub queue_id : ℤ

-- `WebhookActor::Connection`; `event_id` is `none` for the empty identifier, and `is_ready` says
-- that the node is in `ready_connections_`.
pub record Connection : Type 0 where
  pub event_id : Option ℕ
  pub ip_generation : ℕ
  pub is_ready : Bool

-- An event as `TQueue::get` returns it; `extra` is the queue identifier that was pushed with it.
pub record Event : Type 0 where
  pub id : ℕ
  pub text : Bytes
  pub expires_at : ℕ
  pub extra : ℤ

pub record Delivery : Type 0 where
  pub update_map : Map ℕ Update
  pub queue_updates : Map ℤ (List ℕ)
  pub queues : List Queue
  pub unique_queue_id : ℕ
  pub tqueue_offset : Option ℕ
  pub connections : Map ℕ Connection

abbrev pub or_empty : Option (List ℕ) → List ℕ
or_empty none = []
or_empty (some es) = es

-- The events of a queue, the first to send in front.
abbrev pub events : Delivery → ℤ → List ℕ
events d q = or_empty (find q d.queue_updates)

-- `queue_updates.event_ids.empty()` decides whether the queue gets an entry in `queues_`.
abbrev pub schedule_first : List ℕ → Queue → List Queue → List Queue
schedule_first [] q l = emplace q l
schedule_first (e ∷ es) q l = l

-- Queue 0 stands for a queue of its own, with the next unique identifier.
abbrev pub target_queue : Delivery → Event → ℤ
target_queue d ev = if ev.extra == pos 0 then pos d.unique_queue_id else ev.extra

abbrev pub next_unique : Delivery → Event → ℕ
next_unique d ev = if ev.extra == pos 0 then d.unique_queue_id + 1 else d.unique_queue_id

abbrev pub new_update : ℕ → Event → ℤ → Update
new_update now ev q = record {
  id = ev.id;
  json = ev.text;
  expires_at = ev.expires_at;
  last_send_time = 0;
  wakeup_at = now;
  delay = 1;
  fail_count = 0;
  queue_id = q;
}

-- The body of the loop over `updates` for an event that is not a duplicate.
unfoldable pub enqueue : ℕ → ℕ → Event → Delivery → Delivery
enqueue now next ev d =
    let q = target_queue d ev in
    record d {
      update_map = insert ev.id (new_update now ev q) d.update_map;
      queue_updates = insert q (events d q ++ ev.id ∷ []) d.queue_updates;
      queues = schedule_first (events d q) (record { wakeup_at = now; id = q }) d.queues;
      unique_queue_id = next_unique d ev;
      tqueue_offset = some next;
    }

-- One round of that loop. `next` is `EventId::next`; a duplicate is skipped.
unfoldable pub load_update : ℕ → ℕ → (ℕ → Option ℕ) → Event → Delivery → Option Delivery
load_update now unix_time next ev d = elim (find ev.id d.update_map) [
  | some u ↦ some d
  | none ↦
      if ltb ev.expires_at unix_time
      then none
      else elim (next ev.id) [ none ↦ none | some n ↦ some (enqueue now n ev d) ]
]

unfoldable pub load_all : ℕ → ℕ → (ℕ → Option ℕ) → List Event → Delivery → Option Delivery
load_all now unix_time next [] d = some d
load_all now unix_time next (ev ∷ evs) d = elim (load_update now unix_time next ev d) [
  | none ↦ none
  | some d' ↦ load_all now unix_time next evs d'
]

-- What `drop_event` does with the rest of a queue: forget an empty queue, or schedule its first
-- update.
unfoldable pub requeue : ℤ → List ℕ → Delivery → Option Delivery
requeue q [] d = some (record d { queue_updates = erase q d.queue_updates })
requeue q (e ∷ es) d = elim (find e d.update_map) [
  | none ↦ none
  | some u ↦ some (record d {
    queue_updates = insert q (e ∷ es) d.queue_updates;
    queues = emplace (record { wakeup_at = u.wakeup_at; id = u.queue_id }) d.queues;
  })
]

-- `pop` of the front of a queue, which must be `e`.
abbrev pub pop_front : ℕ → Option (List ℕ) → Option (List ℕ)
pop_front e none = none
pop_front e (some []) = none
pop_front e (some (x ∷ es)) = if e == x then some es else none

-- `drop_event`, up to the call of `TQueue::forget`.
unfoldable pub drop_event : ℕ → Delivery → Option Delivery
unfolding requeue
drop_event e d = elim (find e d.update_map) [
  | none ↦ none
  | some u ↦ elim (pop_front e (find u.queue_id d.queue_updates)) [
    | none ↦ none
    | some es ↦ requeue u.queue_id es (record d { update_map = erase e d.update_map })
  ]
]

abbrev pub max_retry_after : ℕ
max_retry_after = 3600

abbrev pub second : ℕ
second = 1000000000

-- `td::clamp(retry_after, 0, MAX_RETRY_AFTER)`.
abbrev pub clamp_retry_after : ℤ → ℕ
clamp_retry_after (pos n) = min n max_retry_after
clamp_retry_after (negsuc n) = 0

abbrev pub backs_off : Update → ℕ → Bool
backs_off u retry_after = retry_after == 0 && ltb 0 u.fail_count

-- The delay to remember, and the delay before the next attempt, in seconds. `max_timeout` is the
-- random limit between `WEBHOOK_MAX_RESEND_TIMEOUT` and twice that.
unfoldable pub next_delay : Update → ℕ → ℕ → ℕ
next_delay u retry_after max_timeout =
    if backs_off u retry_after then min max_timeout (u.delay * 2) else u.delay

unfoldable pub next_effective_delay : Update → ℕ → ℕ → ℕ
unfolding next_delay
next_effective_delay u retry_after max_timeout =
    if backs_off u retry_after then next_delay u retry_after max_timeout else retry_after

-- The update with its new delay, due again at `now` and the effective delay.
unfoldable pub delayed : ℕ → Update → ℕ → ℕ → Update
unfolding next_delay next_effective_delay
delayed now u retry_after max_timeout = record u {
  delay = next_delay u retry_after max_timeout;
  wakeup_at = now + next_effective_delay u retry_after max_timeout * second;
  fail_count = u.fail_count + 1;
}

unfoldable pub put_back : ℕ → Update → Delivery → Delivery
put_back e u d = record d {
  update_map = insert e u d.update_map;
  queues = emplace (record { wakeup_at = u.wakeup_at; id = u.queue_id }) d.queues;
}

-- `on_update_error`; `unix_time` is `get_unix_time(now)`.
unfoldable pub on_update_error : ℕ → ℕ → ℕ → ℤ → ℕ → Delivery → Option Delivery
unfolding put_back delayed
on_update_error now unix_time max_timeout retry_after e d = elim (find e d.update_map) [
  | none ↦ none
  | some u ↦
      let r = clamp_retry_after retry_after in
      if ltb u.expires_at (unix_time + next_effective_delay u r max_timeout)
      then drop_event e d
      else some (put_back e (delayed now u r max_timeout) d)
]

-- Why `send_update` sent nothing.
pub data Refusal : Type 0 where
  no_connection no_pending_updates no_ready_updates url_is_too_long : Refusal

-- `relax_wakeup_at` is asked for at the given time.
pub data Sent : Type 0 where
  sent : ℕ → ℕ → Sent
  refused : Refusal → Sent
  not_before : ℕ → Sent

abbrev pub first? : Option (List ℕ) → Option ℕ
first? none = none
first? (some []) = none
first? (some (e ∷ es)) = some e

-- The write of an update to the connection that `ready_connections_.get()` took out.
unfoldable pub assign : ℕ → ℕ → Connection → Delivery → Delivery
assign e c k d = record d {
  connections = insert c (record k { event_id = some e; is_ready = false }) d.connections;
}

-- `send_update` from the first entry of `queues_` on; `header_fits` is the answer of
-- `HttpHeaderCreator::finish`.
unfoldable pub send_first : ℕ → Bool → ℕ → Connection → Delivery → Option (Sent × Delivery)
unfolding assign
send_first now header_fits c k d = elim d.queues [
  | [] ↦ some (refused no_pending_updates, d)
  | q ∷ l ↦
      if ltb now q.wakeup_at
      then some (not_before q.wakeup_at, d)
      else if q.id == pos 0
      then none
      else elim (first? (find q.id d.queue_updates)) [
        | none ↦ none
        | some e ↦ elim (find e d.update_map) [
          | none ↦ none
          | some u ↦
              let d' = record d {
                queues = l;
                update_map = insert e (record u { last_send_time = now }) d.update_map;
              } in
              if header_fits
              then some (sent u.id c, assign u.id c k d')
              else some (refused url_is_too_long, d')
        ]
      ]
]

-- `send_update`; `ready` is the connection that `ready_connections_.get()` gives, if any.
unfoldable pub send_update : ℕ → Bool → Option ℕ → Delivery → Option (Sent × Delivery)
unfolding send_first
send_update now header_fits none d = some (refused no_connection, d)
send_update now header_fits (some c) d = elim (find c d.connections) [
  | none ↦ none
  | some k ↦ send_first now header_fits c k d
]

-- The end of `handle`: the answered connection is free again, or closed.
unfoldable pub release_connection : ℕ → Connection → Delivery → Delivery
release_connection c k d = record d {
  connections = insert c (record k { event_id = none; is_ready = true }) d.connections;
}

unfoldable pub close_connection : ℕ → Delivery → Delivery
close_connection c d = record d { connections = erase c d.connections }

-- `create_connection(fd)`: a new connection is ready. `c` is the identifier that
-- `connections_.create` gives.
unfoldable pub open_connection : ℕ → ℕ → Delivery → Delivery
open_connection c generation d = record d {
  connections =
      insert c (record { event_id = none; ip_generation = generation; is_ready = true })
        d.connections;
}
