-- ===== src/Tests/Deliveries.antt =====
-- A bot with one update of 100 seconds and two connections to its webhook.
use core_telegram_api.Common.{
  ℕ, Bool, zero, suc, ◌+◌, ◌^◌, ◌≤◌, ◌<◌, ◌≡◌, refl, sym, ◌≢◌, ◌⊎◌, inl, inr, true, false, Option,
  none, some, List, [], ◌∷◌, arith, if◌then◌else◌, Bool-cases, length, All, ◌==◌, nat_eq, bytes_eq,
  int_eq, ℤ, pos, Map, Unique, find, count, Bytes, codes,
}
use core_telegram_api.Webhook.Queue.{entries, wakeup}
use core_telegram_api.Webhook.Delivery.{Update, Connection, Event, Delivery, or_empty}
use core_telegram_api.Webhook.Delivery.{
  drop_event, on_update_error, next_delay, next_effective_delay, clamp_retry_after, send_update,
}
use core_telegram_api.Webhook.Delivery.Headers.{Stranded, send_update-Stranded}
use core_telegram_api.Webhook.Delivery.Drop.{Dropped, drop_event-Dropped}
use core_telegram_api.Webhook.Delivery.Retry.{Outcome, on_update_error-Outcome, next_delay_bounds}
use core_telegram_api.Webhook.Delivery.Load.{IsFit}
use core_telegram_api.Webhook.Actor.{
  Actor, Tqueue, next_pending, min_pending_updates_warning, load_updates, send_updates, handle,
  Response,
}
use core_telegram_api.Webhook.Actor.Loading.{
  IsGoodActor, IsGoodTqueue, Keeps, load_updates-Keeps, Drained, send_updates-Drained,
  next_pending_total,
}
use core_telegram_api.Webhook.Actor.Answers.{Handled, handle-Handled}
use core_telegram_api.Webhook.Delivery.Send.{SendResult, send_update-SendResult, IsReadyChoice}
use core_telegram_api.Webhook.Delivery.Invariant.{Inv, IsSound, flying}

abbrev update : Update
update = record {
  id = 7;
  json = codes "{}";
  expires_at = 100;
  last_send_time = 0;
  wakeup_at = 3;
  delay = 1;
  fail_count = 1;
  queue_id = pos 5;
}

abbrev busy : Connection
busy = record { event_id = some 7; ip_generation = 1; is_ready = false }

abbrev free : Connection
free = record { event_id = none; ip_generation = 1; is_ready = true }

-- The update is due, and no connection carries it.
abbrev waiting : Delivery
waiting = record {
  update_map = (7, update) ∷ [];
  queue_updates = (pos 5, 7 ∷ []) ∷ [];
  queues = record { wakeup_at = 3; id = pos 5 } ∷ [];
  unique_queue_id = 2 ^ 60;
  tqueue_offset = some 8;
  connections = (2, free) ∷ [];
}

-- Connection 1 carries it.
abbrev carried : Delivery
carried = record {
  update_map = (7, update) ∷ [];
  queue_updates = (pos 5, 7 ∷ []) ∷ [];
  queues = [];
  unique_queue_id = 2 ^ 60;
  tqueue_offset = some 8;
  connections = (1, busy) ∷ (2, free) ∷ [];
}

events_5 : (q : ℤ) → or_empty (find q ((pos 5, 7 ∷ []) ∷ [])) ≡ (if pos 5 == q then 7 ∷ [] else [])
unfolding find
events_5 q = ground arith

waiting-Inv : Inv waiting (flying waiting)
unfolding find entries wakeup count
waiting-Inv = record {
  known = λ q e h. ground (arith, int_eq.beq_iff (pos 5) q, nat_eq.beq_iff e 7, nat_eq.beq_iff 7 e);
  owned = λ q e h. ground (arith, int_eq.beq_iff (pos 5) q, nat_eq.beq_iff 7 e);
  named = λ e u h. ground (arith, nat_eq.beq_iff 7 e);
  nonempty = λ q h. ground (arith, h);
  distinct = λ q. ground arith;
  due_on_time = λ q w h. ground arith;
  once = λ q. ground arith;
  carried_first = λ e h. ground arith;
  no_zero = refl;
  unique_positive = omega arith;
}

carried-Inv : Inv carried (flying carried)
unfolding find entries wakeup count
carried-Inv = record {
  known = λ q e h. ground (arith, int_eq.beq_iff (pos 5) q, nat_eq.beq_iff e 7, nat_eq.beq_iff 7 e);
  owned = λ q e h. ground (arith, int_eq.beq_iff (pos 5) q, nat_eq.beq_iff 7 e);
  named = λ e u h. ground (arith, nat_eq.beq_iff 7 e);
  nonempty = λ q h. ground (arith, h);
  distinct = λ q. ground arith;
  due_on_time = λ q w h. ground arith;
  once = λ q. ground arith;
  carried_first = λ e h. ground (arith, nat_eq.beq_iff 7 e);
  no_zero = refl;
  unique_positive = omega arith;
}

waiting-IsSound : IsSound waiting
unfolding find
waiting-IsSound = record {
  inv = waiting-Inv;
  unique_ids = (refl, tt);
  idle_ready = λ c k h. ground (arith, h);
}

carried-IsSound : IsSound carried
unfolding find
carried-IsSound = record {
  inv = carried-Inv;
  unique_ids = (refl, (refl, tt));
  idle_ready = λ c k h. ground (arith, h);
}

drop_event-Dropped_example : Dropped carried (λ x. 0) 7 (drop_event 7 carried)
unfolding count
drop_event-Dropped_example =
    drop_event-Dropped carried (flying carried) (λ x. 0) 7 carried-Inv (ground arith) refl
      (λ x h. ground (arith, nat_eq.beq_iff 7 x))

carried_once : flying carried 7 ≢ 0
unfolding count
carried_once = ground arith

only_7 : (x : ℕ) → x ≢ 7 → 0 ≡ flying carried x
unfolding count
only_7 x h = ground (arith, nat_eq.beq_iff 7 x)

choice_2 : IsReadyChoice waiting (some 2)
unfolding find
choice_2 = (free, refl, refl)

on_update_error-Outcome_example :
    Outcome carried
      (flying carried)
      (λ x. 0)
      carried-Inv
      7
      carried_once
      refl
      only_7
      10
      50
      100
      (pos 0)
      (on_update_error 10 50 100 (pos 0) 7 carried)
on_update_error-Outcome_example =
    on_update_error-Outcome carried (flying carried) (λ x. 0) carried-Inv 7 carried_once refl only_7
      10 50 100 (pos 0)

next_delay_bounds_example :
    let r = clamp_retry_after (pos 0) in
    (1 ≤ next_delay update r 100)
    × (next_delay update r 100 ≤ 120)
    × (next_effective_delay update r 100 ≤ 3600)
    × ((update.fail_count ≡ 0) ⊎ (1 ≤ next_effective_delay update r 100))
next_delay_bounds_example =
    next_delay_bounds update (pos 0) 100 (omega arith) (omega arith) (omega arith) (omega arith)

send_update-SendResult_example : SendResult 9 (some 2) waiting (send_update 9 true (some 2) waiting)
send_update-SendResult_example = send_update-SendResult 9 (some 2) waiting waiting-IsSound choice_2

next_pending_total_example :
    (r : ℕ) × (next_pending 130 50 ≡ some r) × (min_pending_updates_warning ≤ r) × (130 < r)
next_pending_total_example = next_pending_total 130 50 (omega arith)

abbrev actor : Delivery → Actor
actor d = record {
  delivery = d;
  tqueue_empty = false;
  last_pending_update_count = 50;
  max_loaded_updates = 120;
  was_checked = true;
  first_error_410_time = 0;
  ip_generation = 1;
  last_error_time = 0;
  last_error_message = [];
  last_success_time = 0;
  wakeup_at = 0;
  last_update_was_successful = true;
  total_connection_count = 2;
  effects = [];
}

waiting-IsGoodActor : IsGoodActor (actor waiting)
waiting-IsGoodActor = record { sound = waiting-IsSound; within = omega arith; warned = omega arith }

carried-IsGoodActor : IsGoodActor (actor carried)
carried-IsGoodActor = record { sound = carried-IsSound; within = omega arith; warned = omega arith }

-- A queue that holds one more update, of the same user.
abbrev next_event : Event
next_event = record { id = 8; text = codes "{}"; expires_at = 90; extra = pos 5 }

abbrev at_most_one : ℕ → List Event
at_most_one zero = []
at_most_one (suc n) = next_event ∷ []

abbrev tqueue : Tqueue
tqueue = record {
  head = some 8;
  get = λ o limit. some (1, at_most_one limit);
  next = λ e. some (e + 1);
}

tqueue-IsGoodTqueue : IsGoodTqueue 50 tqueue
tqueue-IsGoodTqueue = record {
  fit = λ o limit total evs h. fits limit total evs h;
  accepts_head = λ limit h. ground (arith, h);
}
  where
    fits :
        (limit total : ℕ) (evs : List Event)
        → ◌≡◌ {A = Option (ℕ × List Event)} (some (1, at_most_one limit)) (some (total, evs))
        → All (IsFit 50 (λ e. some (e + 1))) evs × (length evs ≤ limit)
    fits zero total evs h = let e : [] ≡ evs = ground (arith, h) in rw (sym e) (tt, omega arith)
    fits (suc n) total evs h =
        let e : next_event ∷ [] ≡ evs = ground (arith, h) in
        rw (sym e) (((omega arith, (9, refl)), tt), omega arith)

load_updates-Keeps_example : Keeps (actor waiting) (load_updates tqueue 9 50 (actor waiting))
load_updates-Keeps_example =
    load_updates-Keeps 9 50 tqueue tqueue-IsGoodTqueue (actor waiting) waiting-IsGoodActor

-- The first ready connection.
abbrev first_ready : Map ℕ Connection → Option ℕ
first_ready [] = none
first_ready ((c, k) ∷ m) = if k.is_ready then some c else first_ready m

abbrev picks : Delivery → Option ℕ
picks d = first_ready d.connections

first_ready_there :
    (c : ℕ) (m : Map ℕ Connection)
    → first_ready m ≡ some c
    → Unique m
    → (k : Connection) × (find c m ≡ some k) × (k.is_ready ≡ true)
unfolding find
first_ready_there c [] h u = ground (arith, h)
first_ready_there c ((j, k) ∷ m) h u = elim (Bool-cases k.is_ready) [
  | inl free ↦ (k, ground (arith, h, free, nat_eq.beq_iff j c), free)
  | inr taken ↦
      let (x, e, f) = first_ready_there c m (ground (arith, h, taken)) u.1 in
      (x, ground (arith, e, u.0, nat_eq.beq_iff j c), f)
]

none_ready :
    (m : Map ℕ Connection) → first_ready m ≡ none → count (λ (k : Connection). k.is_ready) m ≡ 0
unfolding count
none_ready [] h = refl
none_ready ((j, k) ∷ m) h = ground (arith, none_ready m)

picks-IsReadyChoice : (d : Delivery) → Unique d.connections → IsReadyChoice d (picks d)
picks-IsReadyChoice d u = go (picks d) refl
  where
    go : (o : Option ℕ) → picks d ≡ o → IsReadyChoice d o
    go none h = none_ready d.connections h
    go (some c) h = first_ready_there c d.connections h u

-- Whether any headers fit.
abbrev fit : Delivery → Bool
fit d = true

send_updates-Drained_example :
    Drained 9 fit (actor waiting) (send_updates 3 9 fit picks (actor waiting))
unfolding count
send_updates-Drained_example =
    send_updates-Drained 9 fit picks picks-IsReadyChoice 3 (actor waiting) waiting-IsGoodActor
      (omega arith)

-- The webhook answers that it is gone.
abbrev gone : Response
gone = record {
  is_response = true;
  keep_alive = true;
  code = 410;
  reason = codes "Gone";
  method = [];
  retry_after = pos 0;
  text = [];
}

abbrev digits : ℕ → Bytes
digits n = codes "410"

busy_carries :
    (k : Connection) → find 1 carried.connections ≡ some k → k.event_id ≡ none → some gone ≡ none
unfolding find
busy_carries k h e = ground (arith, h, e)

handle-Handled_example :
    Handled (actor carried) 1 (handle digits 10 50 100 1 (some gone) (actor carried))
handle-Handled_example =
    handle-Handled digits 10 50 100 1 (some gone) (actor carried) carried-IsGoodActor busy_carries

send_update-Stranded_example :
    Stranded (record { wakeup_at = 3; id = pos 5 }) (send_update 9 false (some 2) waiting)
unfolding find
send_update-Stranded_example =
    send_update-Stranded 9 2 waiting free (record { wakeup_at = 3; id = pos 5 }) [] waiting-IsSound
      refl refl (omega arith)
