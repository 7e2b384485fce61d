-- ===== src/Webhook/Actor/Loading.antt =====
-- `load_updates` keeps the actor sound and within its limits, and `send_updates` ends.
use core_telegram_api.Common.{
  ℕ, zero, suc, ◌+◌, ◌*◌, ◌≤◌, ◌<◌, ◌≡◌, refl, ap, Bool, false, ◌∙◌, ◌≢◌, ◌⊎◌, inl, inr, ◌&&◌, ◌||◌,
  Option, none, some, List, [], arith, ltb, leb, if◌then◌else◌, Bool-cases, Option-cases, length,
  All, ◌==◌, nat_eq, bytes_eq, int_eq, Unique,
}
use core_telegram_api.Webhook.Delivery.{
  Event, Delivery, send_update, Sent, sent, refused, not_before, url_is_too_long,
}
use core_telegram_api.Webhook.Delivery.Invariant.{IsSound, IsSound-same, Inv-reconnect, flying}
use core_telegram_api.Webhook.Delivery.Load.{IsFit, load_all-Loaded}
use core_telegram_api.Webhook.Queue.{Queue}
use core_telegram_api.Webhook.Delivery.Headers.{Stranded, send_update-RefusedResult}
use core_telegram_api.Webhook.Delivery.Send.{
  Sends, send_update-SendResult, IsReadyChoice, ready_count, IsIdle, IsRefusal,
}
use core_telegram_api.Webhook.Actor.{
  Actor, Tqueue, webhook_success, emit, raise_pending, next_pending, start_offset, fetch, no_events,
  take_events, load_limit, load_updates, send_updates, relax_wakeup_at, min_pending_updates_warning,
}

-- The loop of doubling ends within its fuel, above the total size.
raise_pending_total :
    (f total last : ℕ)
    → 0 < f
    → 0 < last
    → total + 1 < last + f
    → (r : ℕ) × (raise_pending f total last ≡ some r) × (total < r) × (last ≤ r)
unfolding raise_pending
raise_pending_total zero total last p q h = elim p [ ]
raise_pending_total (suc f) total last p q h = elim (Bool-cases (leb last total)) [
  | inr stop ↦ (last, ground (arith, stop), ground arith, omega arith)
  | inl more ↦
      let (r, e, a, b) =
        raise_pending_total f total (last * 2) (ground arith) (omega arith) (ground arith) in
      (r, ground (arith, more, e), a, omega arith)
]

-- With a `last_pending_update_count_` of at least the least warning, its next value is found within
-- the fuel; it is no less than the least warning again, and greater than the total size.
pub next_pending_total :
    (total last : ℕ)
    → min_pending_updates_warning ≤ last
    → (r : ℕ) × (next_pending total last ≡ some r) × (min_pending_updates_warning ≤ r) × (total < r)
unfolding next_pending
next_pending_total total last h = elim (Bool-cases (leb total 25)) [
  | inl few ↦ (
    (if ltb min_pending_updates_warning last then min_pending_updates_warning else last),
    ground (arith, few),
    ground arith,
    ground arith,
  )
  | inr many ↦ elim (Bool-cases (leb last total)) [
    | inl over ↦
        let (r, e, a, b) =
          raise_pending_total (total + 1) total last (omega arith) (omega arith) (omega arith) in
        (r, ground (arith, many, over, e), omega arith, a)
    | inr under ↦ (last, ground (arith, many, under), h, ground arith)
  ]
]

-- What the actor relies on: `TQueue::get` gives at most as many events as asked for, none of them
-- expired, and it accepts the head of the queue.
pub record IsGoodTqueue (unix_time : ℕ) (tq : Tqueue) : Type 0 where
  pub fit :
      (o : Option ℕ) (limit total : ℕ) (evs : List Event)
      → tq.get o limit ≡ some (total, evs)
      → All (IsFit unix_time tq.next) evs × (length evs ≤ limit)
  pub accepts_head : (limit : ℕ) → tq.get tq.head limit ≢ none

pub record IsGoodActor (a : Actor) : Type 0 where
  pub sound : IsSound a.delivery
  pub within : length a.queue_updates ≤ a.max_loaded_updates
  pub warned : min_pending_updates_warning ≤ a.last_pending_update_count

-- A handler gives a sound actor again, with the same limit.
pub record Keeps (a : Actor) (r : Option Actor) : Type 0 where
  pub after : Actor
  pub succeeds : r ≡ some after
  pub good : IsGoodActor after
  pub same_limit : after.max_loaded_updates ≡ a.max_loaded_updates

module _ (now unix_time : ℕ) (tq : Tqueue) (t : IsGoodTqueue unix_time tq) where
  abbrev with_offset : Actor → Option ℕ → Delivery
  with_offset a o = record (a.delivery) { tqueue_offset = o }

  take_events-Keeps :
      (a : Actor) (offset : Option ℕ) (total : ℕ) (evs : List Event)
      → IsGoodActor a
      → All (IsFit unix_time tq.next) evs
      → length evs + length a.queue_updates ≤ a.max_loaded_updates
      → Keeps a (take_events now unix_time tq.next offset total evs a)
  unfolding take_events
  take_events-Keeps a offset total evs g f fits =
      let x =
        load_all-Loaded (flying a.delivery) now unix_time tq.next evs (with_offset a offset) f
          (Inv-reconnect a.delivery (flying a.delivery) a.connections offset g.sound.inv) in
      let (n, e, big, over) = next_pending_total total a.last_pending_update_count g.warned in
      let b : Actor = record a {
        delivery = x.after;
        tqueue_empty = a.tqueue_empty || no_events evs;
        last_pending_update_count = n;
      } in
      let ok : IsGoodActor b = record {
        sound = IsSound-same a.delivery x.after g.sound x.inv x.same_connections;
        within = omega (arith, x.new_queues);
        warned = big;
      } in
      elim (Bool-cases (length evs == total && a.last_update_was_successful)) [
        | inl all ↦ record {
          after = emit webhook_success b;
          succeeds = ground (arith, x.succeeds, e, all);
          good = record { sound = ok.sound; within = ok.within; warned = ok.warned };
          same_limit = refl;
        }
        | inr some_left ↦ record {
          after = b;
          succeeds = ground (arith, x.succeeds, e, some_left);
          good = ok;
          same_limit = refl;
        }
      ]

  -- What `fetch` gives.
  fetch_total :
      (limit : ℕ) (o : Option ℕ)
      → (offset : Option ℕ) × (total : ℕ) × (evs : List Event) × (fetch tq limit o
          ≡ some (offset, (total, evs)))
        × All (IsFit unix_time tq.next) evs
        × (length evs ≤ limit)
  unfolding fetch
  fetch_total limit none = (none, 0, [], refl, tt, omega arith)
  fetch_total limit (some o) = elim (Option-cases (tq.get (some o) limit)) [
    | inr ((total, evs), e) ↦
        let (f, l) = t.fit (some o) limit total evs e in (some o, total, evs, rw (e, fetch), f, l)
    | inl bad ↦ elim (Option-cases (tq.get tq.head limit)) [
      | inr ((total, evs), e) ↦
          let (f, l) = t.fit tq.head limit total evs e in
          (tq.head, total, evs, ground (arith, bad, e), f, l)
      | inl none_left ↦ absurd (t.accepts_head limit none_left)
    ]
  ]

  -- When the update queue accepts its head and gives at most as many events as asked for, none of
  -- them expired, `load_updates` in a sound actor fails no `CHECK`, and the actor is sound after it,
  -- with at most `max_loaded_updates` queues.
  pub load_updates-Keeps : (a : Actor) → IsGoodActor a → Keeps a (load_updates tq now unix_time a)
  unfolding load_updates
  load_updates-Keeps a g = elim (Bool-cases a.tqueue_empty) [
    | inl empty ↦ record {
      after = a;
      succeeds = ground (arith, empty);
      good = g;
      same_limit = refl;
    }
    | inr some_left ↦ elim (Bool-cases (leb a.max_loaded_updates (length a.queue_updates))) [
      | inl full ↦ record {
        after = a;
        succeeds = ground (arith, some_left, full, g.within);
        good = g;
        same_limit = refl;
      }
      | inr room ↦
          let (offset, total, evs, e, f, l) =
            fetch_total (load_limit a) (start_offset tq a.tqueue_offset) in
          let x = take_events-Keeps a offset total evs g f (ground (arith, l, room)) in
          record {
            after = x.after;
            succeeds = ground (arith, some_left, room, e, x.succeeds);
            good = x.good;
            same_limit = x.same_limit;
          }
    ]
  ]

-- The loop of `send_updates` has ended: either the actor is sound and nothing more can be sent, or
-- the headers of an update were refused and its queue is stranded.
pub record Drained (now : ℕ) (fits : Delivery → Bool) (a : Actor) (r : Option Actor) : Type 0 where
  pub after : Actor
  pub succeeds : r ≡ some after
  pub same_limit : after.max_loaded_updates ≡ a.max_loaded_updates
  pub ending :
      (IsGoodActor after × IsIdle now after.delivery)
      ⊎ ((d : Delivery) × (fits d ≡ false)
          × (q : Queue) × Stranded q (some (refused url_is_too_long, after.delivery)))

relax_keeps :
    (t : ℕ) (a : Actor)
    → ((relax_wakeup_at t a).delivery ≡ a.delivery)
      × ((relax_wakeup_at t a).max_loaded_updates ≡ a.max_loaded_updates)
      × ((relax_wakeup_at t a).last_pending_update_count ≡ a.last_pending_update_count)
unfolding relax_wakeup_at
relax_keeps t a = (ground arith, ground arith, ground arith)

module _ (now : ℕ) (fits : Delivery → Bool) (ready : Delivery → Option ℕ)
    (choice : (d : Delivery) → Unique d.connections → IsReadyChoice d (ready d)) where
  abbrev EffectOf : Actor → Sent → Delivery → Type 0
  EffectOf a r d =
      ((d ≡ a.delivery) × IsRefusal r × IsIdle now a.delivery)
      ⊎ ((c : ℕ) × (ready a.delivery ≡ some c) × Sends now c a.delivery d r)

  with_delivery :
      (a : Actor) (d : Delivery)
      → IsGoodActor a
      → IsSound d
      → d.queue_updates ≡ a.queue_updates
      → IsGoodActor (record a { delivery = d })
  with_delivery a d g s h = record { sound = s; within = rw h g.within; warned = g.warned }

  -- A round that sent nothing ends the loop.
  stopped :
      (a b : Actor)
      → IsGoodActor a
      → IsSound b.delivery
      → b.delivery ≡ a.delivery
      → b.max_loaded_updates ≡ a.max_loaded_updates
      → b.last_pending_update_count ≡ a.last_pending_update_count
      → IsIdle now a.delivery
      → Drained now fits a (some b)
  stopped a b g s h m n i = record {
    after = b;
    succeeds = refl;
    same_limit = m;
    ending =
        inl (record { sound = s; within = rw (h, m) g.within; warned = rw n g.warned }, rw h i);
  }

  module _ (f : ℕ) (a : Actor) (g : IsGoodActor a) (h : ready_count a.delivery < suc f) where
    round :
        (r : Sent) (d : Delivery)
        → send_update now (fits a.delivery) (ready a.delivery) a.delivery ≡ some (r, d)
        → IsSound d
        → EffectOf a r d
        → ((b : Actor)
            → IsGoodActor b
            → ready_count b.delivery < f
            → Drained now fits b (send_updates f now fits ready b))
        → Drained now fits a (send_updates (suc f) now fits ready a)
    unfolding send_updates
    round (sent e c) d p s (inl (same, never, i)) rest = absurd never
    round (sent e c) d p s (inr (c', chosen, x)) rest =
        let y =
          rest (record a { delivery = d }) (with_delivery a d g s x.same_updates)
            (omega (arith, x.fewer_ready)) in
        record {
          after = y.after;
          succeeds = ground (arith, p, y.succeeds);
          same_limit = y.same_limit;
          ending = y.ending;
        }
    round (refused r) d p s (inr (c', chosen, x)) rest = absurd (ground (arith, x.result))
    round (refused r) d p s (inl (same, never, i)) rest =
        rw (p, send_updates) (stopped a (record a { delivery = d }) g s same refl refl i)
    round (not_before t) d p s (inr (c', chosen, x)) rest = absurd (ground (arith, x.result))
    round (not_before t) d p s (inl (same, never, i)) rest =
        let (x, y, z) = relax_keeps t (record a { delivery = d }) in
        rw (p, send_updates)
          (stopped a (relax_wakeup_at t (record a { delivery = d })) g (rw x s) (x ∙ same) y z i)

    -- A round in which the headers are refused.
    refused_round :
        (r : Sent) (d : Delivery)
        → fits a.delivery ≡ false
        → send_update now (fits a.delivery) (ready a.delivery) a.delivery ≡ some (r, d)
        → IsRefusal r
        → ((d ≡ a.delivery) × IsIdle now a.delivery) ⊎ ((q : Queue) × Stranded q (some (r, d)))
        → Drained now fits a (send_updates (suc f) now fits ready a)
    unfolding send_updates
    refused_round (sent e c) d no_fit p never x = absurd never
    refused_round (refused r) d no_fit p is (inl (same, i)) =
        rw (p, send_updates)
          (stopped a (record a { delivery = d }) g (rw same g.sound) same refl refl i)
    refused_round (not_before t) d no_fit p is (inl (same, i)) =
        let (x, y, z) = relax_keeps t (record a { delivery = d }) in
        rw (p, send_updates)
          (stopped a (relax_wakeup_at t (record a { delivery = d })) g (rw (x ∙ same) g.sound)
            (x ∙ same) y z i)
    refused_round (not_before t) d no_fit p is (inr (q, x)) = absurd (ground (arith, x.result))
    refused_round (refused r) d no_fit p is (inr (q, x)) = record {
      after = record a { delivery = d };
      succeeds = ground (arith, p);
      same_limit = refl;
      ending = inr (
        a.delivery,
        no_fit,
        q,
        record {
          after = x.after;
          event = x.event;
          rest = x.rest;
          result = ground (arith, x.result);
          waiting = x.waiting;
          unscheduled = x.unscheduled;
          uncarried = x.uncarried;
        },
      );
    }

  -- In a sound actor, one round more than there are ready connections is enough for the loop of
  -- `send_updates` to end, and no `CHECK` fails. Either the actor is sound after it and no connection
  -- is ready or no queue is due, or the headers of an update did not fit: then the loop stopped there,
  -- and the queue of that update is left with no entry in `queues_` and carried by no connection.
  pub send_updates-Drained :
      (f : ℕ) (a : Actor)
      → IsGoodActor a
      → ready_count a.delivery < f
      → Drained now fits a (send_updates f now fits ready a)
  send_updates-Drained zero a g h = elim h [ ]
  send_updates-Drained (suc f) a g h =
      let picked = choice a.delivery g.sound.unique_ids in
      elim (Bool-cases (fits a.delivery)) [
        | inl fit ↦
            let x = send_update-SendResult now (ready a.delivery) a.delivery g.sound picked in
            let p : send_update now (fits a.delivery) (ready a.delivery) a.delivery
                ≡ some (x.result, x.after) =
              ap (λ b. send_update now b (ready a.delivery) a.delivery) fit ∙ x.succeeds in
            round f a g h x.result x.after p x.sound x.effect (send_updates-Drained f)
        | inr no_fit ↦
            let x = send_update-RefusedResult now (ready a.delivery) a.delivery g.sound picked in
            let p : send_update now (fits a.delivery) (ready a.delivery) a.delivery
                ≡ some (x.reason, x.after) =
              ap (λ b. send_update now b (ready a.delivery) a.delivery) no_fit ∙ x.comes in
            refused_round f a g h x.reason x.after no_fit p x.is_refusal x.effect
      ]
