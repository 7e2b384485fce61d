-- ===== src/Webhook/Delivery/Headers.antt =====
-- What `send_update` leaves behind when the headers of the request are refused.
use core_telegram_api.Common.{
  ℕ, ◌≤◌, ◌≡◌, refl, ◌⊎◌, inl, inr, false, Option, none, some, List, [], ◌∷◌, arith, Bool-cases,
  ltb, nat_eq, bytes_eq, int_eq, find, insert,
}
use core_telegram_api.Webhook.Queue.{Queue, entries}
use core_telegram_api.Webhook.Delivery.{
  Connection, Delivery, Sent, refused, not_before, url_is_too_long, no_connection,
  no_pending_updates, send_first, send_update, events,
}
use core_telegram_api.Webhook.Delivery.Invariant.{IsSound, flying}
use core_telegram_api.Webhook.Delivery.Send.{
  first_entry, not_flying, IsIdle, IsRefusal, IsReadyChoice,
}

-- The queue has updates, but no entry in `queues_`, and its first update is carried by none.
pub record Stranded (q : Queue) (r : Option (Sent × Delivery)) : Type 0 where
  pub after : Delivery
  pub event : ℕ
  pub rest : List ℕ
  pub result : r ≡ some (refused url_is_too_long, after)
  pub waiting : events after q.id ≡ event ∷ rest
  pub unscheduled : entries q.id after.queues ≡ 0
  pub uncarried : flying after event ≡ 0

-- When an update is due and a connection is ready, but the headers are refused, `send_update` leaves
-- the queue of the update with neither an entry in `queues_` nor a connection that carries it.
pub send_update-Stranded :
    (now c : ℕ) (d : Delivery) (k : Connection) (q : Queue) (l : List Queue)
    → IsSound d
    → find c d.connections ≡ some k
    → d.queues ≡ q ∷ l
    → q.wakeup_at ≤ now
    → Stranded q (send_update now false (some c) d)
unfolding send_update send_first
send_update-Stranded now c d k q l s there e due =
    let f = first_entry d (flying d) s.inv q l e in
    record {
      after = record d {
        queues = l;
        update_map = insert f.event (record (f.update) { last_send_time = now }) d.update_map;
      };
      event = f.event;
      rest = f.rest;
      result = ground (arith, there, e, due, f.not_zero, f.queued, f.loaded);
      waiting = ground (arith, f.queued);
      unscheduled = f.only;
      uncarried = not_flying d (flying d) s.inv q l e;
    }

-- What `send_update` does when the headers do not fit: nothing, as no connection is ready or no
-- queue is due, or it strands the first queue.
pub record RefusedResult (now : ℕ) (d : Delivery) (x : Option (Sent × Delivery)) : Type 0 where
  pub reason : Sent
  pub after : Delivery
  pub comes : x ≡ some (reason, after)
  pub is_refusal : IsRefusal reason
  pub effect : ((after ≡ d) × IsIdle now d) ⊎ ((q : Queue) × Stranded q (some (reason, after)))

pub send_update-RefusedResult :
    (now : ℕ) (ready : Option ℕ) (d : Delivery)
    → IsSound d
    → IsReadyChoice d ready
    → RefusedResult now d (send_update now false ready d)
unfolding send_update
send_update-RefusedResult now none d s h = record {
  reason = refused no_connection;
  after = d;
  comes = refl;
  is_refusal = tt;
  effect = inl (refl, inl h);
}
send_update-RefusedResult now (some c) d s (k, there, ready) =
    rw (there, send_update) (go d.queues refl)
  where
    go : (qs : List Queue) → d.queues ≡ qs → RefusedResult now d (send_first now false c k d)
    go [] e = record {
      reason = refused no_pending_updates;
      after = d;
      comes = unfold send_first in ground (arith, e);
      is_refusal = tt;
      effect = inl (refl, inr (inl e));
    }
    go (q ∷ l) e = elim (Bool-cases (ltb now q.wakeup_at)) [
      | inl early ↦ record {
        reason = not_before q.wakeup_at;
        after = d;
        comes = unfold send_first in ground (arith, e, early);
        is_refusal = tt;
        effect = inl (refl, inr (inr (q, l, e, ground (arith, early))));
      }
      | inr due ↦
          let x = send_update-Stranded now c d k q l s there e (ground (arith, due)) in
          let same : send_first now false c k d ≡ some (refused url_is_too_long, x.after) =
            ground (arith, x.result, there) in
          record {
            reason = refused url_is_too_long;
            after = x.after;
            comes = same;
            is_refusal = tt;
            effect = inr (
              q,
              record {
                after = x.after;
                event = x.event;
                rest = x.rest;
                result = refl;
                waiting = x.waiting;
                unscheduled = x.unscheduled;
                uncarried = x.uncarried;
              },
            );
          }
    ]
