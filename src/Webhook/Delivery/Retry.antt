-- ===== src/Webhook/Delivery/Retry.antt =====
-- `on_update_error`: a failed update is scheduled again with a longer delay, or dropped once it
-- would expire before its next attempt.
use core_telegram_api.Common.{
  ℕ, ◌+◌, ◌*◌, ◌≤◌, ◌<◌, ◌≡◌, refl, ap, ◌∙◌, ◌≢◌, ◌⊎◌, inl, inr, Option, none, some, List, ◌∷◌,
  arith, ltb, Bool-cases, length, nat_eq, bytes_eq, int_eq, beq_refl, ℤ, pos, negsuc, find,
  find-insert,
}
use core_telegram_api.Webhook.Queue.{Queue, entries, wakeup, entries-emplace, wakeup-emplace}
use core_telegram_api.Webhook.Delivery.{
  Update, Delivery, events, put_back, delayed, next_delay, next_effective_delay, on_update_error,
  clamp_retry_after, second,
}
use core_telegram_api.Webhook.Delivery.Drop.{carried_cases, drop_event-Dropped}
use core_telegram_api.Webhook.Delivery.Touch.{IsTouched, IsTouched-Inv}
use core_telegram_api.Webhook.Delivery.Invariant.{Inv}

-- With a limit between `WEBHOOK_MAX_RESEND_TIMEOUT` and twice that, and a delay from 1 to 120
-- seconds, the next delay is from 1 to 120 seconds too. The wait for the next attempt is at most
-- `MAX_RETRY_AFTER`, and at least a second unless the update has not failed before.
pub next_delay_bounds :
    (u : Update) (retry_after : ℤ) (max_timeout : ℕ)
    → 60 ≤ max_timeout
    → max_timeout ≤ 120
    → 1 ≤ u.delay
    → u.delay ≤ 120
    → let r = clamp_retry_after retry_after in
      (1 ≤ next_delay u r max_timeout)
      × (next_delay u r max_timeout ≤ 120)
      × (next_effective_delay u r max_timeout ≤ 3600)
      × ((u.fail_count ≡ 0) ⊎ (1 ≤ next_effective_delay u r max_timeout))
unfolding next_delay next_effective_delay
next_delay_bounds u (pos r) m a b c d = (ground arith, ground arith, ground arith, ground arith)
next_delay_bounds u (negsuc r) m a b c d = (ground arith, ground arith, ground arith, ground arith)

module _ (d : Delivery) (fl fl' : ℕ → ℕ) (v : Inv d fl) (e : ℕ) (carried : fl e ≢ 0)
    (freed : fl' e ≡ 0) (others : (x : ℕ) → x ≢ e → fl' x ≡ fl x) where
  module _ (u u' : Update) (es : List ℕ) (same_id : u'.id ≡ u.id)
      (same_queue : u'.queue_id ≡ u.queue_id) (loaded : find e d.update_map ≡ some u)
      (queued : find u.queue_id d.queue_updates ≡ some (e ∷ es)) where
    abbrev entry : Queue
    entry = record { wakeup_at = u'.wakeup_at; id = u'.queue_id }

    not_scheduled : entries entry.id d.queues ≡ 0
    not_scheduled = ground (arith, v.once u.queue_id, carried, queued, same_queue)

    put_back-IsTouched : IsTouched d (put_back e u' d) fl' e es u'
    unfolding put_back
    put_back-IsTouched = record {
      update_of = λ x. find-insert e x u' d.update_map;
      same_updates = refl;
      same_unique = refl;
      entries_other = λ p h. ground (arith, h, entries-emplace entry p d.queues not_scheduled);
      wakeup_other = λ p h. ground (arith, h, wakeup-emplace entry p d.queues not_scheduled);
      scheduled = ground (
        arith,
        freed,
        not_scheduled,
        beq_refl u'.queue_id,
        entries-emplace entry u'.queue_id d.queues not_scheduled,
      );
      on_time = λ w h.
          ground (
            arith,
            h,
            beq_refl u'.queue_id,
            wakeup-emplace entry u'.queue_id d.queues not_scheduled,
          );
    }

    put_back-Inv : Inv (put_back e u' d) fl'
    put_back-Inv =
        IsTouched-Inv d (put_back e u' d) fl fl' v e others u u' es same_id same_queue loaded
          (ground (arith, queued, same_queue)) put_back-IsTouched

  -- What the error handler leads to; the update is kept, with its new delay, or dropped.
  pub record Retried (now : ℕ) (r : Option Delivery) : Type 0 where
    pub after : Delivery
    pub succeeds : r ≡ some after
    pub inv : Inv after fl'
    pub same_connections : after.connections ≡ d.connections
    pub fewer : length after.queue_updates ≤ length d.queue_updates

  pub on_update_error-Retried :
      (now unix_time max_timeout : ℕ) (retry_after : ℤ)
      → Retried now (on_update_error now unix_time max_timeout retry_after e d)
  unfolding on_update_error
  on_update_error-Retried now unix_time m retry_after =
      let (u, es, loaded, queued) = carried_cases d fl e v carried in
      let r = clamp_retry_after retry_after in
      elim (Bool-cases (ltb u.expires_at (unix_time + next_effective_delay u r m))) [
        | inl late ↦
            let x = drop_event-Dropped d fl fl' e v carried freed others in
            record {
              after = x.after;
              succeeds = ground (arith, loaded, late, x.succeeds);
              inv = x.inv;
              same_connections = x.dropped.same_connections;
              fewer = x.dropped.fewer;
            }
        | inr early ↦ record {
          after = put_back e (delayed now u r m) d;
          succeeds = ground (arith, loaded, early);
          inv = unfold delayed in put_back-Inv u (delayed now u r m) es refl refl loaded queued;
          same_connections = unfold put_back in refl;
          fewer = unfold put_back in omega arith;
        }
      ]

  -- The outcome on both branches. An update that would not expire first keeps its place at the front
  -- of its queue, which is scheduled once, for the time of the next attempt; any other is dropped.
  pub record Outcome (now unix_time m : ℕ) (retry_after : ℤ) (r : Option Delivery) : Type 0 where
    pub after : Delivery
    pub update : Update
    pub succeeds : r ≡ some after
    pub was_loaded : find e d.update_map ≡ some update
    pub outcome :
        ((unix_time + next_effective_delay update (clamp_retry_after retry_after) m
            ≤ update.expires_at)
          × (find e after.update_map ≡ some (delayed now update (clamp_retry_after retry_after) m))
          × (after.queue_updates ≡ d.queue_updates)
          × (entries update.queue_id after.queues ≡ 1)
          × (wakeup update.queue_id after.queues
              ≡ some
                  (now + next_effective_delay update (clamp_retry_after retry_after) m * second)))
        ⊎ ((update.expires_at
              < unix_time + next_effective_delay update (clamp_retry_after retry_after) m)
            × (find e after.update_map ≡ none)
            × (find update.queue_id d.queue_updates ≡ some (e ∷ events after update.queue_id)))

  delayed_wakeup :
      (now : ℕ) (u : Update) (r m : ℕ)
      → ((delayed now u r m).queue_id ≡ u.queue_id)
        × ((delayed now u r m).wakeup_at ≡ now + next_effective_delay u r m * second)
  unfolding delayed
  delayed_wakeup now u r m = (refl, refl)

  put_back_outcome :
      (u u' : Update)
      → u'.queue_id ≡ u.queue_id
      → entries u.queue_id d.queues ≡ 0
      → (find e (put_back e u' d).update_map ≡ some u')
        × ((put_back e u' d).queue_updates ≡ d.queue_updates)
        × (entries u.queue_id (put_back e u' d).queues ≡ 1)
        × (wakeup u.queue_id (put_back e u' d).queues ≡ some u'.wakeup_at)
  unfolding put_back
  put_back_outcome u u' q h =
      let x : Queue = record { wakeup_at = u'.wakeup_at; id = u'.queue_id } in
      (
        ground (arith, find-insert e e u' d.update_map),
        refl,
        ground (arith, q, h, beq_refl u.queue_id, entries-emplace x u.queue_id d.queues),
        ground (arith, q, h, beq_refl u.queue_id, wakeup-emplace x u.queue_id d.queues),
      )

  -- `on_update_error` on a carried update succeeds. If the update does not expire before its next
  -- attempt, it stays first in its queue with its new delay, and the queue is scheduled once, for
  -- the time of that attempt. Otherwise the update is dropped, and the rest of its queue stays.
  pub on_update_error-Outcome :
      (now unix_time max_timeout : ℕ) (retry_after : ℤ)
      → Outcome now unix_time max_timeout retry_after
          (on_update_error now unix_time max_timeout retry_after e d)
  unfolding on_update_error
  on_update_error-Outcome now unix_time m retry_after =
      let (u, es, loaded, queued) = carried_cases d fl e v carried in
      let r = clamp_retry_after retry_after in
      elim (Bool-cases (ltb u.expires_at (unix_time + next_effective_delay u r m))) [
        | inl late ↦
            let x = drop_event-Dropped d fl fl' e v carried freed others in
            let same : x.owner_was ≡ u = ground (arith, x.was_loaded, loaded) in
            record {
              after = x.after;
              update = u;
              succeeds = ground (arith, loaded, late, x.succeeds);
              was_loaded = loaded;
              outcome = inr (
                ground (arith, late),
                ground (arith, x.dropped.update_of e),
                ground (
                  arith,
                  queued,
                  x.was_first,
                  same,
                  x.dropped.events_of u.queue_id,
                  beq_refl u.queue_id,
                ),
              );
            }
        | inr early ↦
            let free =
              not_scheduled u (delayed now u r m) es (delayed_id now u r m)
                (delayed_wakeup now u r m).0 loaded queued in
            let (a, b, c, w) =
              put_back_outcome u (delayed now u r m) (delayed_wakeup now u r m).0
                (rw (delayed_wakeup now u r m).0 at free) in
            record {
              after = put_back e (delayed now u r m) d;
              update = u;
              succeeds = ground (arith, loaded, early);
              was_loaded = loaded;
              outcome =
                  inl (ground (arith, early), a, b, c, w ∙ ap some (delayed_wakeup now u r m).1);
            }
      ]
    where
      delayed_id : (now : ℕ) (u : Update) (r m : ℕ) → (delayed now u r m).id ≡ u.id
      delayed_id now u r m = unfold delayed in refl
