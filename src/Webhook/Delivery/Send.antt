-- ===== src/Webhook/Delivery/Send.antt =====
-- `send_update`: the update that goes out is the first of its queue and is due, its queue leaves
-- `queues_`, and a ready connection carries it.
use core_telegram_api.Common.{
  ℕ, suc, ◌+◌, ◌≤◌, ◌<◌, ◌≡◌, refl, ◌≢◌, ◌⊎◌, inl, inr, true, false, Option, none, some, List, [],
  ◌∷◌, arith, ltb, if◌then◌else◌, Bool-cases, ◌==◌, nat_eq, bytes_eq, int_eq, beq_refl, ℤ, pos,
  find, insert, find-insert, Unique-insert, count, count-insert,
}
use core_telegram_api.Webhook.Queue.{Queue, entries, wakeup, wakeup_of_entries}
use core_telegram_api.Webhook.Delivery.{
  Update, Connection, Delivery, events, Sent, sent, refused, not_before, no_connection,
  no_pending_updates, send_update, send_first, assign,
}
use core_telegram_api.Webhook.Delivery.Touch.{IsTouched, IsTouched-Inv}
use core_telegram_api.Webhook.Delivery.Invariant.{front, Inv, carries, flying, IsIdleReady, IsSound}

-- The first entry of `queues_` belongs to a queue with a first update that is loaded and due then.
pub record FirstEntry (d : Delivery) (q : Queue) (l : List Queue) : Type 0 where
  pub event : ℕ
  pub rest : List ℕ
  pub update : Update
  pub queued : find q.id d.queue_updates ≡ some (event ∷ rest)
  pub loaded : find event d.update_map ≡ some update
  pub same_queue : update.queue_id ≡ q.id
  pub same_id : update.id ≡ event
  pub on_time : update.wakeup_at ≡ q.wakeup_at
  pub not_zero : (q.id == pos 0) ≡ false
  pub only : entries q.id l ≡ 0

module _ (d : Delivery) (fl : ℕ → ℕ) (v : Inv d fl) (q : Queue) (l : List Queue)
    (e : d.queues ≡ q ∷ l) where
  entries_first : entries q.id d.queues ≡ suc (entries q.id l)
  unfolding entries
  entries_first = rw e (ground (arith, beq_refl q.id))

  wakeup_first : wakeup q.id d.queues ≡ some q.wakeup_at
  unfolding wakeup
  wakeup_first = rw e (ground (arith, beq_refl q.id))

  with_update :
      (x : ℕ) (xs : List ℕ) (o : Option Update)
      → find q.id d.queue_updates ≡ some (x ∷ xs)
      → find x d.update_map ≡ o
      → FirstEntry d q l
  with_update x xs none h k = absurd (ground (arith, v.known q.id x))
  with_update x xs (some u) h k = record {
    event = x;
    rest = xs;
    update = u;
    queued = h;
    loaded = k;
    same_queue = ground (arith, v.known q.id x);
    same_id = v.named x u k;
    on_time = ground (arith, v.due_on_time q.id q.wakeup_at wakeup_first);
    not_zero = ground (arith, v.no_zero, int_eq.beq_iff q.id (pos 0));
    only = ground (arith, v.once q.id, entries_first);
  }

  with_events : (o : Option (List ℕ)) → find q.id d.queue_updates ≡ o → FirstEntry d q l
  with_events none h = absurd (ground (arith, v.once q.id, entries_first))
  with_events (some []) h = absurd (v.nonempty q.id h)
  with_events (some (x ∷ xs)) h = with_update x xs (find x d.update_map) h refl

  pub first_entry : FirstEntry d q l
  first_entry = with_events (find q.id d.queue_updates) refl

  pub not_flying : fl first_entry.event ≡ 0
  not_flying = ground (arith, v.once q.id, entries_first, first_entry.queued)

-- A connection takes an update: the counts of the others stay.
module _ (d : Delivery) (e c : ℕ) (k : Connection) (there : find c d.connections ≡ some k)
    (idle : k.event_id ≡ none) where
  pub flying-assign : (x : ℕ) → flying (assign e c k d) x ≡ (if e == x then 1 else 0) + flying d x
  unfolding assign
  flying-assign x = ground (
    arith,
    there,
    idle,
    count-insert (carries x) c (record k { event_id = some e; is_ready = false }) d.connections,
  )

-- How many connections are ready.
abbrev pub ready_count : Delivery → ℕ
ready_count d = count (λ (k : Connection). k.is_ready) d.connections

-- Why nothing is sent: no connection is ready, or no update is due.
abbrev pub IsIdle : ℕ → Delivery → Type 0
IsIdle now d =
    (ready_count d ≡ 0)
    ⊎ ((d.queues ≡ [])
        ⊎ ((q : Queue) × (l : List Queue) × (d.queues ≡ q ∷ l) × (now < q.wakeup_at)))

abbrev pub IsRefusal : Sent → Type 0
IsRefusal (sent e c) = ⊥
IsRefusal _ = Unit

-- What a successful `send_update` says of the state before and after it.
pub record Sends (now c : ℕ) (d d' : Delivery) (r : Sent) : Type 0 where
  pub event : ℕ
  pub update : Update
  pub queue : Queue
  pub later : List Queue
  pub result : r ≡ sent event c
  pub entry : d.queues ≡ queue ∷ later
  pub is_due : queue.wakeup_at ≤ now
  pub loaded : find event d.update_map ≡ some update
  pub update_is_due : update.wakeup_at ≤ now
  pub is_first : front (events d update.queue_id) ≡ some event
  pub was_free : flying d event ≡ 0
  pub carried : flying d' event ≡ 1
  pub left_queue : entries update.queue_id d'.queues ≡ 0
  pub same_updates : d'.queue_updates ≡ d.queue_updates
  pub fewer_ready : ready_count d' + 1 ≡ ready_count d

-- `send_update` either finds nothing to send, and leaves all as it was, or sends.
pub record SendResult (now : ℕ) (ready : Option ℕ) (d : Delivery) (x : Option (Sent × Delivery))
    : Type 0 where
  pub result : Sent
  pub after : Delivery
  pub succeeds : x ≡ some (result, after)
  pub sound : IsSound after
  pub effect :
      ((after ≡ d) × IsRefusal result × IsIdle now d)
      ⊎ ((c : ℕ) × (ready ≡ some c) × Sends now c d after result)

-- `ready_connections_.get()` gives a connection of the list, and none only if it is empty.
abbrev pub IsReadyChoice : Delivery → Option ℕ → Type 0
IsReadyChoice d none = ready_count d ≡ 0
IsReadyChoice d (some c) = (k : Connection) × (find c d.connections ≡ some k) × (k.is_ready ≡ true)

module _ (now : ℕ) (d : Delivery) (s : IsSound d) (c : ℕ) (k : Connection)
    (there : find c d.connections ≡ some k) (ready : k.is_ready ≡ true) where
  idle : k.event_id ≡ none
  idle = go k.event_id refl
    where
      go : (o : Option ℕ) → k.event_id ≡ o → o ≡ none
      go none h = refl
      go (some x) h = absurd (ground (arith, s.idle_ready c k there))

  module _ (q : Queue) (l : List Queue) (e : d.queues ≡ q ∷ l) (f : FirstEntry d q l)
      (free : flying d f.event ≡ 0) where
    abbrev u' : Update
    u' = record f.update { last_send_time = now }

    abbrev taken : Delivery
    taken = record d { queues = l; update_map = insert f.event u' d.update_map }

    flying-done :
        (x : ℕ) → flying (assign f.event c k taken) x ≡ (if f.event == x then 1 else 0) + flying d x
    flying-done x = flying-assign taken f.event c k there idle x

    entries_later : (p : ℤ) → (q.id == p) ≡ false → entries p l ≡ entries p d.queues
    entries_later p h = rw e (unfold entries in ground (arith, h))

    wakeup_later : (p : ℤ) → (q.id == p) ≡ false → wakeup p l ≡ wakeup p d.queues
    wakeup_later p h = rw e (unfold wakeup in ground (arith, h))

    done-IsTouched :
        IsTouched d (assign f.event c k taken) (flying (assign f.event c k taken)) f.event f.rest u'
    unfolding assign
    done-IsTouched = record {
      update_of = λ x. find-insert f.event x u' d.update_map;
      same_updates = refl;
      same_unique = refl;
      entries_other = λ p h. entries_later p (rw (← f.same_queue) h);
      wakeup_other = λ p h. wakeup_later p (rw (← f.same_queue) h);
      scheduled = ground (arith, f.only, f.same_queue, free, flying-done f.event, beq_refl f.event);
      on_time = λ w h. absurd (ground (arith, f.same_queue, wakeup_of_entries q.id l f.only, h));
    }

    done-others : (x : ℕ) → x ≢ f.event → flying (assign f.event c k taken) x ≡ flying d x
    done-others x h = ground (arith, flying-done x)

    done-IsIdleReady :
        (x : ℕ) (y : Connection)
        → find x (assign f.event c k taken).connections ≡ some y
        → IsIdleReady y
    unfolding assign
    done-IsIdleReady x y h = ground (
      arith,
      s.idle_ready x y,
      find-insert c x (record k { event_id = some f.event; is_ready = false }) d.connections,
    )

    done-IsSound : IsSound (assign f.event c k taken)
    done-IsSound = record {
      inv =
          IsTouched-Inv d (assign f.event c k taken) (flying d) (flying (assign f.event c k taken))
            s.inv f.event done-others f.update u' f.rest refl refl f.loaded
            (ground (arith, f.queued, f.same_queue)) done-IsTouched;
      unique_ids = unfold assign in Unique-insert c _ d.connections s.unique_ids;
      idle_ready = done-IsIdleReady;
    }

    done-Sends :
        ltb now q.wakeup_at ≡ false → Sends now c d (assign f.event c k taken) (sent f.update.id c)
    done-Sends h = record {
      event = f.event;
      update = f.update;
      queue = q;
      later = l;
      result = ground (arith, f.same_id);
      entry = e;
      is_due = ground (arith, h);
      loaded = f.loaded;
      update_is_due = ground (arith, h, f.on_time);
      is_first = ground (arith, f.queued, f.same_queue);
      was_free = free;
      carried = ground (arith, flying-done f.event, free, beq_refl f.event);
      left_queue = unfold assign in ground (arith, f.same_queue, f.only);
      same_updates = unfold assign in refl;
      fewer_ready =
          unfold assign in
          ground (
            arith,
            there,
            ready,
            count-insert (λ (x : Connection). x.is_ready) c
                (record k { event_id = some f.event; is_ready = false }) d.connections,
          );
    }

  send_queue :
      (qs : List Queue) → d.queues ≡ qs → SendResult now (some c) d (send_first now true c k d)
  unfolding send_first
  send_queue [] e = record {
    result = refused no_pending_updates;
    after = d;
    succeeds = ground (arith, e);
    sound = s;
    effect = inl (refl, tt, inr (inl e));
  }
  send_queue (q ∷ l) e = elim (Bool-cases (ltb now q.wakeup_at)) [
    | inl early ↦ record {
      result = not_before q.wakeup_at;
      after = d;
      succeeds = ground (arith, e, early);
      sound = s;
      effect = inl (refl, tt, inr (inr (q, l, e, ground (arith, early))));
    }
    | inr due_now ↦
        let f = first_entry d (flying d) s.inv q l e in
        let free = not_flying d (flying d) s.inv q l e in
        record {
          result = sent f.update.id c;
          after = assign f.event c k (taken q l e f free);
          succeeds = ground (arith, e, due_now, f.not_zero, f.queued, f.loaded);
          sound = done-IsSound q l e f free;
          effect = inr (c, refl, done-Sends q l e f free due_now);
        }
  ]

-- `send_update` in a sound state, when the headers fit, fails no `CHECK` and keeps the state sound.
-- It changes nothing if no connection is ready or no queue is due. Otherwise it hands the first
-- update of the first queue of `queues_` to the ready connection: that update is due and was carried
-- by none, it is carried once then, and its queue has no entry any more.
pub send_update-SendResult :
    (now : ℕ) (ready : Option ℕ) (d : Delivery)
    → IsSound d
    → IsReadyChoice d ready
    → SendResult now ready d (send_update now true ready d)
unfolding send_update
send_update-SendResult now none d s h = record {
  result = refused no_connection;
  after = d;
  succeeds = refl;
  sound = s;
  effect = inl (refl, tt, inl h);
}
send_update-SendResult now (some c) d s (k, there, ready) =
    rw (there, send_update) (send_queue now d s c k there ready d.queues refl)
