-- ===== src/Webhook/Delivery/Drop.antt =====
-- `drop_event` keeps the invariant: the first update of a queue leaves it, and the next one is
-- scheduled.
use core_telegram_api.Common.{
  ℕ, ◌≤◌, ◌≡◌, refl, ◌≢◌, inl, inr, true, false, Option, none, some, List, [], ◌∷◌, arith,
  if◌then◌else◌, Bool-cases, Option-cases, length, ◌==◌, nat_eq, bytes_eq, int_eq, beq_refl, ℤ, pos,
  find, insert, erase, find-insert, find-erase, length-insert_present, length-erase,
}
use core_telegram_api.Webhook.Queue.{
  emplace, entries, wakeup, entries-emplace, wakeup-emplace, wakeup_of_entries,
}
use core_telegram_api.Webhook.Delivery.{Update, Delivery, events, requeue, drop_event}
use core_telegram_api.Webhook.Delivery.Invariant.{
  has, Distinct, owner, due, front, front_of, Scheduled, Inv,
}

-- A carried update is loaded, and stands first in its queue.
pub carried_cases :
    (d : Delivery) (fl : ℕ → ℕ) (e : ℕ)
    → Inv d fl
    → fl e ≢ 0
    → (u : Update) × (es : List ℕ) × (find e d.update_map ≡ some u)
      × (find u.queue_id d.queue_updates ≡ some (e ∷ es))
carried_cases d fl e v h = go (find e d.update_map) refl
  where
    first :
        (q : ℤ)
        → front (events d q) ≡ some e
        → (es : List ℕ) × (find q d.queue_updates ≡ some (e ∷ es))
    first q k = go₁ (find q d.queue_updates) refl
      where
        go₁ :
            (o : Option (List ℕ))
            → find q d.queue_updates ≡ o
            → (es : List ℕ) × (find q d.queue_updates ≡ some (e ∷ es))
        go₁ none p = ground (arith, k)
        go₁ (some []) p = ground (arith, k)
        go₁ (some (x ∷ es)) p = (es, ground (arith, k))

    go :
        (o : Option Update)
        → find e d.update_map ≡ o
        → (u : Update) × (es : List ℕ) × (find e d.update_map ≡ some u)
          × (find u.queue_id d.queue_updates ≡ some (e ∷ es))
    go none p = ground (arith, v.carried_first e h)
    go (some u) p =
        let f = first u.queue_id (ground (arith, v.carried_first e h)) in (u, f.0, p, f.1)

-- The state after the drop, described by what can be read from it.
pub record IsDropped (d d' : Delivery) (e : ℕ) (q : ℤ) (es : List ℕ) : Type 0 where
  pub update_of : (x : ℕ) → find x d'.update_map ≡ (if e == x then none else find x d.update_map)
  pub events_of : (p : ℤ) → events d' p ≡ (if q == p then es else events d p)
  pub entries_self : Scheduled (λ x. 0) es (entries q d'.queues)
  pub entries_other : (p : ℤ) → (q == p) ≡ false → entries p d'.queues ≡ entries p d.queues
  pub wakeup_at : (p : ℤ) → wakeup p d'.queues ≡ (if q == p then due d es else wakeup p d.queues)
  pub nonempty_of : (p : ℤ) → find p d'.queue_updates ≢ some []
  pub same_unique : d'.unique_queue_id ≡ d.unique_queue_id
  pub same_connections : d'.connections ≡ d.connections
  pub fewer : length d'.queue_updates ≤ length d.queue_updates

module _ (d : Delivery) (fl fl' : ℕ → ℕ) (v : Inv d fl) (e : ℕ) (carried : fl e ≢ 0)
    (freed : fl' e ≡ 0) (others : (x : ℕ) → x ≢ e → fl' x ≡ fl x) (u : Update) (es : List ℕ)
    (loaded : find e d.update_map ≡ some u)
    (queued : find u.queue_id d.queue_updates ≡ some (e ∷ es)) where
  abbrev q : ℤ
  q = u.queue_id

  not_scheduled : entries q d.queues ≡ 0
  not_scheduled = ground (arith, v.once q, carried, queued)

  e_once : has e es ≡ false
  e_once = ground (arith, v.distinct q, queued)

  next_loaded : (x : ℕ) → has x es ≡ true → owner d x ≡ some q
  next_loaded x h = ground (arith, v.known q x, queued)

  next_free : (x : ℕ) (xs : List ℕ) → es ≡ x ∷ xs → fl x ≡ 0
  next_free x xs h = ground (arith, v.carried_first x, next_loaded x, queued, e_once)

  module _ (d' : Delivery) (w : IsDropped d d' e q es) where
    due_dropped : (xs : List ℕ) → has e xs ≡ false → due d' xs ≡ due d xs
    due_dropped [] h = refl
    due_dropped (x ∷ xs) h = ground (arith, w.update_of x)

    known' : (p : ℤ) (x : ℕ) → has x (events d' p) ≡ true → owner d' x ≡ some p
    known' p x h = ground (
      arith,
      w.update_of x,
      w.events_of p,
      next_loaded x,
      v.known p x,
      e_once,
      loaded,
      queued,
      int_eq.beq_iff q p,
    )

    owned' : (p : ℤ) (x : ℕ) → owner d' x ≡ some p → has x (events d' p) ≡ true
    owned' p x h =
        ground
          (arith, w.update_of x, w.events_of p, v.owned p x, loaded, queued, int_eq.beq_iff q p)

    distinct' : (p : ℤ) → Distinct (events d' p)
    distinct' p = ground (arith, w.events_of p, v.distinct p, v.distinct q, queued)

    due' : (p : ℤ) (t : ℕ) → wakeup p d'.queues ≡ some t → due d' (events d' p) ≡ some t
    due' p t h = ground (
      arith,
      w.events_of p,
      w.wakeup_at p,
      v.due_on_time p t,
      due_dropped es e_once,
      due_dropped (events d p),
      v.known p e,
      loaded,
      int_eq.beq_iff q p,
      Bool-cases (has e (events d p)),
    )

    Scheduled-rest :
        (ys : List ℕ) (n : ℕ)
        → Scheduled (λ x. 0) ys n
        → ((x : ℕ) (xs : List ℕ) → ys ≡ x ∷ xs → fl' x ≡ 0)
        → Scheduled fl' ys n
    Scheduled-rest [] n h k = h
    Scheduled-rest (x ∷ xs) n h k = omega (arith, k x xs refl)

    Scheduled-other :
        (ys : List ℕ) (n : ℕ) → Scheduled fl ys n → has e ys ≡ false → Scheduled fl' ys n
    Scheduled-other [] n h k = h
    Scheduled-other (x ∷ xs) n h k = ground (arith, others x)

    not_in_other : (p : ℤ) → (q == p) ≡ false → has e (events d p) ≡ false
    not_in_other p h = ground (arith, v.known p e, loaded, int_eq.beq_iff q p)

    still_free : (x : ℕ) (xs : List ℕ) → es ≡ x ∷ xs → fl' x ≡ 0
    still_free x xs h = ground (arith, next_free x xs h, others x, e_once)

    once' : (p : ℤ) → Scheduled fl' (events d' p) (entries p d'.queues)
    once' p = elim (Bool-cases (q == p)) [
      | inl same ↦
          rw (w.events_of p, same)
            (Scheduled-rest es (entries p d'.queues)
              (rw ((int_eq.beq_iff q p).0 same) at w.entries_self) still_free)
      | inr other ↦
          rw (w.events_of p, other, w.entries_other p other)
            (Scheduled-other (events d p) (entries p d.queues) (v.once p) (not_in_other p other))
    ]

    front_kept : (x : ℕ) (o : Option ℤ) → x ≢ e → front_of d o ≡ some x → front_of d' o ≡ some x
    front_kept x none n h = h
    front_kept x (some p) n h = ground (arith, w.events_of p, queued, int_eq.beq_iff q p)

    carried' : (x : ℕ) → fl' x ≢ 0 → front_of d' (owner d' x) ≡ some x
    carried' x h =
        ground (arith, w.update_of x, others x, freed, v.carried_first x, front_kept x (owner d x))

    named' : (x : ℕ) (y : Update) → find x d'.update_map ≡ some y → y.id ≡ x
    named' x y h = ground (arith, w.update_of x, v.named x y)

    no_zero' : events d' (pos 0) ≡ []
    no_zero' = ground (arith, v.no_zero, w.events_of (pos 0), queued, int_eq.beq_iff q (pos 0))

    IsDropped-Inv : Inv d' fl'
    IsDropped-Inv = record {
      known = known';
      owned = owned';
      named = named';
      nonempty = w.nonempty_of;
      distinct = distinct';
      due_on_time = due';
      once = once';
      carried_first = carried';
      no_zero = no_zero';
      unique_positive = ground (arith, w.same_unique, v.unique_positive);
    }

-- What `drop_event` leads to: it succeeds, and the connections are as they were.
pub record Dropped (d : Delivery) (fl' : ℕ → ℕ) (e : ℕ) (r : Option Delivery) : Type 0 where
  pub after : Delivery
  pub owner_was : Update
  pub rest : List ℕ
  pub succeeds : r ≡ some after
  pub inv : Inv after fl'
  pub was_loaded : find e d.update_map ≡ some owner_was
  pub was_first : events d owner_was.queue_id ≡ e ∷ rest
  pub dropped : IsDropped d after e owner_was.queue_id rest

module _ (d : Delivery) (e : ℕ) (q : ℤ) (absent : entries q d.queues ≡ 0)
    (solid : (p : ℤ) → find p d.queue_updates ≢ some [])
    (present : find q d.queue_updates ≢ none) where
  abbrev without : Delivery
  without = record d { update_map = erase e d.update_map }

  requeue-nil : IsDropped d (record without { queue_updates = erase q d.queue_updates }) e q []
  requeue-nil = record {
    update_of = λ x. find-erase e x d.update_map;
    events_of = λ p. ground (arith, find-erase q p d.queue_updates);
    entries_self = absent;
    entries_other = λ p h. refl;
    wakeup_at = λ p. ground (arith, wakeup_of_entries q d.queues absent, int_eq.beq_iff q p);
    nonempty_of = λ p h. ground (arith, solid p, find-erase q p d.queue_updates);
    same_unique = refl;
    same_connections = refl;
    fewer = length-erase q d.queue_updates;
  }

  requeue-cons :
      (x : ℕ) (xs : List ℕ) (u : Update)
      → (e == x) ≡ false
      → find x d.update_map ≡ some u
      → u.queue_id ≡ q
      → IsDropped d
          (record without {
            queue_updates = insert q (x ∷ xs) d.queue_updates;
            queues = emplace (record { wakeup_at = u.wakeup_at; id = u.queue_id }) d.queues;
          })
          e
          q
          (x ∷ xs)
  requeue-cons x xs u n h k = record {
    update_of = λ y. find-erase e y d.update_map;
    events_of = λ p. ground (arith, find-insert q p (x ∷ xs) d.queue_updates);
    entries_self = ground (
      arith,
      k,
      absent,
      beq_refl q,
      entries-emplace (record { wakeup_at = u.wakeup_at; id = u.queue_id }) q d.queues,
    );
    entries_other = λ p h. ground (
      arith,
      k,
      absent,
      entries-emplace (record { wakeup_at = u.wakeup_at; id = u.queue_id }) p d.queues,
    );
    wakeup_at = λ p. ground (
      arith,
      k,
      absent,
      h,
      wakeup-emplace (record { wakeup_at = u.wakeup_at; id = u.queue_id }) p d.queues,
    );
    nonempty_of = λ p h. ground (arith, solid p, find-insert q p (x ∷ xs) d.queue_updates);
    same_unique = refl;
    same_connections = refl;
    fewer = omega (arith, length-insert_present q (x ∷ xs) d.queue_updates present);
  }

  requeue-IsDropped :
      (es : List ℕ)
      → has e es ≡ false
      → ((x : ℕ) → has x es ≡ true → owner d x ≡ some q)
      → (d' : Delivery) × (requeue q es without ≡ some d') × IsDropped d d' e q es
  unfolding requeue
  requeue-IsDropped [] n h = (_, refl, requeue-nil)
  requeue-IsDropped (x ∷ xs) n h = elim (Option-cases (find x d.update_map)) [
    | inl a ↦ absurd (ground (arith, h x, a))
    | inr (u, a) ↦ (
      _,
      ground (arith, a, n, find-erase e x d.update_map),
      requeue-cons x xs u (ground (arith, n)) a (ground (arith, h x, a)),
    )
  ]

module _ (d : Delivery) (fl fl' : ℕ → ℕ) (e : ℕ) where
  -- `drop_event` on a carried update, when the connection lets it go: no `CHECK` fails, the invariant
  -- holds again, the update is no longer loaded, it was the first of its queue, and the rest of that
  -- queue is scheduled once for its next update, or the queue forgotten if it is empty.
  pub drop_event-Dropped :
      Inv d fl
      → fl e ≢ 0
      → fl' e ≡ 0
      → ((x : ℕ) → x ≢ e → fl' x ≡ fl x)
      → Dropped d fl' e (drop_event e d)
  unfolding drop_event
  drop_event-Dropped v carried freed others =
      let (u, es, loaded, queued) = carried_cases d fl e v carried in
      let (d', made, w) =
        requeue-IsDropped d e u.queue_id
          (not_scheduled d fl fl' v e carried freed others u es loaded queued) v.nonempty
          (ground (arith, queued)) es (e_once d fl fl' v e carried freed others u es loaded queued)
          (next_loaded d fl fl' v e carried freed others u es loaded queued) in
      record {
        after = d';
        owner_was = u;
        rest = es;
        succeeds = ground (arith, loaded, queued, made);
        inv = IsDropped-Inv d fl fl' v e carried freed others u es loaded queued d' w;
        was_loaded = loaded;
        was_first = ground (arith, queued);
        dropped = w;
      }
