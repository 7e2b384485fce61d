-- ===== src/Webhook/Delivery/Load.antt =====
-- `load_updates` keeps the invariant.
use core_telegram_api.Common.{
  ℕ, ◌+◌, ◌≤◌, ◌≡◌, refl, ◌∙◌, ◌≢◌, inl, inr, true, false, Option, none, some, List, [], ◌∷◌, ◌++◌,
  arith, if◌then◌else◌, Bool-cases, Option-cases, length, All, ◌==◌, nat_eq, bytes_eq, int_eq, ℤ,
  pos, find, find-insert, length-insert,
}
use core_telegram_api.Webhook.Queue.{entries, wakeup, entries-emplace, wakeup-emplace}
use core_telegram_api.Webhook.Delivery.{
  Update, Event, Delivery, events, target_queue, new_update, enqueue, load_update, load_all,
}
use core_telegram_api.Webhook.Delivery.Invariant.{
  has, Distinct, has_concat, Distinct-concat, owner, due, front_of, Scheduled, Inv,
}

module _ (d : Delivery) (fl : ℕ → ℕ) (v : Inv d fl) (now next : ℕ) (ev : Event)
    (fresh : find ev.id d.update_map ≡ none) where
  abbrev t : ℤ
  t = target_queue d ev

  events_enqueue :
      (q : ℤ)
      → events (enqueue now next ev d) q ≡ (if t == q then events d t ++ ev.id ∷ [] else events d q)
  unfolding enqueue
  events_enqueue q = ground (arith, find-insert t q (events d t ++ ev.id ∷ []) d.queue_updates)

  owner-enqueue :
      (e : ℕ) → owner (enqueue now next ev d) e ≡ (if ev.id == e then some t else owner d e)
  unfolding enqueue
  owner-enqueue e = ground (arith, find-insert ev.id e (new_update now ev t) d.update_map)

  not_loaded : (q : ℤ) → has ev.id (events d q) ≡ false
  not_loaded q = ground (arith, v.known q ev.id)

  known' :
      (q : ℤ) (e : ℕ)
      → has e (events (enqueue now next ev d) q) ≡ true
      → owner (enqueue now next ev d) e ≡ some q
  known' q e h = ground (
    arith,
    events_enqueue q,
    owner-enqueue e,
    has_concat e ev.id (events d t),
    v.known q e,
    v.known t e,
    int_eq.beq_iff t q,
  )

  owned' :
      (q : ℤ) (e : ℕ)
      → owner (enqueue now next ev d) e ≡ some q
      → has e (events (enqueue now next ev d) q) ≡ true
  owned' q e h = ground (
    arith,
    events_enqueue q,
    owner-enqueue e,
    has_concat e ev.id (events d t),
    v.owned q e,
    v.owned t e,
    int_eq.beq_iff t q,
  )

  distinct' : (q : ℤ) → Distinct (events (enqueue now next ev d) q)
  distinct' q = elim (Bool-cases (t == q)) [
    | inl y ↦
        rw (events_enqueue q, y) (Distinct-concat ev.id (events d t) (v.distinct t) (not_loaded t))
    | inr n ↦ rw (events_enqueue q, n) (v.distinct q)
  ]

  not_flying : fl ev.id ≡ 0
  not_flying = ground (arith, v.carried_first ev.id)

  once' :
      (q : ℤ)
      → Scheduled fl (events (enqueue now next ev d) q) (entries q (enqueue now next ev d).queues)
  unfolding enqueue
  once' q = ground (
    arith,
    not_flying,
    events_enqueue q,
    v.once q,
    v.once t,
    entries-emplace (record { wakeup_at = now; id = t }) q d.queues,
    int_eq.beq_iff t q,
  )

  due-enqueue :
      (q : ℤ) (es : List ℕ) → has ev.id es ≡ false → due (enqueue now next ev d) es ≡ due d es
  unfolding enqueue
  due-enqueue q [] h = refl
  due-enqueue q (e ∷ es) h = ground (arith, find-insert ev.id e (new_update now ev t) d.update_map)

  due' :
      (q : ℤ) (w : ℕ)
      → wakeup q (enqueue now next ev d).queues ≡ some w
      → due (enqueue now next ev d) (events (enqueue now next ev d) q) ≡ some w
  unfolding enqueue
  due' q w h = ground (
    arith,
    events_enqueue q,
    due-enqueue q (events d q) (not_loaded q),
    due-enqueue t (events d t) (not_loaded t),
    v.due_on_time q w,
    v.once t,
    wakeup-emplace (record { wakeup_at = now; id = t }) q d.queues,
    int_eq.beq_iff t q,
    find-insert ev.id ev.id (new_update now ev t) d.update_map,
  )

  carried' :
      (e : ℕ)
      → fl e ≢ 0
      → front_of (enqueue now next ev d) (owner (enqueue now next ev d) e) ≡ some e
  carried' e h =
      ground (arith, not_flying, owner-enqueue e, v.carried_first e h, front_enqueue (owner d e))
    where
      front_enqueue :
          (o : Option ℤ) → front_of d o ≡ some e → front_of (enqueue now next ev d) o ≡ some e
      front_enqueue none k = k
      front_enqueue (some q) k = ground (arith, events_enqueue q, int_eq.beq_iff t q)

  named' : (e : ℕ) (u : Update) → find e (enqueue now next ev d).update_map ≡ some u → u.id ≡ e
  unfolding enqueue
  named' e u h = ground (arith, v.named e u, find-insert ev.id e (new_update now ev t) d.update_map)

  nonempty' : (q : ℤ) → find q (enqueue now next ev d).queue_updates ≢ some []
  unfolding enqueue
  nonempty' q h =
      ground (arith, v.nonempty q, find-insert t q (events d t ++ ev.id ∷ []) d.queue_updates)

  no_zero' : events (enqueue now next ev d) (pos 0) ≡ []
  no_zero' = ground (
    arith,
    v.no_zero,
    v.unique_positive,
    events_enqueue (pos 0),
    int_eq.beq_iff t (pos 0),
    int_eq.beq_iff ev.extra (pos 0),
  )

  -- A new event goes to the end of its queue, and starts a queue that was empty.
  pub enqueue-Inv : Inv (enqueue now next ev d) fl
  unfolding enqueue
  enqueue-Inv = record {
    known = known';
    owned = owned';
    named = named';
    nonempty = nonempty';
    distinct = distinct';
    due_on_time = due';
    once = once';
    carried_first = carried';
    no_zero = no_zero';
    unique_positive = ground (arith, v.unique_positive);
  }

-- What `TQueue::get` promises of one event: it is not expired, and its identifier has a successor.
abbrev pub IsFit : ℕ → (ℕ → Option ℕ) → Event → Type 0
IsFit unix_time next ev = (unix_time ≤ ev.expires_at) × ((n : ℕ) × (next ev.id ≡ some n))

-- What a round of the loop, and the loop, lead to: a state in which the invariant holds, the
-- connections are as they were, and at most `n` queues are new.
pub record Loaded (fl : ℕ → ℕ) (n : ℕ) (d : Delivery) (r : Option Delivery) : Type 0 where
  pub after : Delivery
  pub succeeds : r ≡ some after
  pub inv : Inv after fl
  pub same_connections : after.connections ≡ d.connections
  pub new_queues : length after.queue_updates ≤ length d.queue_updates + n

module _ (fl : ℕ → ℕ) (now unix_time : ℕ) (next : ℕ → Option ℕ) where
  length-enqueue :
      (n : ℕ) (ev : Event) (d : Delivery)
      → length (enqueue now n ev d).queue_updates ≤ length d.queue_updates + 1
  unfolding enqueue
  length-enqueue n ev d = length-insert _ _ d.queue_updates

  pub load_update-Loaded :
      (ev : Event) (d : Delivery)
      → IsFit unix_time next ev
      → Inv d fl
      → Loaded fl 1 d (load_update now unix_time next ev d)
  unfolding load_update
  load_update-Loaded ev d f v = elim (Option-cases (find ev.id d.update_map)) [
    | inl absent ↦ record {
      after = enqueue now f.1.0 ev d;
      succeeds = ground (arith, absent, f.0, f.1.1);
      inv = enqueue-Inv d fl v now f.1.0 ev absent;
      same_connections = unfold enqueue in refl;
      new_queues = length-enqueue f.1.0 ev d;
    }
    | inr (u, e) ↦ record {
      after = d;
      succeeds = rw (e, load_update);
      inv = v;
      same_connections = refl;
      new_queues = omega arith;
    }
  ]

  pub load_all-Loaded :
      (evs : List Event) (d : Delivery)
      → All (IsFit unix_time next) evs
      → Inv d fl
      → Loaded fl (length evs) d (load_all now unix_time next evs d)
  unfolding load_all
  load_all-Loaded [] d f v = record {
    after = d;
    succeeds = refl;
    inv = v;
    same_connections = refl;
    new_queues = omega arith;
  }
  load_all-Loaded (ev ∷ evs) d f v =
      let one = load_update-Loaded ev d f.0 v in
      let rest = load_all-Loaded evs one.after f.1 one.inv in
      record {
        after = rest.after;
        succeeds = rw (one.succeeds, load_all) rest.succeeds;
        inv = rest.inv;
        same_connections = rest.same_connections ∙ one.same_connections;
        new_queues = omega (arith, one.new_queues, rest.new_queues);
      }
