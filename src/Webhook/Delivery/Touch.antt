-- ===== src/Webhook/Delivery/Touch.antt =====
-- A step that changes one update, the first of its queue, and where that queue is scheduled.
use core_telegram_api.Common.{
  ℕ, ◌≡◌, refl, sym, ap, ◌∙◌, ◌≢◌, inl, inr, false, Option, none, some, List, [], ◌∷◌, arith,
  if◌then◌else◌, Bool-cases, ◌==◌, nat_eq, bytes_eq, int_eq, ℤ, pos, find,
}
use core_telegram_api.Webhook.Queue.{entries, wakeup}
use core_telegram_api.Webhook.Delivery.{Update, Delivery, events, or_empty}
use core_telegram_api.Webhook.Delivery.Invariant.{has, owner, due, front, front_of, Scheduled, Inv}

pub record IsTouched (d d' : Delivery) (fl' : ℕ → ℕ) (e : ℕ) (es : List ℕ) (u' : Update)
    : Type 0 where
  pub update_of : (x : ℕ) → find x d'.update_map ≡ (if e == x then some u' else find x d.update_map)
  pub same_updates : d'.queue_updates ≡ d.queue_updates
  pub same_unique : d'.unique_queue_id ≡ d.unique_queue_id
  pub entries_other :
      (p : ℤ) → (u'.queue_id == p) ≡ false → entries p d'.queues ≡ entries p d.queues
  pub wakeup_other : (p : ℤ) → (u'.queue_id == p) ≡ false → wakeup p d'.queues ≡ wakeup p d.queues
  pub scheduled : Scheduled fl' (e ∷ es) (entries u'.queue_id d'.queues)
  pub on_time : (w : ℕ) → wakeup u'.queue_id d'.queues ≡ some w → u'.wakeup_at ≡ w

module _ (d d' : Delivery) (fl fl' : ℕ → ℕ) (v : Inv d fl) (e : ℕ)
    (others : (x : ℕ) → x ≢ e → fl' x ≡ fl x) (u u' : Update) (es : List ℕ) (same_id : u'.id ≡ u.id)
    (same_queue : u'.queue_id ≡ u.queue_id) (loaded : find e d.update_map ≡ some u)
    (queued : events d u'.queue_id ≡ e ∷ es) (w : IsTouched d d' fl' e es u') where
  abbrev q : ℤ
  q = u'.queue_id

  events_same : (p : ℤ) → events d' p ≡ events d p
  events_same p = ap (λ m. or_empty (find p m)) w.same_updates

  owner_same : (x : ℕ) → owner d' x ≡ owner d x
  owner_same x = ground (arith, w.update_of x, loaded, same_queue)

  not_in_other : (p : ℤ) → (q == p) ≡ false → has e (events d p) ≡ false
  not_in_other p h = ground (arith, v.known p e, loaded, same_queue, int_eq.beq_iff q p)

  due_other : (xs : List ℕ) → has e xs ≡ false → due d' xs ≡ due d xs
  due_other [] h = refl
  due_other (x ∷ xs) h = ground (arith, w.update_of x)

  due_first : due d' (e ∷ es) ≡ some u'.wakeup_at
  due_first = ground (arith, w.update_of e)

  due' : (p : ℤ) (t : ℕ) → wakeup p d'.queues ≡ some t → due d' (events d' p) ≡ some t
  due' p t h = elim (Bool-cases (q == p)) [
    | inl same ↦
        let e₁ = (int_eq.beq_iff q p).0 same in
        rw (events_same p, ← e₁, queued) (due_first ∙ ap some (w.on_time t (rw e₁ h)))
    | inr other ↦
        rw (events_same p, due_other (events d p) (not_in_other p other))
          (v.due_on_time p t (rw (← w.wakeup_other p other) h))
  ]

  Scheduled-other :
      (ys : List ℕ) (n : ℕ) → Scheduled fl ys n → has e ys ≡ false → Scheduled fl' ys n
  Scheduled-other [] n h k = h
  Scheduled-other (x ∷ xs) n h k = ground (arith, others x)

  once' : (p : ℤ) → Scheduled fl' (events d' p) (entries p d'.queues)
  once' p = elim (Bool-cases (q == p)) [
    | inl same ↦ rw (events_same p, ← (int_eq.beq_iff q p).0 same, queued) w.scheduled
    | inr other ↦
        rw (events_same p, w.entries_other p other)
          (Scheduled-other (events d p) (entries p d.queues) (v.once p) (not_in_other p other))
  ]

  front_same : (o : Option ℤ) → front_of d' o ≡ front_of d o
  front_same none = refl
  front_same (some p) = ap front (events_same p)

  carried' : (x : ℕ) → fl' x ≢ 0 → front_of d' (owner d' x) ≡ some x
  carried' x h = elim (Bool-cases (e == x)) [
    | inl same ↦
        rw (front_same (owner d' x), owner_same x) (ground (arith, loaded, same_queue, queued))
    | inr other ↦
        rw (front_same (owner d' x), owner_same x) (v.carried_first x (ground (arith, others x)))
  ]

  pub IsTouched-Inv : Inv d' fl'
  IsTouched-Inv = record {
    known = λ p x h. owner_same x ∙ v.known p x (rw (events_same p) at h);
    owned = λ p x h. rw (events_same p) (v.owned p x (sym (owner_same x) ∙ h));
    named = λ x y h. ground (arith, w.update_of x, v.named x y, v.named e u, loaded, same_id);
    nonempty = λ p. rw w.same_updates (v.nonempty p);
    distinct = λ p. rw (events_same p) (v.distinct p);
    due_on_time = due';
    once = once';
    carried_first = carried';
    no_zero = events_same (pos 0) ∙ v.no_zero;
    unique_positive = rw w.same_unique v.unique_positive;
  }
