-- ===== src/Webhook/Delivery/Invariant.antt =====
-- What holds of the loaded updates between two steps of the actor: each queue of updates has either
-- one entry in `queues_` or its first update on one connection. `fl` counts the connections that
-- carry an update.
use core_telegram_api.Common.{
  ℕ, ◌+◌, ◌<◌, ◌≡◌, refl, sym, ap, ◌∙◌, subst, ◌≢◌, Bool, true, false, ◌||◌, Option, none, some,
  List, [], ◌∷◌, ◌++◌, arith, ◌==◌, nat_eq, bytes_eq, int_eq, ℤ, pos, Map, Unique, find, count,
}
use mathlib.Core.Path.{fun_ext}
use core_telegram_api.Webhook.Queue.{entries, wakeup}
use core_telegram_api.Webhook.Delivery.{Update, Connection, Delivery, events}

abbrev pub has : ℕ → List ℕ → Bool
has e [] = false
has e (x ∷ xs) = e == x || has e xs

abbrev pub Distinct : List ℕ → Type 0
Distinct [] = Unit
Distinct (x ∷ xs) = (has x xs ≡ false) × Distinct xs

pub has_concat : (e y : ℕ) (xs : List ℕ) → has e (xs ++ y ∷ []) ≡ (has e xs || e == y)
has_concat e y [] = ground arith
has_concat e y (x ∷ xs) = ground (arith, has_concat e y xs)

pub Distinct-concat :
    (y : ℕ) (xs : List ℕ) → Distinct xs → has y xs ≡ false → Distinct (xs ++ y ∷ [])
Distinct-concat y [] h k = (refl, tt)
Distinct-concat y (x ∷ xs) h k = ground (arith, has_concat x y xs, Distinct-concat y xs h.1)

abbrev pub queue_of : Option Update → Option ℤ
queue_of none = none
queue_of (some u) = some u.queue_id

-- The queue that a loaded update belongs to.
abbrev pub owner : Delivery → ℕ → Option ℤ
owner d e = queue_of (find e d.update_map)

abbrev pub wakeup_of : Option Update → Option ℕ
wakeup_of none = none
wakeup_of (some u) = some u.wakeup_at

abbrev pub due : Delivery → List ℕ → Option ℕ
due d [] = none
due d (e ∷ es) = wakeup_of (find e d.update_map)

abbrev pub front : List ℕ → Option ℕ
front [] = none
front (e ∷ es) = some e

abbrev pub front_of : Delivery → Option ℤ → Option ℕ
front_of d none = none
front_of d (some q) = front (events d q)

-- How many entries and connections a queue with these events has: one, or none if it is empty.
abbrev pub Scheduled : (ℕ → ℕ) → List ℕ → ℕ → Type 0
Scheduled fl [] n = n ≡ 0
Scheduled fl (e ∷ es) n = n + fl e ≡ 1

pub record Inv (d : Delivery) (fl : ℕ → ℕ) : Type 0 where
  pub known : (q : ℤ) (e : ℕ) → has e (events d q) ≡ true → owner d e ≡ some q
  pub owned : (q : ℤ) (e : ℕ) → owner d e ≡ some q → has e (events d q) ≡ true
  pub named : (e : ℕ) (u : Update) → find e d.update_map ≡ some u → u.id ≡ e
  pub nonempty : (q : ℤ) → find q d.queue_updates ≢ some []
  pub distinct : (q : ℤ) → Distinct (events d q)
  pub due_on_time : (q : ℤ) (w : ℕ) → wakeup q d.queues ≡ some w → due d (events d q) ≡ some w
  pub once : (q : ℤ) → Scheduled fl (events d q) (entries q d.queues)
  pub carried_first : (e : ℕ) → fl e ≢ 0 → front_of d (owner d e) ≡ some e
  pub no_zero : events d (pos 0) ≡ []
  pub unique_positive : 0 < d.unique_queue_id

abbrev pub carries : ℕ → Connection → Bool
carries e k = elim k.event_id [ none ↦ false | some x ↦ x == e ]

-- How many connections carry an update.
abbrev pub flying : Delivery → ℕ → ℕ
flying d e = count (carries e) d.connections

-- A connection is in `ready_connections_` exactly when it carries nothing.
abbrev pub IsIdleReady : Connection → Type 0
IsIdleReady k = elim k.event_id [ none ↦ k.is_ready ≡ true | some e ↦ k.is_ready ≡ false ]

pub record IsSound (d : Delivery) : Type 0 where
  pub inv : Inv d (flying d)
  pub unique_ids : Unique d.connections
  pub idle_ready : (c : ℕ) (k : Connection) → find c d.connections ≡ some k → IsIdleReady k

-- The invariant is about neither the connections themselves nor the offset.
pub Inv-reconnect :
    (d : Delivery) (fl : ℕ → ℕ) (cs : Map ℕ Connection) (o : Option ℕ)
    → Inv d fl
    → Inv (record d { connections = cs; tqueue_offset = o }) fl
Inv-reconnect d fl cs o v = record {
  known = v.known;
  owned = v.owned;
  named = v.named;
  nonempty = v.nonempty;
  distinct = v.distinct;
  due_on_time = v.due_on_time;
  once = v.once;
  carried_first = v.carried_first;
  no_zero = v.no_zero;
  unique_positive = v.unique_positive;
}

pub Inv-recount : (d : Delivery) (fl fl' : ℕ → ℕ) → ((x : ℕ) → fl x ≡ fl' x) → Inv d fl → Inv d fl'
Inv-recount d fl fl' h = subst (Inv d) (fun_ext h)

pub flying_same :
    (d d' : Delivery) → d'.connections ≡ d.connections → (x : ℕ) → flying d x ≡ flying d' x
flying_same d d' h x = ap (count (carries x)) (sym h)

-- A change of the updates that leaves the connections alone.
pub IsSound-same :
    (d d' : Delivery) → IsSound d → Inv d' (flying d) → d'.connections ≡ d.connections → IsSound d'
IsSound-same d d' s v h = record {
  inv = Inv-recount d' (flying d) (flying d') (flying_same d d' h) v;
  unique_ids = rw h s.unique_ids;
  idle_ready = λ c k e. s.idle_ready c k (ap (find c) (sym h) ∙ e);
}
