-- ===== src/Webhook/Queue.antt =====
-- `WebhookActor::queues_`, a `std::set<Queue>` ordered by wake-up time and queue identifier.
-- Times are whole nanoseconds, so that `integer_wakeup_at` is the wake-up time itself.
use core_telegram_api.Common.{
  ℕ, ◌+◌, ◌≡◌, refl, Bool, false, not, ◌&&◌, ◌||◌, Option, none, some, List, [], ◌∷◌, arith, ltb,
  if◌then◌else◌, ◌==◌, nat_eq, bytes_eq, int_eq, ℤ, leℤ,
}

pub record Queue : Type 0 where
  pub wakeup_at : ℕ
  pub id : ℤ

-- `Queue::operator<`, by `std::tie(integer_wakeup_at, id)`.
unfoldable pub before : Queue → Queue → Bool
before a b =
    ltb a.wakeup_at b.wakeup_at
    || (a.wakeup_at == b.wakeup_at && (leℤ a.id b.id && not (a.id == b.id)))

-- `std::set::emplace`: an element that is there already is kept.
unfoldable pub emplace : Queue → List Queue → List Queue
unfolding before
emplace q [] = q ∷ []
emplace q (x ∷ l) = if before q x then q ∷ x ∷ l else if before x q then x ∷ emplace q l else x ∷ l

-- How many entries a queue identifier has, and the wake-up time of its first entry.
unfoldable pub entries : ℤ → List Queue → ℕ
entries i [] = 0
entries i (x ∷ l) = (if x.id == i then 1 else 0) + entries i l

unfoldable pub wakeup : ℤ → List Queue → Option ℕ
wakeup i [] = none
wakeup i (x ∷ l) = if x.id == i then some x.wakeup_at else wakeup i l

module _ (q : Queue) where
  before_total : (x : Queue) → before q x ≡ false → before x q ≡ false → q.id ≡ x.id
  unfolding before
  before_total x h k = ground arith

  pub entries-emplace :
      (i : ℤ) (l : List Queue)
      → entries q.id l ≡ 0
      → entries i (emplace q l) ≡ (if q.id == i then 1 else 0) + entries i l
  unfolding emplace entries
  entries-emplace i [] h = refl
  entries-emplace i (x ∷ l) h = ground (
    arith,
    entries-emplace i l,
    before_total x,
    int_eq.beq_iff q.id x.id,
    int_eq.beq_iff x.id q.id,
  )

  pub wakeup-emplace :
      (i : ℤ) (l : List Queue)
      → entries q.id l ≡ 0
      → wakeup i (emplace q l) ≡ (if q.id == i then some q.wakeup_at else wakeup i l)
  unfolding emplace entries wakeup
  wakeup-emplace i [] h = refl
  wakeup-emplace i (x ∷ l) h = ground (
    arith,
    wakeup-emplace i l,
    before_total x,
    int_eq.beq_iff q.id x.id,
    int_eq.beq_iff x.id q.id,
    int_eq.beq_iff q.id i,
    int_eq.beq_iff x.id i,
  )

pub wakeup_of_entries : (i : ℤ) (l : List Queue) → entries i l ≡ 0 → wakeup i l ≡ none
unfolding entries wakeup
wakeup_of_entries i [] h = refl
wakeup_of_entries i (x ∷ l) h = ground (arith, wakeup_of_entries i l)
