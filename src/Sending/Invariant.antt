-- ===== src/Sending/Invariant.antt =====
-- What holds of the messages that are being sent, between two events.
use core_telegram_api.Common.{
  ℕ, ◌+◌, ◌-◌, ◌≤◌, ◌<◌, ◌≡◌, refl, ◌≢◌, ◌⊎◌, true, Option, none, some, List, [], ◌∷◌, ◌++◌, arith,
  if◌then◌else◌, ◌==◌, nat_eq, bytes_eq, int_eq, beq_refl, ℤ, Map, Unique, find, insert, erase,
  find-insert, find-erase, tally,
}
use core_telegram_api.Sending.{
  MessageFullId, full_id_eq, Pending, single, album, forward, Request, Answer, Sending, or_zero,
  decrease,
}

abbrev pub waits_for : ℕ → MessageFullId → ℕ → ℕ
waits_for q m x = if x == q then 1 else 0

abbrev pub lies_in : ℤ → MessageFullId → ℕ → ℕ
lies_in c m x = if m.0 == c then 1 else 0

abbrev pub asks_for : ℤ → ℕ → Request → ℕ
asks_for c i r = if r.chat_id == c then r.message_count else 0

abbrev pub asked_by : ℕ → ℕ → Request → ℕ
asked_by x i r = if r.query == x then 1 else 0

abbrev pub held_for : ℕ → ℕ → Pending → ℕ
held_for x q p = if p.query == x then 1 else 0

-- How many messages a query waits for.
abbrev pub awaited : Sending → ℕ → ℕ
awaited s q = tally (waits_for q) s.unsent

-- How many messages of a chat are not sent yet, and how many are in requests with no result yet.
abbrev pub unsent_in : Sending → ℤ → ℕ
unsent_in s c = tally (lies_in c) s.unsent

abbrev pub requested : Sending → ℤ → ℕ
requested s c = tally (asks_for c) s.requests

abbrev pub times : ℕ → List (ℕ × Answer) → ℕ
times x [] = 0
times x ((y, a) ∷ rs) = (if y == x then 1 else 0) + times x rs

-- How often a query is held by a request or by a pending query, and how often it was answered.
abbrev pub holding : Sending → ℕ → ℕ
holding s x = tally (asked_by x) s.requests + tally (held_for x) s.pending

abbrev pub answered : Sending → ℕ → ℕ
answered s x = times x s.answers

abbrev pub ledger : Sending → ℕ → ℕ
ledger s x = holding s x + answered s x

abbrev pub owed : ℤ → ℕ → ℤ → ℕ
owed c k d = if c == d then k else 0

-- A request for one message is for one, and every request is for some.
abbrev pub IsSized : Request → Type 0
IsSized r = elim r.kind [
  | single ↦ r.message_count ≡ 1
  | album ↦ 0 < r.message_count
  | forward ↦ 0 < r.message_count
]

-- `debt` are the messages of each chat that were counted, but are neither requested nor unsent.
pub record Core (debt : ℤ → ℕ) (s : Sending) : Type 0 where
  pub awaits :
      (q : ℕ) (p : Pending) → find q s.pending ≡ some p → awaited s q ≡ p.awaited_message_count
  pub known : (m : MessageFullId) (q : ℕ) → find m s.unsent ≡ some q → find q s.pending ≢ none
  pub below : (q : ℕ) (p : Pending) → find q s.pending ≡ some p → q < s.next_query_id
  pub counted : (c : ℤ) → or_zero (find c s.counts) ≡ requested s c + unsent_in s c + debt c
  pub unique_unsent : Unique s.unsent
  pub unique_pending : Unique s.pending
  pub unique_requests : Unique s.requests
  pub sized : (i : ℕ) (r : Request) → find i s.requests ≡ some r → IsSized r

-- A pending query waits for a message, and for exactly one unless it sends several.
abbrev pub IsWaiting : Pending → Type 0
IsWaiting p =
    (0 < p.awaited_message_count) × ((p.is_multisend ≡ true) ⊎ (p.awaited_message_count ≡ 1))

abbrev pub no_debt : ℤ → ℕ
no_debt c = 0

pub record Inv (s : Sending) : Type 0 where
  pub core : Core no_debt s
  pub waiting : (q : ℕ) (p : Pending) → find q s.pending ≡ some p → IsWaiting p

-- What an event leads to: it fails no `CHECK`, keeps the invariant, and each query is held or was
-- answered as often as before.
pub record Kept (s : Sending) (r : Option Sending) : Type 0 where
  pub after : Sending
  pub succeeds : r ≡ some after
  pub inv : Inv after
  pub conserved : (x : ℕ) → ledger after x ≡ ledger s x

pub times-append :
    (x : ℕ) (rs : List (ℕ × Answer)) (y : ℕ) (a : Answer)
    → times x (rs ++ (y, a) ∷ []) ≡ times x rs + (if y == x then 1 else 0)
times-append x [] y a = ground arith
times-append x ((z, b) ∷ rs) y a = omega (arith, times-append x rs y a)

-- Other counts, with another debt.
pub Core-counts :
    (debt debt' : ℤ → ℕ) (s : Sending) (m : Map ℤ ℕ)
    → Core debt s
    → ((c : ℤ) → or_zero (find c m) + debt c ≡ or_zero (find c s.counts) + debt' c)
    → Core debt' (record s { counts = m })
Core-counts debt debt' s m v h = record {
  awaits = v.awaits;
  known = v.known;
  below = v.below;
  counted = λ c. omega (arith, h c, v.counted c);
  unique_unsent = v.unique_unsent;
  unique_pending = v.unique_pending;
  unique_requests = v.unique_requests;
  sized = v.sized;
}

-- Answers, and deletions, are not part of it.
pub Core-answers :
    (debt : ℤ → ℕ) (s : Sending) (rs : List (ℕ × Answer)) (ds : List MessageFullId)
    → Core debt s
    → Core debt (record s { answers = rs; deletions = ds })
Core-answers debt s rs ds v = record {
  awaits = v.awaits;
  known = v.known;
  below = v.below;
  counted = v.counted;
  unique_unsent = v.unique_unsent;
  unique_pending = v.unique_pending;
  unique_requests = v.unique_requests;
  sized = v.sized;
}

-- `decrease` takes off what is there.
pub decrease_lem :
    (c : ℤ) (n : ℕ) (s : Sending)
    → 0 < n
    → n ≤ or_zero (find c s.counts)
    → (m : Map ℤ ℕ) × (decrease c n s ≡ some (record s { counts = m }))
      × ((d : ℤ) → or_zero (find d m) + owed c n d ≡ or_zero (find d s.counts))
unfolding decrease
decrease_lem c n s h k = go (find c s.counts) refl
  where
    go :
        (o : Option ℕ)
        → find c s.counts ≡ o
        → (m : Map ℤ ℕ) × (decrease c n s ≡ some (record s { counts = m }))
          × ((d : ℤ) → or_zero (find d m) + owed c n d ≡ or_zero (find d s.counts))
    go none e = absurd (ground (arith, h, k, e))
    go (some x) e = (
      (if x == n then erase c s.counts else insert c (x - n) s.counts),
      ground (arith, e, k),
      λ d. ground (
        arith,
        e,
        k,
        find-erase c d s.counts,
        find-insert c d (x - n) s.counts,
        int_eq.beq_iff c d,
      ),
    )

-- A debt that `decrease` takes off.
pub decrease-Core :
    (c : ℤ) (n : ℕ) (s : Sending)
    → 0 < n
    → Core (owed c n) s
    → (m : Map ℤ ℕ) × (decrease c n s ≡ some (record s { counts = m }))
      × Core no_debt (record s { counts = m })
decrease-Core c n s h v =
    let k : n ≤ or_zero (find c s.counts) = ground (arith, v.counted c, beq_refl c) in
    let (m, e, f) = decrease_lem c n s h k in
    (m, e, Core-counts (owed c n) no_debt s m v (λ d. omega (arith, f d)))
