-- ===== src/Sending/Opening.antt =====
-- How the messages of a result enter the books under a new identifier.
use core_telegram_api.Common.{
  ℕ, suc, ◌+◌, ◌<◌, ◌≡◌, refl, ◌∙◌, ◌≢◌, ◌⊎◌, Bool, true, false, Option, none, some, List, [], ◌∷◌,
  arith, if◌then◌else◌, length, All, ◌==◌, nat_eq, bytes_eq, int_eq, beq_refl, ℤ, Map, Unique, find,
  insert, find-insert, Unique-insert, tally, tally-insert,
}
use core_telegram_api.Sending.{
  MessageFullId, full_id_eq, Pending, Sending, get_send_message_query_id, one_more, on_sent_message,
  on_sent_messages, open_messages,
}
use core_telegram_api.Sending.Invariant.{
  waits_for, lies_in, held_for, awaited, ledger, owed, Core, IsWaiting, no_debt, Inv, Core-counts,
}

-- Messages that are new, each in its turn.
abbrev pub Fresh : ℕ → List MessageFullId → Map MessageFullId ℕ → Type 0
Fresh q [] u = Unit
Fresh q (m ∷ ms) u = (find m u ≡ none) × Fresh q ms (insert m q u)

abbrev pub InChat : ℤ → List MessageFullId → Type 0
InChat c ms = All (λ (m : MessageFullId). m.0 ≡ c) ms

-- The query with `n` messages more, while all else is as it was.
record Grown (c : ℤ) (q : ℕ) (p : Pending) (n : ℕ) (s : Sending) (r : Option Sending) : Type 0 where
  after : Sending
  succeeds : r ≡ some after
  core : Core (owed c 0) after
  mine : Pending
  found : find q after.pending ≡ some mine
  awaits : mine.awaited_message_count ≡ p.awaited_message_count + n
  same_kind : mine.is_multisend ≡ p.is_multisend
  others : (x : ℕ) → (q == x) ≡ false → find x after.pending ≡ find x s.pending
  conserved : (x : ℕ) → ledger after x ≡ ledger s x

module _ (c : ℤ) (q : ℕ) where
  -- One message.
  module _ (m : MessageFullId) (k : ℕ) (p : Pending) (s : Sending) (v : Core (owed c (suc k)) s)
      (new : find m s.unsent ≡ none) (there : find q s.pending ≡ some p) (here : m.0 ≡ c) where
    abbrev noted : Sending
    noted = record s { unsent = insert m q s.unsent; pending = insert q (one_more p) s.pending }

    noted-known :
        (n : MessageFullId) (x : ℕ) → find n noted.unsent ≡ some x → find x noted.pending ≢ none
    noted-known n x h = ground (
      arith,
      h,
      find-insert m n q s.unsent,
      find-insert q x (one_more p) s.pending,
      v.known n x,
      nat_eq.beq_iff q x,
    )

    noted-Core : Core (owed c k) noted
    noted-Core = record {
      awaits = λ x y h. ground (
        arith,
        h,
        find-insert q x (one_more p) s.pending,
        v.awaits x y,
        v.awaits q p,
        there,
        new,
        tally-insert (waits_for x) m q s.unsent,
        nat_eq.beq_iff q x,
      );
      known = noted-known;
      below = λ x y h. ground (
        arith,
        h,
        find-insert q x (one_more p) s.pending,
        v.below x y,
        v.below q p,
        there,
        nat_eq.beq_iff q x,
      );
      counted = λ d. ground (
        arith,
        v.counted d,
        tally-insert (lies_in d) m q s.unsent,
        new,
        here,
        int_eq.beq_iff c d,
      );
      unique_unsent = Unique-insert m q s.unsent v.unique_unsent;
      unique_pending = Unique-insert q (one_more p) s.pending v.unique_pending;
      unique_requests = v.unique_requests;
      sized = v.sized;
    }

    ledger-noted : (x : ℕ) → ledger noted x ≡ ledger s x
    ledger-noted x = ground (arith, tally-insert (held_for x) q (one_more p) s.pending, there)

  on_sent_messages-Grown :
      (ms : List MessageFullId) (p : Pending) (s : Sending)
      → Core (owed c (length ms)) s
      → InChat c ms
      → Fresh q ms s.unsent
      → find q s.pending ≡ some p
      → Grown c q p (length ms) s (on_sent_messages ms q s)
  unfolding on_sent_messages on_sent_message
  on_sent_messages-Grown [] p s v i f there = record {
    after = s;
    succeeds = refl;
    core = v;
    mine = p;
    found = there;
    awaits = omega arith;
    same_kind = refl;
    others = λ x h. refl;
    conserved = λ x. refl;
  }
  on_sent_messages-Grown (m ∷ ms) p s v i f there =
      let s' = noted m (length ms) p s v f.0 there i.0 in
      let r =
        on_sent_messages-Grown ms (one_more p) s' (noted-Core m (length ms) p s v f.0 there i.0) i.1
          f.1 (ground (arith, find-insert q q (one_more p) s.pending, beq_refl q)) in
      record {
        after = r.after;
        succeeds = ground (arith, f.0, there, r.succeeds);
        core = r.core;
        mine = r.mine;
        found = r.found;
        awaits = omega (arith, r.awaits);
        same_kind = r.same_kind;
        others = λ x h. ground (arith, r.others x, h, find-insert q x (one_more p) s.pending);
        conserved = λ x. r.conserved x ∙ ledger-noted m (length ms) p s v f.0 there i.0 x;
      }

-- An identifier that no message has.
none_waits :
    (q : ℕ) (u : Map MessageFullId ℕ)
    → Unique u
    → ((m : MessageFullId) → find m u ≢ some q)
    → tally (waits_for q) u ≡ 0
unfolding tally find
none_waits q [] h n = refl
none_waits q ((k, x) ∷ u) h n =
    let rest : tally (waits_for q) u ≡ 0 = none_waits q u h.1 (λ m e. n m (skip m e)) in
    ground (arith, rest, n k, full_id_eq.beq_iff k k)
  where
    skip : (m : MessageFullId) → find m u ≡ some q → find m ((k, x) ∷ u) ≡ some q
    skip m e = ground (arith, e, h.0, full_id_eq.beq_iff k m)

-- What holds when messages have been entered.
pub record Opened (query : ℕ) (s : Sending) (r : Option Sending) : Type 0 where
  pub after : Sending
  pub succeeds : r ≡ some after
  pub inv : Inv after
  pub conserved : (x : ℕ) → ledger after x ≡ ledger s x + (if query == x then 1 else 0)

module _ (c : ℤ) (is_multisend : Bool) (query : ℕ) (ms : List MessageFullId) (s : Sending)
    (v : Core (owed c (length ms)) s)
    (w : (q : ℕ) (p : Pending) → find q s.pending ≡ some p → IsWaiting p) where
  abbrev newcomer : Pending
  newcomer = record {
    query = query;
    is_multisend = is_multisend;
    total_message_count = 0;
    awaited_message_count = 0;
    messages = [];
    error = none;
  }

  abbrev numbered : Sending
  numbered = record s {
    next_query_id = s.next_query_id + 1;
    pending = insert s.next_query_id newcomer s.pending;
  }

  next_free : find s.next_query_id s.pending ≡ none
  next_free = go (find s.next_query_id s.pending) refl
    where
      go : (o : Option Pending) → find s.next_query_id s.pending ≡ o → o ≡ none
      go none e = refl
      go (some p) e = absurd (ground (arith, v.below s.next_query_id p e))

  none_yet : awaited s s.next_query_id ≡ 0
  none_yet =
      none_waits s.next_query_id s.unsent v.unique_unsent
        (λ m e. v.known m s.next_query_id e next_free)

  numbered-known :
      (m : MessageFullId) (q : ℕ) → find m numbered.unsent ≡ some q → find q numbered.pending ≢ none
  numbered-known m q h =
      ground (arith, h, find-insert s.next_query_id q newcomer s.pending, v.known m q)

  numbered-Core : Core (owed c (length ms)) numbered
  numbered-Core = record {
    awaits = λ q p h. ground (
      arith,
      h,
      find-insert s.next_query_id q newcomer s.pending,
      v.awaits q p,
      none_yet,
      nat_eq.beq_iff s.next_query_id q,
    );
    known = numbered-known;
    below = λ q p h. ground (
      arith,
      h,
      find-insert s.next_query_id q newcomer s.pending,
      v.below q p,
      nat_eq.beq_iff s.next_query_id q,
    );
    counted = v.counted;
    unique_unsent = v.unique_unsent;
    unique_pending = Unique-insert s.next_query_id newcomer s.pending v.unique_pending;
    unique_requests = v.unique_requests;
    sized = v.sized;
  }

  ledger-numbered : (x : ℕ) → ledger numbered x ≡ ledger s x + (if query == x then 1 else 0)
  ledger-numbered x =
      ground (arith, tally-insert (held_for x) s.next_query_id newcomer s.pending, next_free)

  pub open_messages-Opened :
      InChat c ms
      → Fresh s.next_query_id ms s.unsent
      → 0 < length ms
      → (is_multisend ≡ true) ⊎ (length ms ≡ 1)
      → Opened query s (open_messages is_multisend query ms s)
  unfolding open_messages get_send_message_query_id
  open_messages-Opened i f some_left one =
      let g = on_sent_messages-Grown c s.next_query_id ms newcomer numbered numbered-Core i f (
        ground (
          arith,
          find-insert s.next_query_id s.next_query_id newcomer s.pending,
          beq_refl s.next_query_id,
        )) in
      record {
        after = g.after;
        succeeds = ground (arith, next_free, g.succeeds);
        inv = record {
          core = Core-counts (owed c 0) no_debt g.after (g.after.counts) g.core (λ d. ground arith);
          waiting = λ q p h. ground (
            arith,
            h,
            g.found,
            g.awaits,
            g.same_kind,
            some_left,
            one,
            g.others q,
            w q p,
            find-insert s.next_query_id q newcomer s.pending,
            nat_eq.beq_iff s.next_query_id q,
          );
        };
        conserved = λ x. g.conserved x ∙ ledger-numbered x;
      }
