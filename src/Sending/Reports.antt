-- ===== src/Sending/Reports.antt =====
-- The reports that a message was sent, or could not be sent.
use core_telegram_api.Common.{
  ℕ, ◌+◌, ◌-◌, ◌≤◌, ◌<◌, ◌≡◌, refl, sym, subst, ◌≢◌, inl, inr, Bool, false, not, ◌&&◌, Option, none,
  some, [], ◌∷◌, ◌++◌, arith, if◌then◌else◌, Bool-cases, ◌==◌, nat_eq, bytes_eq, int_eq, beq_refl,
  ℤ, Map, Unique, find, insert, erase, find-insert, find-erase, Unique-insert, Unique-erase,
  tally-insert, tally-erase, tally_pos, Bytes,
}
use core_telegram_api.Sending.{
  TdError, MessageFullId, full_id_eq, Pending, Answer, sent, failed, Sending, or_zero, decrease,
  extract, finish, settle_one, settle_single, final_answer, on_message_send_succeeded,
  on_message_send_failed, merge_error, delete_after,
}
use core_telegram_api.Sending.Invariant.{
  waits_for, lies_in, held_for, awaited, unsent_in, ledger, owed, IsWaiting, no_debt, Inv, Kept,
  times-append, Core-answers, decrease_lem,
}

module _ (m : MessageFullId) (q : ℕ) (s : Sending) (v : Inv s)
    (there : find m s.unsent ≡ some q) where
  -- The pending query of the message.
  holder : (p : Pending) × (find q s.pending ≡ some p)
  holder = go (find q s.pending) refl
    where
      go : (o : Option Pending) → find q s.pending ≡ o → (p : Pending) × (find q s.pending ≡ some p)
      go none e = absurd (v.core.known m q there e)
      go (some p) e = (p, e)

  abbrev without : Map ℤ ℕ → Map ℕ Pending → Sending
  without cs ps = record s { unsent = erase m s.unsent; counts = cs; pending = ps }

  one_there : 1 ≤ unsent_in s m.0
  one_there = ground (arith, tally_pos (lies_in m.0) m q s.unsent there, beq_refl m.0)

  lower :
      (cs : Map ℤ ℕ) × (decrease m.0 1 (record s { unsent = erase m s.unsent })
        ≡ some (without cs s.pending))
      × ((d : ℤ) → or_zero (find d cs) + owed m.0 1 d ≡ or_zero (find d s.counts))
  lower =
      decrease_lem m.0 1 (record s { unsent = erase m s.unsent }) (omega arith)
        (omega (arith, one_there, v.core.counted m.0))

  extracted : extract m s ≡ some (q, without lower.0 s.pending)
  unfolding extract
  extracted = ground (arith, there, lower.1)

  module _ (ps : Map ℕ Pending) where
    abbrev after_report : Sending
    after_report = without lower.0 ps

    awaited_after : (x : ℕ) → awaited after_report x + (if q == x then 1 else 0) ≡ awaited s x
    awaited_after x =
        ground (arith, tally-erase (waits_for x) m s.unsent v.core.unique_unsent, there)

    -- What a report needs of the pending queries after it.
    report-Inv :
        ((x : ℕ) (p : Pending)
          → find x ps ≡ some p
          → (awaited after_report x ≡ p.awaited_message_count)
            × IsWaiting p
            × (x < s.next_query_id))
        → ((x : ℕ) → find x ps ≡ none → find x s.pending ≢ none → awaited after_report x ≡ 0)
        → Unique ps
        → Inv after_report
    report-Inv h gone unique = record {
      core = record {
        awaits = λ x p e. (h x p e).0;
        known = λ n x e l. ground (
          arith,
          gone x l,
          v.core.known n x,
          tally_pos (waits_for x) n x (erase m s.unsent) e,
          find-erase m n s.unsent,
          e,
          beq_refl x,
        );
        below = λ x p e. (h x p e).2;
        counted = λ c. ground (
          arith,
          v.core.counted c,
          lower.2 c,
          tally-erase (lies_in c) m s.unsent v.core.unique_unsent,
          there,
        );
        unique_unsent = Unique-erase m s.unsent v.core.unique_unsent;
        unique_pending = unique;
        unique_requests = v.core.unique_requests;
        sized = v.core.sized;
      };
      waiting = λ x p e. (h x p e).1;
    }

  -- `p` is the pending query, with one answer or one error more.
  module _ (p₀ p : Pending) (held : find q s.pending ≡ some p₀) (same_query : p.query ≡ p₀.query)
      (same_kind : p.is_multisend ≡ p₀.is_multisend)
      (same_count : p.awaited_message_count ≡ p₀.awaited_message_count) where
    abbrev left : Pending
    left = record p { awaited_message_count = p.awaited_message_count - 1 }

    finished-Inv : p.awaited_message_count ≡ 1 → Inv (after_report (erase q s.pending))
    finished-Inv one =
        report-Inv (erase q s.pending)
          (λ x y e. ground (
            arith,
            e,
            find-erase q x s.pending,
            v.core.awaits x y,
            v.waiting x y,
            v.core.below x y,
            awaited_after (erase q s.pending) x,
          ))
          (λ x e n. ground (
            arith,
            e,
            n,
            find-erase q x s.pending,
            awaited_after (erase q s.pending) x,
            v.core.awaits q p₀ held,
            same_count,
            one,
            nat_eq.beq_iff q x,
          ))
          (Unique-erase q s.pending v.core.unique_pending)

    lowered-Inv : p.awaited_message_count ≢ 1 → Inv (after_report (insert q left s.pending))
    lowered-Inv more =
        report-Inv (insert q left s.pending)
          (λ x y e. ground (
            arith,
            e,
            find-insert q x left s.pending,
            v.core.awaits x y,
            v.waiting x y,
            v.core.below x y,
            awaited_after (insert q left s.pending) x,
            same_count,
            same_kind,
            more,
            v.core.awaits q p₀ held,
            v.waiting q p₀ held,
            v.core.below q p₀ held,
            nat_eq.beq_iff q x,
          ))
          (λ x e n. ground (arith, e, n, find-insert q x left s.pending))
          (Unique-insert q left s.pending v.core.unique_pending)

    finished-Kept :
        (a : Answer)
        → p.awaited_message_count ≡ 1
        → Kept s (some (finish q p.query a (without lower.0 s.pending)))
    finished-Kept a one =
        let i = finished-Inv one in
        record {
          after = finish q p.query a (without lower.0 s.pending);
          succeeds = refl;
          inv = record {
            core =
                Core-answers no_debt (after_report (erase q s.pending))
                  (s.answers ++ (p.query, a) ∷ []) s.deletions i.core;
            waiting = i.waiting;
          };
          conserved = λ x. ground (
            arith,
            times-append x s.answers p.query a,
            same_query,
            held,
            tally-erase (held_for x) q s.pending v.core.unique_pending,
          );
        }

    settle_one-Kept : Kept s (some (settle_one q p (without lower.0 s.pending)))
    unfolding settle_one
    settle_one-Kept = elim (Bool-cases (p.awaited_message_count == 1)) [
      | inl last ↦ rw last (finished-Kept (final_answer p) (ground (arith, last)))
      | inr some_left ↦ rw some_left (record {
        after = after_report (insert q left s.pending);
        succeeds = refl;
        inv = lowered-Inv (ground (arith, some_left));
        conserved =
            λ x. ground (arith, tally-insert (held_for x) q left s.pending, held, same_query);
      })
    ]

    settle_single-Kept :
        (a : Answer)
        → p.is_multisend ≡ false
        → Kept s (settle_single q p a (without lower.0 s.pending))
    settle_single-Kept a alone =
        let one : p.awaited_message_count ≡ 1 =
          ground (arith, v.waiting q p₀ held, same_kind, same_count, alone) in
        rw one (finished-Kept a one)

Kept-through : (s : Sending) (r t : Option Sending) → r ≡ t → Kept s t → Kept s r
Kept-through s r t e k = subst (Kept s) (sym e) k

-- The report that a message was sent takes it off the books and off its query: no `CHECK` fails, the
-- invariant holds again, and each query is held or was answered as often as before.
pub on_message_send_succeeded-Kept :
    (m : MessageFullId) (q : ℕ) (encoded : Bytes) (s : Sending)
    → Inv s
    → find m s.unsent ≡ some q
    → Kept s (on_message_send_succeeded m encoded s)
unfolding on_message_send_succeeded
on_message_send_succeeded-Kept m q encoded s v there =
    let (p, held) = holder m q s v there in
    let x = extracted m q s v there in
    elim (Bool-cases p.is_multisend) [
      | inl several ↦
          let p' : Pending = record p { messages = p.messages ++ encoded ∷ [] } in
          Kept-through s _ _ (ground (arith, x, held, several))
            (settle_one-Kept m q s v there p p' held refl refl refl)
      | inr alone ↦
          Kept-through s _ _ (ground (arith, x, held, alone))
            (settle_single-Kept m q s v there p p held refl refl refl (sent encoded) alone)
    ]

Kept-deletions :
    (s : Sending) (b : Bool) (m : MessageFullId) (r : Option Sending)
    → Kept s r
    → Kept s (delete_after b m r)
Kept-deletions s b m none k = k
Kept-deletions s b m (some t) k =
    let e : k.after ≡ t = ground (arith, k.succeeds) in
    let i : Inv t = subst Inv e k.inv in
    let c : (x : ℕ) → ledger t x ≡ ledger s x =
      subst (λ u. (x : ℕ) → ledger u x ≡ ledger s x) e k.conserved in
    elim (Bool-cases (not (m.1 == 0) && not b)) [
      | inl asked ↦ rw asked (record {
        after = record t { deletions = t.deletions ++ m ∷ [] };
        succeeds = refl;
        inv = record {
          core = Core-answers no_debt t t.answers (t.deletions ++ m ∷ []) i.core;
          waiting = i.waiting;
        };
        conserved = c;
      })
      | inr kept ↦ rw kept (record { after = t; succeeds = refl; inv = i; conserved = c })
    ]

-- So does the report that it could not be sent.
pub on_message_send_failed-Kept :
    (decimal : ℕ → Bytes) (is_closing : Bool) (m : MessageFullId) (new_id q : ℕ) (e : TdError)
    (s : Sending)
    → Inv s
    → find m s.unsent ≡ some q
    → Kept s (on_message_send_failed decimal is_closing m new_id e s)
unfolding on_message_send_failed
on_message_send_failed-Kept decimal is_closing m new_id q e s v there =
    let (p, held) = holder m q s v there in
    let x = extracted m q s v there in
    elim (Bool-cases p.is_multisend) [
      | inl several ↦
          let p' : Pending = record p { error = merge_error decimal e p } in
          Kept-through s _ _ (ground (arith, x, held, several)) (
            Kept-deletions s is_closing (m.0, new_id) _
              (settle_one-Kept m q s v there p p' held refl refl refl))
      | inr alone ↦ Kept-through s _ _ (ground (arith, x, held, alone)) (
          Kept-deletions s is_closing (m.0, new_id) _
            (settle_single-Kept m q s v there p p held refl refl refl (failed e) alone))
    ]
