-- ===== src/Sending/Requests.antt =====
-- Requests that send messages, and their results.
use core_telegram_api.Common.{
  ℕ, ◌+◌, ◌-◌, ◌≤◌, ◌<◌, ◌≡◌, refl, sym, ◌∙◌, subst, inl, inr, true, false, Option, none, some,
  List, [], ◌∷◌, ◌++◌, arith, leb, if◌then◌else◌, Bool-cases, length, ◌==◌, nat_eq, bytes_eq,
  int_eq, beq_refl, beq_ne, ℤ, Map, find, insert, erase, find-insert, find-erase, Unique-insert,
  Unique-erase, tally-insert, tally-erase,
}
use core_telegram_api.Sending.{
  MessageFullId, full_id_eq, Pending, Kind, single, album, forward, Request, Answer, flood_limited,
  failed, Sending, answer, or_zero, decrease, send_messages, Result, error_result, message_result,
  messages_result, present, give_back, answer_after, forward_messages, then_forward,
  on_request_result, on_result, max_concurrently_sent_chat_messages, cannot_forward,
}
use core_telegram_api.Sending.Opening.{Fresh, InChat, Opened, open_messages-Opened}
use core_telegram_api.Sending.Invariant.{
  asks_for, asked_by, holding, ledger, owed, IsSized, Core, IsWaiting, no_debt, Inv, Kept,
  times-append, Core-counts, Core-answers, decrease_lem, decrease-Core,
}

-- A new request, with an identifier that is free.
module _ (id : ℕ) (r : Request) (s : Sending) (v : Inv s) (fresh : find id s.requests ≡ none)
    (sized : IsSized r) where
  abbrev sent_request : Sending
  sent_request = record s {
    counts = insert r.chat_id (or_zero (find r.chat_id s.counts) + r.message_count) s.counts;
    requests = insert id r s.requests;
  }

  sent_request-Inv : Inv sent_request
  sent_request-Inv = record {
    core = record {
      awaits = v.core.awaits;
      known = v.core.known;
      below = v.core.below;
      counted = λ c. ground (
        arith,
        v.core.counted c,
        tally-insert (asks_for c) id r s.requests,
        fresh,
        find-insert r.chat_id c (or_zero (find r.chat_id s.counts) + r.message_count) s.counts,
        int_eq.beq_iff r.chat_id c,
      );
      unique_unsent = v.core.unique_unsent;
      unique_pending = v.core.unique_pending;
      unique_requests = Unique-insert id r s.requests v.core.unique_requests;
      sized = λ i x h. ground (arith, h, find-insert id i r s.requests, v.core.sized i x, sized);
    };
    waiting = v.waiting;
  }

  holding-sent_request :
      (x : ℕ) → holding sent_request x ≡ holding s x + (if r.query == x then 1 else 0)
  holding-sent_request x = ground (arith, tally-insert (asked_by x) id r s.requests, fresh)

-- The result of the request `r`, which is taken out of the handlers.
module _ (id : ℕ) (r : Request) (s : Sending) (v : Inv s)
    (there : find id s.requests ≡ some r) where
  abbrev taken : Sending
  taken = record s { requests = erase id s.requests }

  pub taken-Core : Core (owed r.chat_id r.message_count) taken
  taken-Core = record {
    awaits = v.core.awaits;
    known = v.core.known;
    below = v.core.below;
    counted = λ c. ground (
      arith,
      v.core.counted c,
      tally-erase (asks_for c) id s.requests v.core.unique_requests,
      there,
    );
    unique_unsent = v.core.unique_unsent;
    unique_pending = v.core.unique_pending;
    unique_requests = Unique-erase id s.requests v.core.unique_requests;
    sized = λ i x h. ground (arith, h, find-erase id i s.requests, v.core.sized i x);
  }

  pub ledger-taken : (x : ℕ) → ledger taken x + (if r.query == x then 1 else 0) ≡ ledger s x
  ledger-taken x =
      ground (arith, tally-erase (asked_by x) id s.requests v.core.unique_requests, there)

-- `send_messages`, for a request with a free identifier: the query is held by the request, or was
-- answered.
pub send_messages-Inv :
    (id : ℕ) (kind : Kind) (chat_id : ℤ) (n query : ℕ) (s : Sending)
    → Inv s
    → find id s.requests ≡ none
    → IsSized (record { kind = kind; chat_id = chat_id; message_count = n; query = query })
    → Inv (send_messages id kind chat_id n query s)
      × ((x : ℕ)
          → ledger (send_messages id kind chat_id n query s) x
            ≡ ledger s x + (if query == x then 1 else 0))
unfolding send_messages
send_messages-Inv id kind chat_id n query s v fresh sized =
    let r : Request = record { kind = kind; chat_id = chat_id; message_count = n; query = query } in
    elim (Bool-cases (leb max_concurrently_sent_chat_messages (or_zero (find chat_id s.counts)))) [
      | inl full ↦ rw full (
        record {
          core =
              Core-answers no_debt s (s.answers ++ (query, flood_limited) ∷ []) s.deletions v.core;
          waiting = v.waiting;
        },
        λ x. omega (arith, times-append x s.answers query flood_limited),
      )
      | inr room ↦ rw room (
        sent_request-Inv id r s v fresh sized,
        λ x. omega (arith, holding-sent_request id r s v fresh sized x),
      )
    ]

abbrev AllWait : Sending → Type 0
AllWait s = (q : ℕ) (p : Pending) → find q s.pending ≡ some p → IsWaiting p

-- A query that fails with the whole of its debt.
give_up-Opened :
    (c : ℤ) (n query : ℕ) (a : Answer) (s : Sending)
    → 0 < n
    → Core (owed c n) s
    → AllWait s
    → Opened query s (answer_after query a (decrease c n s))
give_up-Opened c n query a s h v w =
    let (m, e, core) = decrease-Core c n s h v in
    record {
      after = answer query a (record s { counts = m });
      succeeds = ground (arith, e);
      inv = record {
        core =
            Core-answers no_debt (record s { counts = m }) (s.answers ++ (query, a) ∷ [])
              s.deletions core;
        waiting = w;
      };
      conserved = λ x. omega (arith, times-append x s.answers query a);
    }

length-present : (ms : List (Option MessageFullId)) → length (present ms) ≤ length ms
length-present [] = omega arith
length-present (none ∷ ms) = omega (arith, length-present ms)
length-present (some m ∷ ms) = omega (arith, length-present ms)

-- What the client library promises of a result: a message, or as many as were asked for, in the
-- chat, and new; of an album none is missing.
abbrev pub Fits : Kind → ℤ → ℕ → ℕ → Map MessageFullId ℕ → Result → Type 0
Fits k c n q u (error_result e) = Unit
Fits single c n q u (message_result m) = (m.0 ≡ c) × (find m u ≡ none)
Fits single c n q u (messages_result ms) = ⊥
Fits album c n q u (message_result m) = ⊥
Fits album c n q u (messages_result ms) =
    (length ms ≡ n) × (length (present ms) ≡ n) × InChat c (present ms) × Fresh q (present ms) u
Fits forward c n q u (message_result m) = ⊥
Fits forward c n q u (messages_result ms) =
    (length ms ≡ n) × InChat c (present ms) × Fresh q (present ms) u

-- Forwarded messages once the missing ones are given back.
forward_messages-Opened :
    (c : ℤ) (query : ℕ) (ms : List MessageFullId) (s : Sending)
    → Core (owed c (length ms)) s
    → AllWait s
    → InChat c ms
    → Fresh s.next_query_id ms s.unsent
    → Opened query s (forward_messages query ms s)
unfolding forward_messages
forward_messages-Opened c query [] s v w i f = record {
  after = answer query (failed cannot_forward) s;
  succeeds = refl;
  inv = record {
    core =
        Core-answers no_debt s (s.answers ++ (query, failed cannot_forward) ∷ []) s.deletions
          (Core-counts (owed c 0) no_debt s s.counts v (λ d. ground arith));
    waiting = w;
  };
  conserved = λ x. omega (arith, times-append x s.answers query (failed cannot_forward));
}
forward_messages-Opened c query (m ∷ ms) s v w i f =
    open_messages-Opened c true query (m ∷ ms) s v w i f (omega arith) (inl refl)

-- The missing messages of a forward are given back first.
forward-Opened :
    (c : ℤ) (n query : ℕ) (ms : List MessageFullId) (s : Sending)
    → length ms ≤ n
    → Core (owed c n) s
    → AllWait s
    → InChat c ms
    → Fresh s.next_query_id ms s.unsent
    → Opened query s (then_forward query ms (give_back c (n - length ms) s))
unfolding give_back
forward-Opened c n query ms s h v w i f = elim (Bool-cases ((n - length ms) == 0)) [
  | inl all ↦
      let e : n ≡ length ms = ground (arith, all, h) in
      rw all (forward_messages-Opened c query ms s (subst (λ k. Core (owed c k) s) e v) w i f)
  | inr some_missing ↦
      let k : n - length ms ≤ or_zero (find c s.counts) = ground (arith, v.counted c, beq_refl c) in
      let (m, e, g) = decrease_lem c (n - length ms) s (ground (arith, some_missing)) k in
      let t =
        forward_messages-Opened c query ms (record s { counts = m })
          (Core-counts (owed c n) (owed c (length ms)) s m v (λ d. ground (arith, g d, h))) w i f in
      rw some_missing (record {
        after = t.after;
        succeeds = ground (arith, e, t.succeeds);
        inv = t.inv;
        conserved = t.conserved;
      })
]

result-Opened :
    (k : Kind) (c : ℤ) (n query : ℕ) (result : Result) (s : Sending)
    → IsSized (record { kind = k; chat_id = c; message_count = n; query = query })
    → Core (owed c n) s
    → AllWait s
    → Fits k c n s.next_query_id s.unsent result
    → Opened query s (on_request_result k c n query result s)
unfolding on_request_result give_back
result-Opened single c n query (error_result e) s sized v w f =
    give_up-Opened c 1 query (failed e) s (omega arith) (subst (λ k. Core (owed c k) s) sized v) w
result-Opened single c n query (message_result m) s sized v w f =
    open_messages-Opened c false query (m ∷ []) s (subst (λ k. Core (owed c k) s) sized v) w
      (f.0, tt) (f.1, tt) (omega arith) (inr refl)
result-Opened single c n query (messages_result ms) s sized v w f = elim f [ ]
result-Opened album c n query (error_result e) s sized v w f =
    rw (beq_ne n 0 (ground (arith, sized))) (give_up-Opened c n query (failed e) s sized v w)
result-Opened album c n query (message_result m) s sized v w f = elim f [ ]
result-Opened album c n query (messages_result ms) s sized v w f =
    let e : n ≡ length (present ms) = sym f.1 in
    let t =
      open_messages-Opened c true query (present ms) s (subst (λ k. Core (owed c k) s) e v) w f.2
        f.3 (omega (arith, e, sized)) (inl refl) in
    record {
      after = t.after;
      succeeds = ground (arith, f.0, f.1, t.succeeds);
      inv = t.inv;
      conserved = t.conserved;
    }
result-Opened forward c n query (error_result e) s sized v w f =
    rw (beq_ne n 0 (ground (arith, sized))) (give_up-Opened c n query (failed e) s sized v w)
result-Opened forward c n query (message_result m) s sized v w f = elim f [ ]
result-Opened forward c n query (messages_result ms) s sized v w f =
    let t =
      forward-Opened c n query (present ms) s (omega (arith, length-present ms, f.0)) v w f.1 f.2 in
    record {
      after = t.after;
      succeeds = ground (arith, f.0, t.succeeds);
      inv = t.inv;
      conserved = t.conserved;
    }

-- The result of a request, as the client library promises it, fails no `CHECK`: the messages enter
-- the books under a new identifier, or the query is answered with the error. The invariant holds
-- again, and each query is held or was answered as often as before.
pub on_result-Kept :
    (id : ℕ) (r : Request) (result : Result) (s : Sending)
    → Inv s
    → find id s.requests ≡ some r
    → Fits r.kind r.chat_id r.message_count s.next_query_id s.unsent result
    → Kept s (on_result id result s)
unfolding on_result
on_result-Kept id r result s v there f =
    let t =
      result-Opened r.kind r.chat_id r.message_count r.query result (taken id r s v there)
        (v.core.sized id r there) (taken-Core id r s v there) v.waiting f in
    record {
      after = t.after;
      succeeds = ground (arith, there, t.succeeds);
      inv = t.inv;
      conserved = λ x. t.conserved x ∙ ledger-taken id r s v there x;
    }
