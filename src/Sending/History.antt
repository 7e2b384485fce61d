-- ===== src/Sending/History.antt =====
-- Whole runs: what the bot asks for and what the client library reports, in any order.
use core_telegram_api.Common.{
  ℕ, ◌+◌, ◌≡◌, refl, subst, Bool, Option, none, some, List, [], ◌∷◌, ◌++◌, arith, if◌then◌else◌,
  ◌==◌, nat_eq, bytes_eq, int_eq, beq_refl, ℤ, Map, find, tally, Bytes,
}
use core_telegram_api.Sending.{
  TdError, MessageFullId, full_id_eq, Pending, Kind, Request, Answer, Result, Sending,
  send_messages, on_result, on_message_send_succeeded, on_message_send_failed, close_pending,
  close_messages,
}
use core_telegram_api.Sending.Invariant.{
  asked_by, held_for, awaited, times, holding, answered, ledger, IsSized, Inv,
}
use core_telegram_api.Sending.Requests.{Fits, send_messages-Inv, on_result-Kept}
use core_telegram_api.Sending.Reports.{on_message_send_succeeded-Kept, on_message_send_failed-Kept}

pub data Event : Type 0 where
  send : ℕ → Kind → ℤ → ℕ → ℕ → Event
  result : ℕ → Result → Event
  succeeded : MessageFullId → Bytes → Event
  not_sent : Bool → MessageFullId → ℕ → TdError → Event

module _ (decimal : ℕ → Bytes) where
  unfoldable pub step : Event → Sending → Option Sending
  unfolding send_messages on_result on_message_send_succeeded on_message_send_failed
  step (send id kind chat_id n query) s = some (send_messages id kind chat_id n query s)
  step (result id r) s = on_result id r s
  step (succeeded m encoded) s = on_message_send_succeeded m encoded s
  step (not_sent is_closing m new_id e) s = on_message_send_failed decimal is_closing m new_id e s

  -- What may happen: a request has a new identifier, a result belongs to a request and fits it, and a
  -- report is about a message that is not sent yet.
  abbrev pub May : Event → Sending → Type 0
  May (send id kind chat_id n query) s =
      (find id s.requests ≡ none)
      × IsSized (record { kind = kind; chat_id = chat_id; message_count = n; query = query })
  May (result id x) s =
      (r : Request) × (find id s.requests ≡ some r)
      × Fits r.kind r.chat_id r.message_count s.next_query_id s.unsent x
  May (succeeded m encoded) s = (q : ℕ) × (find m s.unsent ≡ some q)
  May (not_sent is_closing m new_id e) s = (q : ℕ) × (find m s.unsent ≡ some q)

  abbrev pub starts : ℕ → Event → ℕ
  starts x (send id kind chat_id n query) = if query == x then 1 else 0
  starts x (result id r) = 0
  starts x (succeeded m encoded) = 0
  starts x (not_sent is_closing m new_id e) = 0

  abbrev pub started : ℕ → List Event → ℕ
  started x [] = 0
  started x (e ∷ es) = starts x e + started x es

  unfoldable pub run : List Event → Sending → Option Sending
  unfolding step
  run [] s = some s
  run (e ∷ es) s = elim (step e s) [ none ↦ none | some t ↦ run es t ]

  -- A run in which only happens what may.
  pub data Lawful : Sending → List Event → Type 0 where
    ends : {s : Sending} → Lawful s []
    goes :
        {s : Sending} {e : Event} {es : List Event}
        → May e s
        → ((t : Sending) → step e s ≡ some t → Lawful t es)
        → Lawful s (e ∷ es)

  -- An event that may happen, and the run after it.
  pub continues :
      {s : Sending} {e : Event} {es : List Event} {t : Sending}
      → May e s
      → step e s ≡ some t
      → Lawful t es
      → Lawful s (e ∷ es)
  continues {es = es} m p l = goes m (λ u q. subst (λ x. Lawful x es) (ground (arith, p, q)) l)

  step-Kept :
      (e : Event) (s : Sending)
      → Inv s
      → May e s
      → (t : Sending) × (step e s ≡ some t)
        × Inv t
        × ((x : ℕ) → ledger t x ≡ ledger s x + starts x e)
  unfolding step
  step-Kept (send id kind chat_id n query) s v m =
      let (i, l) = send_messages-Inv id kind chat_id n query s v m.0 m.1 in
      (send_messages id kind chat_id n query s, refl, i, l)
  step-Kept (result id y) s v (r, there, f) =
      let k = on_result-Kept id r y s v there f in
      (k.after, k.succeeds, k.inv, λ x. omega (arith, k.conserved x))
  step-Kept (succeeded m encoded) s v (q, there) =
      let k = on_message_send_succeeded-Kept m q encoded s v there in
      (k.after, k.succeeds, k.inv, λ x. omega (arith, k.conserved x))
  step-Kept (not_sent is_closing m new_id e) s v (q, there) =
      let k = on_message_send_failed-Kept decimal is_closing m new_id q e s v there in
      (k.after, k.succeeds, k.inv, λ x. omega (arith, k.conserved x))

  -- A lawful run from a state with the invariant fails no `CHECK`, ends with the invariant, and each
  -- query is held or was answered once more for each time that it was sent.
  pub run-Kept :
      (es : List Event) (s : Sending)
      → Inv s
      → Lawful s es
      → (t : Sending) × (run es s ≡ some t)
        × Inv t
        × ((x : ℕ) → ledger t x ≡ ledger s x + started x es)
  unfolding run
  run-Kept [] s v l = (s, refl, v, λ x. omega arith)
  run-Kept (e ∷ es) s v (goes m rest) =
      let (t, p, i, c) = step-Kept e s v m in
      let (u, q, j, d) = run-Kept es t i (rest t p) in
      (u, ground (arith, p, q), j, λ x. omega (arith, c x, d x))

  -- Nothing is pending when no message is on its way.
  quiet : (s : Sending) → Inv s → s.unsent ≡ [] → s.pending ≡ []
  unfolding find tally
  quiet s v h = go s.pending refl
    where
      none_awaited : (q : ℕ) → awaited s q ≡ 0
      none_awaited q = rw h refl

      go : (ps : Map ℕ Pending) → s.pending ≡ ps → ps ≡ []
      go [] e = refl
      go ((q, p) ∷ ps) e =
          let there : find q s.pending ≡ some p = rw e (ground (arith, beq_refl q)) in
          absurd (ground (arith, v.core.awaits q p there, v.waiting q p there, none_awaited q))

abbrev pub nothing : Sending
nothing = record {
  unsent = [];
  counts = [];
  pending = [];
  next_query_id = 1;
  requests = [];
  answers = [];
  deletions = [];
}

pub nothing-Inv : Inv nothing
unfolding find tally
nothing-Inv = record {
  core = record {
    awaits = λ q p h. ground (arith, h);
    known = λ m q h. ground (arith, h);
    below = λ q p h. ground (arith, h);
    counted = λ c. refl;
    unique_unsent = tt;
    unique_pending = tt;
    unique_requests = tt;
    sized = λ i r h. ground (arith, h);
  };
  waiting = λ q p h. ground (arith, h);
}

-- When a client has sent what it was asked for and got every result and every report, in any order,
-- each query was answered exactly as often as it was sent.
pub run-Answered :
    (decimal : ℕ → Bytes) (es : List Event) (t : Sending)
    → Lawful decimal nothing es
    → run decimal es nothing ≡ some t
    → t.requests ≡ []
    → t.unsent ≡ []
    → (x : ℕ) → answered t x ≡ started decimal x es
unfolding tally
run-Answered decimal es t l e no_requests none_unsent x =
    let (u, p, v, c) = run-Kept decimal es nothing nothing-Inv l in
    let same : u ≡ t = ground (arith, e, p) in
    let i : Inv t = subst Inv same v in
    let d : ledger t x ≡ ledger nothing x + started decimal x es =
      subst (λ y. ledger y x ≡ ledger nothing x + started decimal x es) same (c x) in
    let z : holding t x ≡ 0 = rw (no_requests, quiet decimal t i none_unsent) refl in
    omega (arith, d, z)

times-close : (x : ℕ) (ps : Map ℕ Pending) → times x (close_pending ps) ≡ tally (held_for x) ps
unfolding tally
times-close x [] = refl
times-close x ((q, p) ∷ ps) = omega (arith, times-close x ps)

times-both : (x : ℕ) (rs ss : List (ℕ × Answer)) → times x (rs ++ ss) ≡ times x rs + times x ss
times-both x [] ss = omega arith
times-both x ((y, a) ∷ rs) ss = omega (arith, times-both x rs ss)

-- When the client is closed with no request left, every query that is still pending is answered, and
-- none is answered twice: each query was answered then as often as it was sent in the run so far.
pub close_messages-Answered :
    (decimal : ℕ → Bytes) (es : List Event) (t : Sending)
    → Lawful decimal nothing es
    → run decimal es nothing ≡ some t
    → t.requests ≡ []
    → (x : ℕ)
    → (answered (close_messages t) x ≡ started decimal x es) × (holding (close_messages t) x ≡ 0)
unfolding close_messages tally
close_messages-Answered decimal es t l e no_requests x =
    let (u, p, v, c) = run-Kept decimal es nothing nothing-Inv l in
    let same : u ≡ t = ground (arith, e, p) in
    let d : ledger t x ≡ ledger nothing x + started decimal x es =
      subst (λ y. ledger y x ≡ ledger nothing x + started decimal x es) same (c x) in
    let z : tally (asked_by x) t.requests ≡ 0 = rw no_requests refl in
    (
      omega
          (arith, d, z, times-both x t.answers (close_pending t.pending), times-close x t.pending),
      rw no_requests refl,
    )
