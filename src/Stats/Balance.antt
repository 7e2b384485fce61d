-- ===== src/Stats/Balance.antt =====
-- The active counters are the sums over the queries that have no answer yet.
use core_telegram_api.Common.{
  ℕ, suc, ◌+◌, ◌≡◌, refl, sym, ap, ◌∙◌, subst, Bool, Option, none, some, List, [], ◌∷◌, ◌++◌, arith,
  length, nat_eq, bytes_eq, int_eq,
}
use core_telegram_api.Stats.{Event, request, response, update, Active, on_active_event, run}

-- The file count and the file size of an open query.
abbrev pub Open : Type 0
Open = ℕ × ℕ

abbrev pub total_files : List Open → ℕ
total_files [] = 0
total_files ((n, s) ∷ os) = n + total_files os

abbrev pub total_bytes : List Open → ℕ
total_bytes [] = 0
total_bytes ((n, s) ∷ os) = s + total_bytes os

-- A history in which each response answers a request that is open: what is open before and after.
pub data History : List Open → List Event → List Open → Type 0 where
  done : {os : List Open} → History os [] os
  asked :
      {os os' : List Open} {es : List Event} (size n s m : ℕ)
      → History ((n, s) ∷ os) es os'
      → History os (request size n s m ∷ es) os'
  replied :
      {os₁ os' : List Open} {es : List Event} (before after : List Open) (ok : Bool) (size n s : ℕ)
      → os₁ ≡ before ++ ((n, s) ∷ after)
      → History (before ++ after) es os'
      → History os₁ (response ok size n s ∷ es) os'
  updated :
      {os os' : List Open} {es : List Event} → History os es os' → History os (update ∷ es) os'

abbrev pub counters : List Open → Active
counters os = record {
  active_request_count = length os;
  active_file_upload_bytes = total_bytes os;
  active_file_upload_count = total_files os;
}

total_middle :
    (xs ys : List Open) (n s : ℕ)
    → (length (xs ++ ((n, s) ∷ ys)) ≡ suc (length (xs ++ ys)))
      × (total_files (xs ++ ((n, s) ∷ ys)) ≡ n + total_files (xs ++ ys))
      × (total_bytes (xs ++ ((n, s) ∷ ys)) ≡ s + total_bytes (xs ++ ys))
total_middle [] ys n s = (refl, refl, refl)
total_middle ((k, l) ∷ xs) ys n s =
    let (a, b, c) = total_middle xs ys n s in (ap suc a, omega (arith, b), omega (arith, c))

run-step :
    (e : Event) (es : List Event) (a b : Active)
    → on_active_event e a ≡ some b
    → run (e ∷ es) a ≡ run es b
unfolding run
run-step e es a b h = go (on_active_event e a) h
  where
    go :
        (r : Option Active)
        → r ≡ some b
        → (elim r as (λ r. Option Active) [ none ↦ none | some c ↦ run es c ]) ≡ run es b
    go none h = ground arith
    go (some c) h = ground (arith, h)

request_step :
    (os : List Open) (size n s m : ℕ)
    → on_active_event (request size n s m) (counters os) ≡ some (counters ((n, s) ∷ os))
unfolding on_active_event
request_step os size n s m = ground arith

response_step :
    (before after : List Open) (ok : Bool) (size n s : ℕ)
    → on_active_event (response ok size n s) (counters (before ++ ((n, s) ∷ after)))
      ≡ some (counters (before ++ after))
unfolding on_active_event
response_step before after ok size n s =
    let (a, b, c) = total_middle before after n s in ground (arith, a, b, c)

-- In a history in which each response answers an open request, no `CHECK` of the active counters
-- fails, and at its end they are the number, the bytes and the files of the queries still open.
pub run-counters :
    {os os' : List Open} {es : List Event}
    → History os es os'
    → run es (counters os) ≡ some (counters os')
unfolding run on_active_event
run-counters done = refl
run-counters (asked {os} {os'} {es} size n s m h) =
    run-step (request size n s m) es (counters os) (counters ((n, s) ∷ os))
      (request_step os size n s m)
    ∙ run-counters h
run-counters (replied {os₁} {os'} {es} before after ok size n s e h) =
    run-step (response ok size n s) es (counters os₁) (counters (before ++ after)) (
      subst
        (λ os.
          on_active_event (response ok size n s) (counters os) ≡ some (counters (before ++ after)))
        (sym e) (response_step before after ok size n s))
    ∙ run-counters h
run-counters (updated h) = run-counters h
