-- ===== src/Query/Lifecycle.antt =====
-- The answer of a query, what it does to the counters, and what becomes of a query with none.
use core_telegram_api.Common.{
  ℕ, ◌≡◌, refl, ◌∙◌, inl, inr, Bool, true, false, some, List, [], ◌∷◌, ◌++◌, arith, if◌then◌else◌,
  Bool-cases, length, nat_eq, bytes_eq, int_eq, Bytes, codes,
}
use core_telegram_api.Stats.{Event, request, response}
use core_telegram_api.Stats.{run}
use core_telegram_api.Stats.Balance.{Open, done, asked, replied, counters, run-counters}
use core_telegram_api.Query.{
  number, json_query_ok, pending, answered, failed, Query, files_max_size_from, files_size,
  sum_from, set_ok, set_error, set_retry_after_error, answer_query, fail_query, delete, Encoder,
  set_stat_actor, send_response_stat, send_request_stat, Fields, json_query_error,
}

-- What the statistics are sent for a query with these files.
abbrev pub asked_event : Query → Event
asked_event q =
    request (sum_from 0 q.container) (length q.files) (files_size q) (files_max_size_from 0 q.files)

abbrev pub replied_event : Query → Bool → Query → Event
replied_event q ok r = response ok (length r.answer) (length q.files) (files_size q)

-- `r` is `q` with its only answer, reported once if there is a statistics actor.
pub record IsAnswered (ok : Bool) (code : ℕ) (answer : Bytes) (q r : Query) : Type 0 where
  pub state : r.state ≡ (if ok then answered else failed)
  pub same_text : r.answer ≡ answer
  pub status : r.http_status_code ≡ code
  pub same_request :
      (r.args ≡ q.args)
      × (r.files ≡ q.files)
      × (r.headers ≡ q.headers)
      × (r.method ≡ q.method)
      × (r.retry_after ≡ q.retry_after)
  pub reported :
      r.events ≡ (if q.has_stat_actor then q.events ++ (replied_event q ok r ∷ []) else q.events)

set_ok-IsAnswered :
    (result : Bytes) (q : Query)
    → q.state ≡ pending
    → (r : Query) × (set_ok result q ≡ some r) × IsAnswered true 200 result q r
unfolding set_ok send_response_stat
set_ok-IsAnswered result q h = (
  send_response_stat (record q { answer = result; state = answered; http_status_code = 200 }),
  ground (arith, h),
  elim (Bool-cases q.has_stat_actor) [
    | inl s ↦ record {
      state = ground (arith, s);
      same_text = ground (arith, s);
      status = ground (arith, s);
      same_request = ground (arith, s);
      reported = ground (arith, s);
    }
    | inr s ↦ record {
      state = ground (arith, s);
      same_text = ground (arith, s);
      status = ground (arith, s);
      same_request = ground (arith, s);
      reported = ground (arith, s);
    }
  ],
)

set_error-IsAnswered :
    (code : ℕ) (result : Bytes) (q : Query)
    → q.state ≡ pending
    → (r : Query) × (set_error code result q ≡ some r) × IsAnswered false code result q r
unfolding set_error send_response_stat
set_error-IsAnswered code result q h = (
  send_response_stat (record q { answer = result; state = failed; http_status_code = code }),
  ground (arith, h),
  elim (Bool-cases q.has_stat_actor) [
    | inl s ↦ record {
      state = ground (arith, s);
      same_text = ground (arith, s);
      status = ground (arith, s);
      same_request = ground (arith, s);
      reported = ground (arith, s);
    }
    | inr s ↦ record {
      state = ground (arith, s);
      same_text = ground (arith, s);
      status = ground (arith, s);
      same_request = ground (arith, s);
      reported = ground (arith, s);
    }
  ],
)

-- A pending query gets its answer: `answer_query` and `fail_query` succeed, the state and status
-- code are those of the answer, the request is unchanged, and one response event goes to the
-- statistics if they are kept.
pub answer-IsAnswered :
    (c : Encoder) (result description : Bytes) (code : ℕ) (error : Bytes) (parameters : Fields)
    (q : Query)
    → q.state ≡ pending
    → ((r : Query) × (answer_query c result description q ≡ some r)
        × IsAnswered true 200 (c.encode (json_query_ok result description)) q r)
      × ((r : Query) × (fail_query c code error parameters q ≡ some r)
          × IsAnswered false code (c.encode (json_query_error c code error parameters)) q r)
unfolding answer_query fail_query set_ok set_error
answer-IsAnswered c result description code error parameters q h = (
  set_ok-IsAnswered (c.encode (json_query_ok result description)) q h,
  set_error-IsAnswered code (c.encode (json_query_error c code error parameters)) q h,
)

abbrev too_many : Encoder → Bytes
too_many c = c.encode (
    json_query_error c 429 (codes "Too Many Requests: retry after " ++ c.decimal 5)
      ((codes "retry_after", number 5) ∷ []))

-- A query that is destroyed with no answer leaves itself to its promise, answered with status 429
-- and a retry delay of five seconds.
pub delete-IsAnswered :
    (c : Encoder) (q : Query)
    → q.state ≡ pending
    → (r : Query) × (delete c true q ≡ some (some r))
      × IsAnswered false 429 (too_many c) (record q { retry_after = 5 }) r
unfolding delete set_retry_after_error
delete-IsAnswered c q h =
    let (r, e, a) = set_error-IsAnswered 429 (too_many c) (record q { retry_after = 5 }) h in
    (r, ground (arith, h, e), a)

set_stat_actor_events :
    (q : Query)
    → q.events ≡ []
    → ((set_stat_actor q).events ≡ asked_event q ∷ [])
      × ((set_stat_actor q).has_stat_actor ≡ true)
      × ((set_stat_actor q).files ≡ q.files)
      × ((set_stat_actor q).state ≡ q.state)
unfolding set_stat_actor send_request_stat
set_stat_actor_events q h = (ground (arith, h), refl, refl, refl)

reported_both :
    (ok : Bool) (code : ℕ) (s : Bytes) (q r : Query)
    → q.events ≡ []
    → IsAnswered ok code s (set_stat_actor q) r
    → r.events ≡ asked_event q ∷ replied_event q ok r ∷ []
reported_both ok code s q r h a =
    let (x, y, z, w) = set_stat_actor_events q h in ground (arith, a.reported, x, y, z)

-- A pending query that is counted from its arrival on, by `set_stat_actor`, and then answered in
-- either way takes off the active counters of a bot what it put on them: they count the same open
-- queries before and after it, and no `CHECK` of theirs fails.
pub answer_balanced :
    (c : Encoder) (result description : Bytes) (code : ℕ) (error : Bytes) (parameters : Fields)
    (q : Query) (os : List Open)
    → q.state ≡ pending
    → q.events ≡ []
    → ((r : Query) × (answer_query c result description (set_stat_actor q) ≡ some r)
        × (run r.events (counters os) ≡ some (counters os)))
      × ((r : Query) × (fail_query c code error parameters (set_stat_actor q) ≡ some r)
          × (run r.events (counters os) ≡ some (counters os)))
answer_balanced c result description code error parameters q os h k =
    let p : (set_stat_actor q).state ≡ pending = (set_stat_actor_events q k).3 ∙ h in
    let ((r, e, a), (s, f, b)) =
      answer-IsAnswered c result description code error parameters (set_stat_actor q) p in
    (
      (r, e, balanced r true (reported_both true 200 _ q r k a)),
      (s, f, balanced s false (reported_both false code _ q s k b)),
    )
  where
    balanced :
        (r : Query) (ok : Bool)
        → r.events ≡ asked_event q ∷ replied_event q ok r ∷ []
        → run r.events (counters os) ≡ some (counters os)
    balanced r ok e = rw e (
        run-counters (
          asked (sum_from 0 q.container) (length q.files) (files_size q)
            (files_max_size_from 0 q.files)
            (replied [] os ok (length r.answer) (length q.files) (files_size q) refl done)))
