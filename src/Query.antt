-- ===== src/Query.antt =====
-- A request to the server, from its arrival to its answer: telegram-bot-api/Query.cpp and Query.h.
pub mod Lifecycle
use core_telegram_api.Common.{
  ℕ, zero, suc, ◌+◌, ◌-◌, ◌*◌, ◌/◌, ◌%◌, ◌^◌, ◌≤◌, ◌<◌, min, max, ◌≡◌, refl, sym, ap, ◌∙◌, subst,
  ◌≢◌, ◌↔◌, ◌⊎◌, inl, inr, Bool, true, false, not, ◌&&◌, ◌||◌, Option, none, some, List, [], ◌∷◌,
  ◌++◌, map, arith, ltb, leb, if◌then◌else◌, ltb→lt, lt→ltb, leb→le, Bool-cases, Option-cases,
  length, take, All, length-append, length-take, Eq, ◌==◌, nat_eq, bytes_eq, int_eq, beq_refl,
  beq_ne, ℤ, pos, negsuc, leℤ, Map, Unique, find, insert, erase, find-insert, find-erase,
  length-insert, length-insert_present, length-erase, Unique-insert, Unique-erase, count, hit,
  count-insert, count-erase, count_pos_of_find, Bytes, codes, is_prefix, prefix_rest, split_at_byte,
  append_nil, is_prefix-append, prefix_rest-append, split_at_byte-append, Lacks, lacks,
}
use core_telegram_api.Stats.{Event, request, response}

pub data State : Type 0 where
  pending answered failed : State

-- `td::HttpFile`, as far as it is read.
pub record HttpFile : Type 0 where
  pub field_name : Bytes
  pub size : ℕ

abbrev pub Args : Type 0
Args = List (Bytes × Bytes)

-- `has_stat_actor` says that `stat_actor_` is set, and `events` are those sent to it.
pub record Query : Type 0 where
  pub state : State
  pub container : List ℕ
  pub method : Bytes
  pub args : Args
  pub headers : Args
  pub files : List HttpFile
  pub is_internal : Bool
  pub answer : Bytes
  pub http_status_code : ℕ
  pub retry_after : ℕ
  pub has_stat_actor : Bool
  pub events : List Event

-- `has_arg`, `arg` and `get_header`: the first pair with the key.
unfoldable pub has_arg : Bytes → Args → Bool
has_arg key [] = false
has_arg key ((k, v) ∷ args) = k == key || has_arg key args

unfoldable pub arg : Bytes → Args → Bytes
arg key [] = []
arg key ((k, v) ∷ args) = if k == key then v else arg key args

unfoldable pub file : Bytes → List HttpFile → Option HttpFile
file key [] = none
file key (f ∷ fs) = if f.field_name == key then some f else file key fs

-- `query_size`, over the sizes of the buffers, `files_size` and `files_max_size`: folds from the
-- left.
unfoldable pub sum_from : ℕ → List ℕ → ℕ
sum_from acc [] = acc
sum_from acc (n ∷ ns) = sum_from (acc + n) ns

unfoldable pub files_size_from : ℕ → List HttpFile → ℕ
files_size_from acc [] = acc
files_size_from acc (f ∷ fs) = files_size_from (acc + f.size) fs

unfoldable pub files_max_size_from : ℕ → List HttpFile → ℕ
files_max_size_from acc [] = acc
files_max_size_from acc (f ∷ fs) = files_max_size_from (max acc f.size) fs

abbrev pub files_size : Query → ℕ
files_size q = files_size_from 0 q.files

abbrev pub is_ready : State → Bool
is_ready pending = false
is_ready _ = true

-- `send_request_stat` and `send_response_stat`.
unfoldable pub send_request_stat : Query → Query
send_request_stat q =
    if q.has_stat_actor
    then record q {
      events =
          q.events
          ++ request (sum_from 0 q.container) (length q.files) (files_size q)
              (files_max_size_from 0 q.files)
            ∷ [];
    }
    else q

abbrev pub is_answered : State → Bool
is_answered answered = true
is_answered _ = false

unfoldable pub send_response_stat : Query → Query
send_response_stat q =
    if q.has_stat_actor
    then record q {
      events =
          q.events
          ++ response (is_answered q.state) (length q.answer) (length q.files) (files_size q) ∷ [];
    }
    else q

unfoldable pub set_stat_actor : Query → Query
unfolding send_request_stat
set_stat_actor q = send_request_stat (record q { has_stat_actor = true })

-- `CHECK(state_ == State::Query)`: a query is answered once.
unfoldable pub set_ok : Bytes → Query → Option Query
unfolding send_response_stat
set_ok result q =
    if is_ready q.state
    then none
    else some (
        send_response_stat (record q { answer = result; state = answered; http_status_code = 200 }))

unfoldable pub set_error : ℕ → Bytes → Query → Option Query
unfolding send_response_stat
set_error http_status_code result q =
    if is_ready q.state
    then none
    else some (
        send_response_stat
          (record q { answer = result; state = failed; http_status_code = http_status_code }))

-- JSON values of the answers; the texts are made by tdlib.
pub data Json : Type 0 where
  yes_value no_value : Json
  number : ℕ → Json
  text : Bytes → Json
  raw : Bytes → Json

abbrev pub Fields : Type 0
Fields = List (Bytes × Json)

abbrev pub no_bytes : Bytes → Bool
no_bytes [] = true
no_bytes (c ∷ s) = false

-- `JsonQueryOk::store`; `result` is the encoded result.
unfoldable pub json_query_ok : Bytes → Bytes → Fields
json_query_ok result description =
    (codes "ok", yes_value)
    ∷ (codes "result", raw result)
    ∷ (if no_bytes description then [] else (codes "description", text description) ∷ [])

-- What the code uses of tdlib to make texts: `json_encode` of an object and of a number.
pub record Encoder : Type 0 where
  pub encode : Fields → Bytes
  pub decimal : ℕ → Bytes

-- `JsonQueryError::store` and `JsonParameters::store`.
unfoldable pub json_query_error : Encoder → ℕ → Bytes → Fields → Fields
json_query_error c error_code description [] =
    (codes "ok", no_value)
    ∷ (codes "error_code", number error_code)
    ∷ (codes "description", text description)
    ∷ []
json_query_error c error_code description (p ∷ ps) =
    (codes "ok", no_value)
    ∷ (codes "error_code", number error_code)
    ∷ (codes "description", text description)
    ∷ (codes "parameters", raw (c.encode (p ∷ ps)))
    ∷ []

unfoldable pub set_retry_after_error : Encoder → ℕ → Query → Option Query
unfolding set_error json_query_error
set_retry_after_error c retry_after q =
    set_error 429
      (c.encode (
        json_query_error c 429 (codes "Too Many Requests: retry after " ++ c.decimal retry_after)
          ((codes "retry_after", number retry_after) ∷ [])))
      (record q { retry_after = retry_after })

-- `answer_query` and `fail_query`, up to the reset of the pointer.
unfoldable pub answer_query : Encoder → Bytes → Bytes → Query → Option Query
unfolding set_ok json_query_ok
answer_query c result description q = set_ok (c.encode (json_query_ok result description)) q

unfoldable pub fail_query : Encoder → ℕ → Bytes → Fields → Query → Option Query
unfolding set_error json_query_error
fail_query c http_status_code description parameters q =
    set_error http_status_code
      (c.encode (json_query_error c http_status_code description parameters)) q

-- `PromiseDeleter::operator()`: what the promise gets, if there is one. A query with no answer is
-- told to come again in five seconds.
unfoldable pub delete : Encoder → Bool → Query → Option (Option Query)
unfolding set_retry_after_error
delete c has_promise q =
    if has_promise
    then if is_ready q.state
      then some (some q)
      else elim (set_retry_after_error c 5 q) [ none ↦ none | some r ↦ some (some r) ]
    else some none
