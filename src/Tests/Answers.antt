-- ===== src/Tests/Answers.antt =====
-- A query with one file, counted and answered.
use core_telegram_api.Common.{
  ◌≡◌, refl, true, false, some, List, [], ◌∷◌, ◌++◌, nat_eq, bytes_eq, int_eq, codes,
}
use core_telegram_api.Stats.{Event, run, request, response}
use core_telegram_api.Stats.{add, count_events, no_stat}
use core_telegram_api.Stats.Totals.{add_windows}
use core_telegram_api.Stats.Balance.{History, done, asked, replied, counters, run-counters}
use core_telegram_api.Query.{
  Query, Encoder, pending, answer_query, fail_query, delete, set_stat_actor,
}
use core_telegram_api.Query.Lifecycle.{
  IsAnswered, answer-IsAnswered, delete-IsAnswered, answer_balanced,
}

-- Every object as the same text.
abbrev encoder : Encoder
encoder = record { encode = λ fields. codes "{}"; decimal = λ n. codes "5" }

abbrev query : Query
query = record {
  state = pending;
  container = 100 ∷ 40 ∷ [];
  method = codes "sendphoto";
  args = (codes "chat_id", codes "1") ∷ [];
  headers = [];
  files = record { field_name = codes "photo"; size = 30 } ∷ [];
  is_internal = false;
  answer = [];
  http_status_code = 0;
  retry_after = 0;
  has_stat_actor = false;
  events = [];
}

answer-IsAnswered_example :
    ((r : Query) × (answer_query encoder (codes "true") [] query ≡ some r)
      × IsAnswered true 200 (codes "{}") query r)
    × ((r : Query) × (fail_query encoder 400 (codes "Bad Request") [] query ≡ some r)
        × IsAnswered false 400 (codes "{}") query r)
answer-IsAnswered_example =
    answer-IsAnswered encoder (codes "true") [] 400 (codes "Bad Request") [] query refl

delete-IsAnswered_example :
    (r : Query) × (delete encoder true query ≡ some (some r))
    × IsAnswered false 429 (codes "{}") (record query { retry_after = 5 }) r
delete-IsAnswered_example = delete-IsAnswered encoder query refl

answer_balanced_example :
    ((r : Query) × (answer_query encoder (codes "true") [] (set_stat_actor query) ≡ some r)
      × (run r.events (counters ((2, 9) ∷ [])) ≡ some (counters ((2, 9) ∷ []))))
    × ((r : Query) × (fail_query encoder 400 [] [] (set_stat_actor query) ≡ some r)
        × (run r.events (counters ((2, 9) ∷ [])) ≡ some (counters ((2, 9) ∷ []))))
answer_balanced_example =
    answer_balanced encoder (codes "true") [] 400 [] [] query ((2, 9) ∷ []) refl refl

-- Two requests; the first is answered while the second is open.
abbrev both : List Event
both = request 50 2 9 5 ∷ request 60 1 4 4 ∷ response true 7 2 9 ∷ []

both-History : History [] both ((1, 4) ∷ [])
both-History = asked 50 2 9 5 (asked 60 1 4 4 (replied ((1, 4) ∷ []) [] true 7 2 9 refl done))

run-counters_example : run both (counters []) ≡ some (counters ((1, 4) ∷ []))
run-counters_example = run-counters both-History

add_windows_example :
    add (count_events both no_stat) (count_events both no_stat)
    ≡ count_events (both ++ both) no_stat
add_windows_example = add_windows both both
