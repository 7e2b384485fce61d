-- ===== src/Tests/Files.antt =====
-- Two queries that wait for the same file, and a date and time format.
use core_telegram_api.Common.{
  ◌≡◌, refl, inl, none, Bytes, Bool, true, false, some, [], ◌∷◌, arith, nat_eq, bytes_eq, int_eq,
  pos, find, tally, codes,
}
use core_telegram_api.Downloads.{
  File, Downloads, file_result, on_update_file, on_result, close_downloads,
}
use core_telegram_api.Downloads.Invariant.{times, waiting, ledger, Inv, Kept, nobody}
use core_telegram_api.Downloads.Progress.{
  Settled, on_update_file-Settled, on_result-Loaded, close_downloads-Answers,
}
use core_telegram_api.Formats.{
  Formatting, absolute, long_precision, get_date_time_format, get_date_time_formatting_type,
  read_letters, read_letter,
}
use core_telegram_api.Formats.RoundTrip.{filled, get_date_time_format-canonical}

abbrev file_of : Bool → File
file_of is_completed = record {
  id = pos 9;
  expected_size = 500;
  downloaded_size = 500;
  is_downloading_active = false;
  is_downloading_completed = is_completed;
}

abbrev requested_once : Downloads
requested_once = record {
  listeners = (pos 9, 70 ∷ 71 ∷ []) ∷ [];
  started = [];
  requests = (4, pos 9) ∷ [];
  is_closing = false;
  cancelled = [];
  answers = [];
}

abbrev started_once : Downloads
started_once = record requested_once { started = (pos 9, true) ∷ []; requests = [] }

requested_once-Inv : Inv requested_once
unfolding find tally
requested_once-Inv = record {
  unique_listeners = (refl, tt);
  unique_requests = (refl, tt);
  awaited = λ f h. ground (arith, h);
}

started_once-Inv : Inv started_once
unfolding find tally
started_once-Inv = record {
  unique_listeners = (refl, tt);
  unique_requests = tt;
  awaited = λ f h. ground (arith, h);
}

on_result-Loaded_example :
    (t : Downloads) × (on_result false 4 (file_result (file_of false)) requested_once ≡ some t)
    × Kept requested_once nobody t
unfolding find
on_result-Loaded_example =
    on_result-Loaded false 4 (pos 9) (file_result (file_of false)) requested_once requested_once-Inv
      refl

on_update_file-Settled_example :
    Settled (pos 9) started_once (on_update_file false (file_of true) started_once)
unfolding tally
on_update_file-Settled_example =
    on_update_file-Settled false (file_of true) started_once started_once-Inv refl (inl refl)

close_downloads-Answers_example :
    (times 70 (close_downloads started_once).answers ≡ ledger started_once 70)
    × (tally (waiting 70) (close_downloads started_once).listeners ≡ 0)
close_downloads-Answers_example = close_downloads-Answers started_once 70

-- A day and a time, of which the date is not set.
abbrev day_and_time : Formatting
day_and_time = absolute true none (some long_precision)

get_date_time_format-canonical_example :
    (r : Bytes) × (get_date_time_format (some (filled day_and_time)) ≡ some r)
    × (get_date_time_formatting_type r ≡ some (some day_and_time))
unfolding get_date_time_formatting_type read_letters read_letter
get_date_time_format-canonical_example =
    get_date_time_format-canonical (codes "tTw") day_and_time refl
