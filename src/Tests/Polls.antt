-- ===== src/Tests/Polls.antt =====
-- A bot that asks for updates, sets a webhook with a certificate, and logs out.
use core_telegram_api.Common.{
  is_prefix, ℕ, ◌≤◌, ◌<◌, ◌≡◌, refl, ap, Bool, true, false, Option, none, some, List, [], ◌∷◌, ◌++◌,
  arith, nat_eq, bytes_eq, int_eq, pos, Bytes, codes, prefix_rest,
}
use core_telegram_api.Query.{Query, HttpFile, pending, arg, file}
use core_telegram_api.WebhookInfo.{
  TextLibrary, Settings, is_empty, save_webhook, restore_args, settings_of, get_integer_arg,
  get_webhook_max_connections,
}
use core_telegram_api.UpdateTypes.{
  number_value, default_allowed_update_types, get_allowed_update_types,
}
use core_telegram_api.Receiving.{
  Asked, Tdlib, IsTdlib, Receiving, to_bool, abort_long_poll, fail_query_conflict,
}
use core_telegram_api.Receiving.Webhook.{
  process_set_webhook_query, admit_webhook, replace_webhook, close_old_webhook, do_set_webhook,
  start_webhook, take_certificate, get_webhook_certificate, finish_set_webhook, is_unmodified,
  update_allowed_update_types, get_webhook_fix_ip_address, webhook_verified, save, clear_updates,
  on_webhook_certificate_copied,
}
use core_telegram_api.Receiving.Updates.{
  process_get_updates_query, do_get_updates, find_updates, get_from, hold_or_answer, json_updates,
}
use core_telegram_api.Receiving.Closing.{on_closed}
use core_telegram_api.Receiving.Invariant.{answered, Kept}
use core_telegram_api.Receiving.History.{
  Event, command, verified, copied, logs_out, on_cmd, step, run, asked, Lawful, ends, continues,
  opened, opened-Inv, run-Safe, run-Exclusive, on_closed-Answered,
}
use core_telegram_api.Receiving.Restart.{IsAccepted, Restored, restore_query, run-Restored}
use core_telegram_api.WebhookInfo.RoundTrip.{IsStorable}
use core_telegram_api.Tests.Settings.{text_library, text_library-IsTextLibrary, read, length-tally}
use core_telegram_api.Receiving.Sizes.{counted_size, json_updates_lem}

-- A queue that has no updates.
abbrev library : Tdlib (List ℕ) ℕ
library = record {
  text = text_library;
  json_decode = λ s. some (number_value s);
  to_integer_safe = λ s. some (read s);
  to_int32 = λ s. pos 0;
  to_lower = λ s. s;
  trim = λ s. s;
  parses_url = λ s. true;
  is_base64url_characters = λ s. true;
  clear = λ n queue. [];
  get_head = λ queue. pos 1;
  from_int32 = λ i. some i;
  get = λ from limit date queue. some ([], 0, queue);
  data_size = λ u. u;
  local_mode = false;
  default_max_webhook_connections = 40;
}

library-IsTdlib : IsTdlib library
library-IsTdlib = record {
  get_from_head = λ limit now queue h. ground (arith, h);
  get_total = λ from limit now queue us total left h. ground (arith, h);
}

abbrev request : Bytes → List (Bytes × Bytes) → List HttpFile → Query
request method args files = record {
  state = pending;
  container = [];
  method = method;
  args = args;
  headers = [];
  files = files;
  is_internal = false;
  answer = [];
  http_status_code = 0;
  retry_after = 0;
  has_stat_actor = false;
  events = [];
}

abbrev asks_updates : Asked
asks_updates = record {
  id = 1;
  request = request (codes "getupdates") ((codes "timeout", codes "9") ∷ []) [];
}

abbrev sets_webhook : Asked
sets_webhook = record {
  id = 2;
  request =
      request (codes "setwebhook") ((codes "url", codes "https://a.b/") ∷ [])
        (record { field_name = codes "certificate"; size = 900 } ∷ []);
}

abbrev both : List (ℕ × ℕ × Event)
both = (10, 5, command asks_updates) ∷ (20, 5, command sets_webhook) ∷ []

abbrev set_up : List (ℕ × ℕ × Event)
set_up =
    (10, 5, command asks_updates)
    ∷ (20, 5, command sets_webhook)
    ∷ (30, 5, copied false)
    ∷ (40, 5, verified 2 (codes "1.2.3.4"))
    ∷ []

abbrev log_out : List (ℕ × ℕ × Event)
log_out = (10, 5, command asks_updates) ∷ (20, 5, command sets_webhook) ∷ (30, 5, logs_out) ∷ []

abbrev fresh : Receiving (List ℕ) ℕ
fresh = opened library [] 7 none

abbrev or_fresh : Option (Receiving (List ℕ) ℕ) → Receiving (List ℕ) ℕ
or_fresh none = fresh
or_fresh (some s) = s

abbrev after : List (ℕ × ℕ × Event) → Receiving (List ℕ) ℕ
after es = or_fresh (run library es fresh)

up_to :
    (es : List (ℕ × ℕ × Event))
    → Lawful library (after both) es
    → Lawful library fresh ((10, 5, command asks_updates) ∷ (20, 5, command sets_webhook) ∷ es)
unfolding run step on_cmd process_get_updates_query process_set_webhook_query admit_webhook
    replace_webhook close_old_webhook do_set_webhook start_webhook take_certificate
    get_webhook_certificate finish_set_webhook abort_long_poll fail_query_conflict do_get_updates
    find_updates get_from hold_or_answer json_updates is_unmodified update_allowed_update_types
    get_webhook_fix_ip_address to_bool arg file get_integer_arg get_allowed_update_types
    get_webhook_max_connections webhook_verified save on_webhook_certificate_copied prefix_rest
    core_telegram_api.WebhookInfo.arg clear_updates
up_to es l =
    continues library {t = after ((10, 5, command asks_updates) ∷ [])} tt refl
      (continues library {t = after both} tt refl l)

set_up-Lawful : Lawful library fresh set_up
unfolding run step on_cmd process_get_updates_query process_set_webhook_query admit_webhook
    replace_webhook close_old_webhook do_set_webhook start_webhook take_certificate
    get_webhook_certificate finish_set_webhook abort_long_poll fail_query_conflict do_get_updates
    find_updates get_from hold_or_answer json_updates is_unmodified update_allowed_update_types
    get_webhook_fix_ip_address to_bool arg file get_integer_arg get_allowed_update_types
    get_webhook_max_connections webhook_verified save on_webhook_certificate_copied prefix_rest
    core_telegram_api.WebhookInfo.arg clear_updates
set_up-Lawful = up_to ((30, 5, copied false) ∷ (40, 5, verified 2 (codes "1.2.3.4")) ∷ []) (
    continues library
      {t = after (
        (10, 5, command asks_updates) ∷ (20, 5, command sets_webhook) ∷ (30, 5, copied false) ∷ [])}
      (sets_webhook, refl) refl (continues library {t = after set_up} tt refl ends))

log_out-Lawful : Lawful library fresh log_out
unfolding run step on_cmd process_get_updates_query process_set_webhook_query admit_webhook
    replace_webhook close_old_webhook do_set_webhook start_webhook take_certificate
    get_webhook_certificate finish_set_webhook abort_long_poll fail_query_conflict do_get_updates
    find_updates get_from hold_or_answer json_updates is_unmodified update_allowed_update_types
    get_webhook_fix_ip_address to_bool arg file get_integer_arg get_allowed_update_types
    get_webhook_max_connections webhook_verified save on_webhook_certificate_copied prefix_rest
    core_telegram_api.WebhookInfo.arg clear_updates
log_out-Lawful = up_to ((30, 5, logs_out) ∷ []) (continues library {t = after log_out} tt refl ends)

run-Safe_example : Kept library fresh (λ x. asked library x set_up) (run library set_up fresh)
run-Safe_example =
    run-Safe library library-IsTdlib set_up fresh (opened-Inv library [] 7 none) set_up-Lawful

run-Exclusive_example :
    ((q : Asked)
      → (after set_up).long_poll_query ≡ some q
      → (is_empty (after set_up).settings.url ≡ true)
        × ((after set_up).webhook_set_query ≡ none)
        × ((after set_up).active_webhook_set_query ≡ none))
    × ((q : Asked)
        → (after set_up).active_webhook_set_query ≡ some q
        → (after set_up).webhook_set_query ≡ none)
    × ((after set_up).has_td_client ≡ true
        → is_empty (after set_up).settings.url ≡ false
        → (after set_up).webhook_set_query ≡ none
        → (after set_up).stored
          ≡ some (save_webhook library.text default_allowed_update_types (after set_up).settings))
unfolding run step on_cmd process_get_updates_query process_set_webhook_query admit_webhook
    replace_webhook close_old_webhook do_set_webhook start_webhook take_certificate
    get_webhook_certificate finish_set_webhook abort_long_poll fail_query_conflict do_get_updates
    find_updates get_from hold_or_answer json_updates is_unmodified update_allowed_update_types
    get_webhook_fix_ip_address to_bool arg file get_integer_arg get_allowed_update_types
    get_webhook_max_connections webhook_verified save on_webhook_certificate_copied prefix_rest
    core_telegram_api.WebhookInfo.arg clear_updates
run-Exclusive_example =
    run-Exclusive library library-IsTdlib [] 7 none set_up (after set_up) set_up-Lawful refl

on_closed-Answered_example :
    (t : Receiving (List ℕ) ℕ) × (on_closed library 50 5 (after log_out) ≡ some t)
    × ((x : ℕ) → answered t x ≡ asked library x log_out)
    × ((later : ℕ) (is_error : Bool)
        → on_webhook_certificate_copied library later is_error t ≡ none)
unfolding run step on_cmd process_get_updates_query process_set_webhook_query admit_webhook
    replace_webhook close_old_webhook do_set_webhook start_webhook take_certificate
    get_webhook_certificate finish_set_webhook abort_long_poll fail_query_conflict do_get_updates
    find_updates get_from hold_or_answer json_updates is_unmodified update_allowed_update_types
    get_webhook_fix_ip_address to_bool arg file get_integer_arg get_allowed_update_types
    get_webhook_max_connections webhook_verified save on_webhook_certificate_copied prefix_rest
    core_telegram_api.WebhookInfo.arg clear_updates
on_closed-Answered_example =
    on_closed-Answered library library-IsTdlib [] 7 none log_out (after log_out) 50 5 log_out-Lawful
      refl refl refl

json_updates_lem_example :
    (rest : List ℕ) × (10 ∷ 20 ∷ 30 ∷ [] ≡ json_updates library 140 (10 ∷ 20 ∷ 30 ∷ []) ++ rest)
    × (counted_size library (json_updates library 140 (10 ∷ 20 ∷ 30 ∷ [])) < 140)
    × ((u : ℕ) (others : List ℕ)
        → rest ≡ u ∷ others
        → 140 ≤ counted_size library (json_updates library 140 (10 ∷ 20 ∷ 30 ∷ []) ++ u ∷ []))
json_updates_lem_example = json_updates_lem library 140 (10 ∷ 20 ∷ 30 ∷ []) (ground arith)

stored-IsStorable : IsStorable (after set_up).settings
unfolding run step on_cmd process_get_updates_query process_set_webhook_query admit_webhook
    replace_webhook close_old_webhook do_set_webhook start_webhook take_certificate
    get_webhook_certificate finish_set_webhook abort_long_poll fail_query_conflict do_get_updates
    find_updates get_from hold_or_answer json_updates is_unmodified update_allowed_update_types
    get_webhook_fix_ip_address to_bool arg file get_integer_arg get_allowed_update_types
    get_webhook_max_connections webhook_verified save on_webhook_certificate_copied prefix_rest
    core_telegram_api.WebhookInfo.arg clear_updates is_prefix
stored-IsStorable = record {
  ip_lacks = refl;
  secret_lacks = refl;
  url_start = refl;
  url_nonempty = λ h. ground (arith, h);
}

set_up-IsAccepted : IsAccepted library (after set_up).settings
unfolding run step on_cmd process_get_updates_query process_set_webhook_query admit_webhook
    replace_webhook close_old_webhook do_set_webhook start_webhook take_certificate
    get_webhook_certificate finish_set_webhook abort_long_poll fail_query_conflict do_get_updates
    find_updates get_from hold_or_answer json_updates is_unmodified update_allowed_update_types
    get_webhook_fix_ip_address to_bool arg file get_integer_arg get_allowed_update_types
    get_webhook_max_connections webhook_verified save on_webhook_certificate_copied prefix_rest
    core_telegram_api.WebhookInfo.arg clear_updates
set_up-IsAccepted = record {
  storable = stored-IsStorable;
  some_types = ground arith;
  types_fit = ground arith;
  some_connections = ground arith;
  connections_fit = ground arith;
  url_parses = refl;
  secret_fits = ground arith;
  secret_allowed = refl;
}

run-Restored_example :
    (v : Bytes) × ((after set_up).stored ≡ some v)
    × Restored library
        (after set_up).settings
        (record { id = 9; request = restore_query (restore_args text_library v) })
        (process_set_webhook_query library 60
          (record { id = 9; request = restore_query (restore_args text_library v) })
          (opened library [] default_allowed_update_types (some v)))
unfolding run step on_cmd process_get_updates_query process_set_webhook_query admit_webhook
    replace_webhook close_old_webhook do_set_webhook start_webhook take_certificate
    get_webhook_certificate finish_set_webhook abort_long_poll fail_query_conflict do_get_updates
    find_updates get_from hold_or_answer json_updates is_unmodified update_allowed_update_types
    get_webhook_fix_ip_address to_bool arg file get_integer_arg get_allowed_update_types
    get_webhook_max_connections webhook_verified save on_webhook_certificate_copied prefix_rest
    core_telegram_api.WebhookInfo.arg clear_updates
run-Restored_example =
    run-Restored library text_library-IsTextLibrary (λ n. refl)
      (λ n small. ap some (length-tally n)) (after set_up).settings set_up-IsAccepted
      library-IsTdlib [] [] 7 none set_up (after set_up) 60 9 set_up-Lawful refl refl refl refl
