-- ===== src/Stats.antt =====
-- The counters of requests and updates: `ServerBotStat` and `BotStatActor` in
-- telegram-bot-api/Stats.h and Stats.cpp.
pub mod Balance
pub mod Totals
use core_telegram_api.Common.{
  ℕ, zero, suc, ◌+◌, ◌-◌, ◌*◌, ◌/◌, ◌%◌, ◌^◌, ◌≤◌, ◌<◌, min, max, ◌≡◌, refl, sym, ap, ◌∙◌, subst,
  ◌≢◌, ◌↔◌, ◌⊎◌, inl, inr, Bool, true, false, not, ◌&&◌, ◌||◌, Option, none, some, List, [], ◌∷◌,
  ◌++◌, map, arith, ltb, leb, if◌then◌else◌, ltb→lt, lt→ltb, leb→le, Bool-cases, Option-cases,
  length, take, All, length-append, length-take, Eq, ◌==◌, nat_eq, bytes_eq, int_eq, beq_refl,
  beq_ne, ℤ, pos, negsuc, leℤ, Map, Unique, find, insert, erase, find-insert, find-erase,
  length-insert, length-insert_present, length-erase, Unique-insert, Unique-erase, count, hit,
  count-insert, count-erase, count_pos_of_find, Bytes, codes, is_prefix, prefix_rest, split_at_byte,
  append_nil, is_prefix-append, prefix_rest-append, split_at_byte-append, Lacks, lacks,
}

-- `ServerBotStat::Request`, `Response` and `Update`.
pub data Event : Type 0 where
  request : ℕ → ℕ → ℕ → ℕ → Event
  response : Bool → ℕ → ℕ → ℕ → Event
  update : Event

-- `ServerBotStat`. Its doubles count whole things and are whole numbers here.
pub record ServerBotStat : Type 0 where
  pub request_count : ℕ
  pub request_bytes : ℕ
  pub request_file_count : ℕ
  pub request_files_bytes : ℕ
  pub request_files_max_bytes : ℕ
  pub response_count : ℕ
  pub response_count_ok : ℕ
  pub response_count_error : ℕ
  pub response_bytes : ℕ
  pub update_count : ℕ

abbrev pub no_stat : ServerBotStat
no_stat = record {
  request_count = 0;
  request_bytes = 0;
  request_file_count = 0;
  request_files_bytes = 0;
  request_files_max_bytes = 0;
  response_count = 0;
  response_count_ok = 0;
  response_count_error = 0;
  response_bytes = 0;
  update_count = 0;
}

-- `ServerBotStat::on_event`.
unfoldable pub on_event : Event → ServerBotStat → ServerBotStat
on_event update s = record s { update_count = s.update_count + 1 }
on_event (response ok size file_count files_size) s = record s {
  response_count = s.response_count + 1;
  response_count_ok = if ok then s.response_count_ok + 1 else s.response_count_ok;
  response_count_error = if ok then s.response_count_error else s.response_count_error + 1;
  response_bytes = s.response_bytes + size;
}
on_event (request size file_count files_size files_max_size) s = record s {
  request_count = s.request_count + 1;
  request_bytes = s.request_bytes + size;
  request_file_count = s.request_file_count + file_count;
  request_files_bytes = s.request_files_bytes + files_size;
  request_files_max_bytes = max s.request_files_max_bytes files_max_size;
}

-- `ServerBotStat::add`.
unfoldable pub add : ServerBotStat → ServerBotStat → ServerBotStat
add s t = record {
  request_count = s.request_count + t.request_count;
  request_bytes = s.request_bytes + t.request_bytes;
  request_file_count = s.request_file_count + t.request_file_count;
  request_files_bytes = s.request_files_bytes + t.request_files_bytes;
  request_files_max_bytes = max s.request_files_max_bytes t.request_files_max_bytes;
  response_count = s.response_count + t.response_count;
  response_count_ok = s.response_count_ok + t.response_count_ok;
  response_count_error = s.response_count_error + t.response_count_error;
  response_bytes = s.response_bytes + t.response_bytes;
  update_count = s.update_count + t.update_count;
}

-- The counters of `BotStatActor`.
pub record Active : Type 0 where
  pub active_request_count : ℕ
  pub active_file_upload_bytes : ℕ
  pub active_file_upload_count : ℕ

abbrev pub idle : Active
idle = record {
  active_request_count = 0;
  active_file_upload_bytes = 0;
  active_file_upload_count = 0;
}

-- `BotStatActor::on_event`. `none` is a failed `CHECK`, or a count of uploads below zero.
unfoldable pub on_active_event : Event → Active → Option Active
on_active_event update a = some a
on_active_event (response ok size file_count files_size) a =
    if ltb 0 a.active_request_count
      && (leb files_size a.active_file_upload_bytes && leb file_count a.active_file_upload_count)
    then some (record {
      active_request_count = a.active_request_count - 1;
      active_file_upload_bytes = a.active_file_upload_bytes - files_size;
      active_file_upload_count = a.active_file_upload_count - file_count;
    })
    else none
on_active_event (request size file_count files_size files_max_size) a = some (record {
  active_request_count = a.active_request_count + 1;
  active_file_upload_bytes = a.active_file_upload_bytes + files_size;
  active_file_upload_count = a.active_file_upload_count + file_count;
})

unfoldable pub run : List Event → Active → Option Active
run [] a = some a
run (e ∷ es) a = elim (on_active_event e a) [ none ↦ none | some b ↦ run es b ]

-- The events of a time window, counted one after the other.
unfoldable pub count_events : List Event → ServerBotStat → ServerBotStat
unfolding on_event
count_events [] s = s
count_events (e ∷ es) s = count_events es (on_event e s)
