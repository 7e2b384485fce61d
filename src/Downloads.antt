-- ===== src/Downloads.antt =====
-- The queries that wait for a file: `do_get_file`, `on_file_download`, `on_update_file`,
-- `TdOnDownloadFileCallback` and the part of `on_closed` for them in telegram-bot-api/Client.cpp.
pub mod Invariant
pub mod Progress
use core_telegram_api.Common.{
  ℕ, zero, suc, ◌+◌, ◌-◌, ◌*◌, ◌/◌, ◌%◌, ◌^◌, ◌≤◌, ◌<◌, min, max, ◌≡◌, refl, sym, ap, ◌∙◌, subst,
  ◌≢◌, ◌↔◌, ◌⊎◌, inl, inr, Bool, true, false, not, ◌&&◌, ◌||◌, Option, none, some, List, [], ◌∷◌,
  ◌++◌, map, arith, ltb, leb, if◌then◌else◌, ltb→lt, lt→ltb, leb→le, Bool-cases, Option-cases,
  length, take, All, length-append, length-take, Eq, ◌==◌, nat_eq, bytes_eq, int_eq, beq_refl,
  beq_ne, ℤ, pos, negsuc, leℤ, Map, Unique, find, insert, erase, find-insert, find-erase,
  length-insert, length-insert_present, length-erase, Unique-insert, Unique-erase, count, hit,
  count-insert, count-erase, count_pos_of_find, tally, weight_at, tally-insert, tally-erase,
  tally_pos, Bytes, codes, is_prefix, prefix_rest, split_at_byte, append_nil, is_prefix-append,
  prefix_rest-append, split_at_byte-append, Lacks, lacks,
}

-- `td_api::file` with its local part.
pub record File : Type 0 where
  pub id : ℤ
  pub expected_size : ℕ
  pub downloaded_size : ℕ
  pub is_downloading_active : Bool
  pub is_downloading_completed : Bool

-- What comes of a download: the file, an error with its code, or the error of a closing client.
pub data Loaded : Type 0 where
  loaded : File → Loaded
  refused : ℤ → Bytes → Loaded
  closing : Loaded

-- The part of `Client` for downloads. `started` is the set `download_started_file_ids_`, `requests`
-- are those of `handlers_`, `cancelled` the files whose download the client library was asked to
-- cancel, and `answers` the queries that were answered.
pub record Downloads : Type 0 where
  pub listeners : Map ℤ (List ℕ)
  pub started : Map ℤ Bool
  pub requests : Map ℕ ℤ
  pub is_closing : Bool
  pub cancelled : List ℤ
  pub answers : List (ℕ × Loaded)

abbrev pub max_download_file_size : ℕ
max_download_file_size = 20971520

abbrev pub is_some : {A : Type 0} → Option A → Bool
is_some none = false
is_some (some x) = true

abbrev pub or_empty : Option (List ℕ) → List ℕ
or_empty none = []
or_empty (some qs) = qs

abbrev pub file_too_big : Loaded
file_too_big = refused (pos 400) (codes "Bad Request: file is too big")

-- Each query of a list is answered alike.
abbrev pub answer_each : Loaded → List ℕ → List (ℕ × Loaded)
answer_each r [] = []
answer_each r (q ∷ qs) = (q, r) ∷ answer_each r qs

-- `do_get_file`; `id` is what `handlers_.create` gives.
unfoldable pub do_get_file : Bool → ℕ → File → ℕ → Downloads → Downloads
do_get_file local_mode id file query s =
    if not local_mode && ltb max_download_file_size (max file.expected_size file.downloaded_size)
    then record s { answers = s.answers ++ (query, file_too_big) ∷ [] }
    else record s {
      listeners = insert file.id (or_empty (find file.id s.listeners) ++ query ∷ []) s.listeners;
      requests = insert id file.id s.requests;
    }

-- `is_file_being_downloaded`.
abbrev pub is_file_being_downloaded : ℤ → Downloads → Bool
is_file_being_downloaded file_id s = is_some (find file_id s.listeners)

-- `on_file_download`.
unfoldable pub on_file_download : ℤ → Loaded → Downloads → Downloads
on_file_download file_id r s = elim (find file_id s.listeners) [
  | none ↦ s
  | some qs ↦ record s {
    listeners = erase file_id s.listeners;
    started = erase file_id s.started;
    answers = s.answers ++ answer_each r qs;
  }
]

abbrev pub is_too_big : Bool → File → Bool
is_too_big local_mode file = not local_mode && ltb max_download_file_size file.downloaded_size

abbrev pub unavailable : Loaded
unavailable =
    refused (pos 400) (codes "Bad Request: wrong file_id or the file is temporarily unavailable")

-- `on_update_file`.
unfoldable pub on_update_file : Bool → File → Downloads → Downloads
unfolding on_file_download
on_update_file local_mode file s =
    if not (is_file_being_downloaded file.id s)
    then s
    else if is_too_big local_mode file
    then on_file_download file.id file_too_big (record s {
      cancelled = if file.is_downloading_active then s.cancelled ++ file.id ∷ [] else s.cancelled;
    })
    else if file.is_downloading_completed
    then on_file_download file.id (loaded file) s
    else if not file.is_downloading_active && is_some (find file.id s.started)
    then on_file_download file.id (if s.is_closing then closing else unavailable) s
    else s

-- The result of `downloadFile`: an error, or the file.
pub data Result : Type 0 where
  error_result : ℤ → Bytes → Result
  file_result : File → Result

-- `TdOnDownloadFileCallback::on_result` for the file `file_id`.
unfoldable pub on_download_result : Bool → ℤ → Result → Downloads → Downloads
unfolding on_file_download on_update_file
on_download_result local_mode file_id (error_result code message) s =
    on_file_download file_id (refused code message) s
on_download_result local_mode file_id (file_result file) s =
    on_update_file local_mode file (record s {
      started =
          if is_file_being_downloaded file_id s then insert file_id true s.started else s.started;
    })

-- `Client::on_result` for a request to download.
unfoldable pub on_result : Bool → ℕ → Result → Downloads → Option Downloads
unfolding on_download_result
on_result local_mode id r s = elim (find id s.requests) [
  | none ↦ none
  | some file_id ↦
      some (on_download_result local_mode file_id r (record s { requests = erase id s.requests }))
]

abbrev pub answer_all : Loaded → Map ℤ (List ℕ) → List (ℕ × Loaded)
answer_all r [] = []
answer_all r ((f, qs) ∷ fs) = answer_each r qs ++ answer_all r fs

-- The part of `on_closed` for files.
unfoldable pub close_downloads : Downloads → Downloads
close_downloads s = record s {
  listeners = [];
  started = [];
  answers = s.answers ++ answer_all closing s.listeners;
}
