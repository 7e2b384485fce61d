-- ===== src/Errors.antt =====
-- What a query is told of an error of the Telegram client: `Client::fail_query_with_error` and
-- `get_retry_after_time` in telegram-bot-api/Client.cpp.
pub mod Replies
use core_telegram_api.Common.{
  ℕ, zero, suc, ◌+◌, ◌-◌, ◌*◌, ◌/◌, ◌%◌, ◌^◌, ◌≤◌, ◌<◌, min, max, ◌≡◌, refl, sym, ap, ◌∙◌, subst,
  ◌≢◌, ◌↔◌, ◌⊎◌, inl, inr, Bool, true, false, not, ◌&&◌, ◌||◌, Option, none, some, List, [], ◌∷◌,
  ◌++◌, map, arith, ltb, leb, if◌then◌else◌, ltb→lt, lt→ltb, leb→le, Bool-cases, Option-cases,
  length, take, All, length-append, length-take, Eq, ◌==◌, nat_eq, bytes_eq, int_eq, beq_refl,
  beq_ne, ℤ, pos, negsuc, leℤ, Map, Unique, find, insert, erase, find-insert, find-erase,
  length-insert, length-insert_present, length-erase, Unique-insert, Unique-erase, count, hit,
  count-insert, count-erase, count_pos_of_find, Bytes, codes, is_prefix, prefix_rest, split_at_byte,
  append_nil, is_prefix-append, prefix_rest-append, split_at_byte-append, Lacks, lacks,
}

-- The reply to the query: `set_retry_after_error`, or `fail_query` with a code and a description.
pub data Reply : Type 0 where
  retry : ℕ → Reply
  fail : ℕ → Bytes → Reply

abbrev pub retry_prefix : Bytes
retry_prefix = codes "Too Many Requests: retry after "

abbrev pub positive : Option ℤ → ℕ
positive (some (pos n)) = n
positive _ = 0

abbrev pub seconds_of : (Bytes → Option ℤ) → Option Bytes → ℕ
seconds_of to_integer_safe none = 0
seconds_of to_integer_safe (some s) = positive (to_integer_safe s)

-- `get_retry_after_time`; `to_integer_safe` is `td::to_integer_safe<int>`.
unfoldable pub get_retry_after_time : (Bytes → Option ℤ) → Bytes → ℕ
get_retry_after_time to_integer_safe message =
    seconds_of to_integer_safe (prefix_rest retry_prefix message)

abbrev pub is_upper : ℕ → Bool
is_upper c = leb b'A' c && leb c b'Z'

abbrev pub is_digit : ℕ → Bool
is_digit c = leb b'0' c && leb c b'9'

-- `td::to_lower` of a byte.
abbrev pub to_lower : ℕ → ℕ
to_lower c = if is_upper c then c + 32 else c

-- A message of capitals, digits and underscores is one of the server.
unfoldable pub is_server_error : Bytes → Bool
is_server_error [] = true
is_server_error (c ∷ s) =
    if c == b'_' || (is_upper c || is_digit c) then is_server_error s else false

-- The code after the first adjustments.
unfoldable pub adjust_code : ℤ → Bytes → ℕ
unfolding is_server_error
adjust_code (negsuc n) message = 400
adjust_code (pos n) message =
    if ltb n 400 || n == 404
    then 400
    else if n == 403
    then if is_server_error message then 400 else 403
    else n

-- The chain of comparisons with whole messages: the new code and the new message.
unfoldable pub known_errors : Map Bytes (ℕ × Bytes)
known_errors =
    (
      codes "MESSAGE_NOT_MODIFIED",
      (
        400,
        codes
            "message is not modified: specified new message content and reply markup are exactly the same as a current content and reply markup of the message",
      ),
    )
    ∷ (codes "WC_CONVERT_URL_INVALID", (400, codes "Wrong HTTP URL specified"))
    ∷ (codes "EXTERNAL_URL_INVALID", (400, codes "Wrong HTTP URL specified"))
    ∷ (codes "WEBPAGE_CURL_FAILED", (400, codes "Failed to get HTTP URL content"))
    ∷ (codes "WEBPAGE_MEDIA_EMPTY", (400, codes "Wrong type of the web page content"))
    ∷ (
      codes "MEDIA_GROUPED_INVALID",
      (400, codes "Can't use the media of the specified type in the album"),
    )
    ∷ (codes "REPLY_MARKUP_TOO_LONG", (400, codes "reply markup is too long"))
    ∷ (codes "INPUT_USER_DEACTIVATED", (403, codes "Forbidden: user is deactivated"))
    ∷ (codes "USER_IS_BLOCKED", (403, codes "bot was blocked by the user"))
    ∷ (codes "USER_ADMIN_INVALID", (400, codes "user is an administrator of the chat"))
    ∷ (codes "File generation failed", (400, codes "can't upload file by URL"))
    ∷ (codes "CHAT_ABOUT_NOT_MODIFIED", (400, codes "chat description is not modified"))
    ∷ (codes "PACK_SHORT_NAME_INVALID", (400, codes "invalid sticker set name is specified"))
    ∷ (codes "PACK_SHORT_NAME_OCCUPIED", (400, codes "sticker set name is already occupied"))
    ∷ (codes "STICKER_EMOJI_INVALID", (400, codes "invalid sticker emojis"))
    ∷ (
      codes "QUERY_ID_INVALID",
      (400, codes "query is too old and response timeout expired or query ID is invalid"),
    )
    ∷ (codes "MESSAGE_DELETE_FORBIDDEN", (400, codes "message can't be deleted"))
    ∷ []

abbrev pub drop : ℕ → Bytes → Bytes
drop zero s = s
drop (suc n) [] = []
drop (suc n) (c ∷ s) = drop n s

abbrev pub is_rank_error : Bytes → Bool
is_rank_error m =
    m == codes "RANK_CHANGE_FORBIDDEN"
    || (m == codes "RANK_EMOJI_NOT_ALLOWED" || m == codes "RANK_INVALID")

-- The rewriting of the message when the code is 400; `method` is the method of the query.
unfoldable pub rewrite : Bytes → Bytes → ℕ × Bytes
unfolding known_errors
rewrite method message = elim (find message known_errors) [
  | some r ↦ r
  | none ↦
      if is_rank_error message
      then (
        400,
        (if method == codes "setchatmembertag" then codes "TAG" else codes "CUSTOM_TITLE")
            ++ drop 4 message,
      )
      else (400, message)
]

abbrev pub or_default : Bytes → Bytes → Bytes
or_default [] message = message
or_default (c ∷ s) message = c ∷ s

-- The `switch` over the code.
unfoldable pub prefix_of : ℕ → Option Bytes
prefix_of code =
    if code == 400
    then some (codes "Bad Request")
    else if code == 401
    then some (codes "Unauthorized")
    else if code == 403
    then some (codes "Forbidden")
    else if code == 500
    then some (codes "Internal Server Error")
    else none

-- What follows the prefix: nothing, or the message, in lower case at its start unless its second
-- byte is a capital or an underscore.
unfoldable pub suffix : Bytes → Bytes
suffix [] = []
suffix (c ∷ []) = codes ": " ++ (to_lower c ∷ [])
suffix (c ∷ d ∷ s) =
    codes ": " ++ (if d == b'_' || is_upper d then c ∷ d ∷ s else to_lower c ∷ d ∷ s)

-- The end of the function, from the `switch` on.
unfoldable pub describe : ℕ → Bytes → Reply
unfolding prefix_of suffix
describe code message = elim (prefix_of code) [
  | none ↦ fail 400 (codes "Bad Request: " ++ message)
  | some prefix ↦
      if is_prefix prefix message then fail code message else fail code (prefix ++ suffix message)
]

-- The branch for a 429, by the seconds to wait.
abbrev pub too_many : ℕ → Bytes → Reply
too_many zero message = fail 500 message
too_many (suc n) message = retry (suc n)

-- The branches for any other error, by the adjusted code.
unfoldable pub describe_adjusted : Bytes → Bytes → Bytes → ℕ → Reply
unfolding rewrite describe
describe_adjusted method message default_message code =
    if code == 400
    then describe (rewrite method (or_default default_message message)).0
        (rewrite method (or_default default_message message)).1
    else describe code message

-- `fail_query_with_error`.
unfoldable pub fail_query_with_error : (Bytes → Option ℤ) → Bytes → ℤ → Bytes → Bytes → Reply
unfolding get_retry_after_time adjust_code describe_adjusted
fail_query_with_error to_integer_safe method error_code message default_message =
    if error_code == pos 429
    then too_many (get_retry_after_time to_integer_safe message) message
    else describe_adjusted method message default_message (adjust_code error_code message)

-- `is_special_error_code`.
unfoldable pub is_special_error_code : ℤ → Bool
is_special_error_code (negsuc n) = false
is_special_error_code (pos n) = n == 401 || (n == 429 || leb 500 n)
