-- ===== src/Http.antt =====
-- The HTTP side of the server: the requests of telegram-bot-api/HttpConnection.cpp, and the start of
-- the listener in telegram-bot-api/HttpServer.h.
pub mod Routes
use core_telegram_api.Common.{
  ℕ, zero, suc, ◌+◌, ◌-◌, ◌*◌, ◌/◌, ◌%◌, ◌^◌, ◌≤◌, ◌<◌, min, max, ◌≡◌, refl, sym, ap, ◌∙◌, subst,
  ◌≢◌, ◌↔◌, ◌⊎◌, inl, inr, Bool, true, false, not, ◌&&◌, ◌||◌, Option, none, some, List, [], ◌∷◌,
  ◌++◌, map, arith, ltb, leb, if◌then◌else◌, ltb→lt, lt→ltb, leb→le, Bool-cases, Option-cases,
  length, take, All, length-append, length-take, Eq, ◌==◌, nat_eq, bytes_eq, int_eq, beq_refl,
  beq_ne, ℤ, pos, negsuc, leℤ, Map, Unique, find, insert, erase, find-insert, find-erase,
  length-insert, length-insert_present, length-erase, Unique-insert, Unique-erase, count, hit,
  count-insert, count-erase, count_pos_of_find, Bytes, codes, is_prefix, prefix_rest, split_at_byte,
  append_nil, is_prefix-append, prefix_rest-append, split_at_byte-append, Lacks, lacks,
}
use core_telegram_api.Query.{Query, Encoder, json_query_error}

-- What the code uses of `td::Parser`: each gives the text that is left, and `none` for a parser
-- whose status becomes an error.
pub record PathParser : Type 0 where
  pub peek_char : Bytes → ℕ
  pub try_skip : Bytes → Bytes → Option Bytes
  pub read_till : ℕ → Bytes → Option (Bytes × Bytes)
  pub skip : ℕ → Bytes → Option Bytes

-- What it relies on.
pub record IsPathParser (t : PathParser) : Type 0 where
  pub peek_char_first : (c : ℕ) (s : Bytes) → t.peek_char (c ∷ s) ≡ c
  pub try_skip_present : (p s : Bytes) → t.try_skip p (p ++ s) ≡ some s
  pub try_skip_absent : (p s : Bytes) → is_prefix p s ≡ false → t.try_skip p s ≡ none
  pub read_till_present :
      (c : ℕ) (s r : Bytes) → Lacks c s → t.read_till c (s ++ (c ∷ r)) ≡ some (s, c ∷ r)
  pub skip_present : (c : ℕ) (r : Bytes) → t.skip c (c ∷ r) ≡ some r

-- What `handle` makes of a path: an error, or a query with its token, its environment and its
-- method.
pub data Route : Type 0 where
  not_found : Bytes → Route
  query : Bytes → Bool → Bytes → Route

module _ (t : PathParser) where
  -- The end of the path, after the token and the mark of the test environment.
  unfoldable pub read_method : Bytes → Bool → Bytes → Route
  read_method token is_test_dc s = elim (t.skip b'/' s) [
    | none ↦ not_found (codes "Not Found")
    | some method ↦ query token is_test_dc method
  ]

  unfoldable pub read_environment : Bytes → Bytes → Route
  unfolding read_method
  read_environment token s = elim (t.try_skip (codes "/test") s) [
    | some r ↦ read_method token true r
    | none ↦ read_method token false s
  ]

  unfoldable pub read_token : Bytes → Route
  unfolding read_environment
  read_token s = elim (t.read_till b'/' s) [
    | none ↦ not_found (codes "Not Found")
    | some (token, r) ↦ read_environment token r
  ]

  -- `HttpConnection::handle`, up to the making of the query.
  unfoldable pub route : Bytes → Route
  unfolding read_token
  route path =
      if t.peek_char path == b'/'
      then elim (t.try_skip (codes "/bot") path) [
        | none ↦ not_found (codes "Not Found")
        | some s ↦ read_token s
      ]
      else not_found (codes "Not Found: absolute URI is specified in the Request-Line")

-- What is written to the connection: a header with its status line, its content length and the
-- seconds of `Retry-After`, the content, and the end.
pub data Write : Type 0 where
  header : ℕ → ℕ → Option ℕ → Write
  content : Bytes → Write
  write_ok write_error : Write

-- `send_response`; `header_fits` is the answer of `HttpHeaderCreator::finish`.
unfoldable pub send_response : Bool → ℕ → Bytes → ℕ → List Write
send_response header_fits http_status_code text retry_after =
    if header_fits
    then header http_status_code (length text)
        (if ltb 0 retry_after then some retry_after else none)
      ∷ content text
      ∷ write_ok
      ∷ []
    else write_error ∷ []

-- `send_http_error`.
unfoldable pub send_http_error : Encoder → Bool → ℕ → Bytes → List Write
unfolding send_response json_query_error
send_http_error c header_fits http_status_code description =
    send_response header_fits http_status_code
      (c.encode (json_query_error c http_status_code description [])) 0

-- `on_query_finished`.
unfoldable pub on_query_finished : Bool → Query → List Write
unfolding send_response
on_query_finished header_fits q =
    send_response header_fits q.http_status_code q.answer q.retry_after
