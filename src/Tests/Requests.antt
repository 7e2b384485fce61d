-- ===== src/Tests/Requests.antt =====
-- A path and an error message, read.
use core_telegram_api.Common.{
  ℕ, ◌≡◌, List, refl, ap, true, false, Option, none, some, [], ◌∷◌, ◌++◌, arith, if◌then◌else◌,
  ◌==◌, nat_eq, bytes_eq, int_eq, ℤ, pos, Bytes, codes, is_prefix, prefix_rest, split_at_byte,
  prefix_rest-append, split_at_byte-append,
}
use core_telegram_api.Http.{PathParser, IsPathParser, query, route}
use core_telegram_api.Http.Routes.{path_of, route-path_of}
use core_telegram_api.UpdateTypes.{
  UpdateType, JsonValue, array_value, has_bit, default_allowed_update_types,
  get_allowed_update_types,
}
use core_telegram_api.UpdateTypes.Masks.{index, names, strings, allowed_update_types_exact}
use core_telegram_api.Errors.{retry, fail_query_with_error, retry_prefix}
use core_telegram_api.Errors.Replies.{IsNamed, fail_query_with_error-IsNamed, retry_after_read}

abbrev first : Bytes → ℕ
first [] = 0
first (c ∷ s) = c

abbrev skip : ℕ → Bytes → Option Bytes
skip c [] = none
skip c (d ∷ s) = if d == c then some s else none

abbrev parser : PathParser
parser = record {
  peek_char = first;
  try_skip = prefix_rest;
  read_till = λ c s. some (split_at_byte c s);
  skip = skip;
}

absent : (p s : Bytes) → is_prefix p s ≡ false → prefix_rest p s ≡ none
unfolding is_prefix prefix_rest
absent [] s h = ground (arith, h)
absent (c ∷ p) [] h = refl
absent (c ∷ p) (d ∷ s) h = ground (arith, absent p s)

parser-IsPathParser : IsPathParser parser
parser-IsPathParser = record {
  peek_char_first = λ c s. refl;
  try_skip_present = prefix_rest-append;
  try_skip_absent = absent;
  read_till_present = λ c s r h. ap some (split_at_byte-append c s r h);
  skip_present = λ c r. ground (arith, nat_eq.beq_iff c c);
}

route-path_of_example :
    route parser (path_of (codes "12:ab") true (codes "getMe"))
    ≡ query (codes "12:ab") true (codes "getMe")
unfolding is_prefix
route-path_of_example =
    route-path_of parser parser-IsPathParser (codes "12:ab") true (codes "getMe") refl refl

-- The numbers that occur.
abbrev to_integer_safe : Bytes → Option ℤ
to_integer_safe s = if s == codes "17" then some (pos 17) else none

fail_query_with_error-IsNamed_example : IsNamed (
    fail_query_with_error to_integer_safe
      (codes "sendmessage")
      (pos 400)
      (codes "USER_IS_BLOCKED")
      [])
fail_query_with_error-IsNamed_example =
    fail_query_with_error-IsNamed to_integer_safe (codes "sendmessage") (pos 400)
      (codes "USER_IS_BLOCKED") [] (λ h. ground (arith, h))

retry_after_read_example :
    fail_query_with_error to_integer_safe (codes "getme") (pos 429) (retry_prefix ++ codes "17") []
    ≡ retry 17
retry_after_read_example =
    retry_after_read to_integer_safe (λ n. codes "17") (codes "getme") 17 [] refl (omega arith)

abbrev wanted : List Bytes
wanted = codes "poll" ∷ codes "pool" ∷ codes "message" ∷ []

abbrev decoded : Bytes → Option JsonValue
decoded s = some (array_value (strings wanted))

allowed_update_types_exact_example :
    (((u : UpdateType) → names u wanted ≡ false)
      → get_allowed_update_types decoded (λ s. none) (codes "[]") false
        ≡ default_allowed_update_types)
    × ((v : UpdateType)
        → names v wanted ≡ true
        → (u : UpdateType)
        → has_bit (index u) (get_allowed_update_types decoded (λ s. none) (codes "[]") false)
          ≡ names u wanted)
allowed_update_types_exact_example =
    allowed_update_types_exact decoded (λ s. none) (codes "[]") false wanted refl refl
