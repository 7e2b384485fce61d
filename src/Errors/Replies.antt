-- ===== src/Errors/Replies.antt =====
-- Every error leads to one of a few replies, whose texts start with the name of their code.
use core_telegram_api.Common.{
  ℕ, zero, suc, ◌<◌, ◌≡◌, refl, ap, ◌∙◌, ◌≢◌, inl, inr, true, Option, none, some, ◌++◌,
  if◌then◌else◌, Bool-cases, ◌==◌, nat_eq, bytes_eq, int_eq, beq_ne, ℤ, pos, Bytes, codes,
  is_prefix, is_prefix-append, prefix_rest-append,
}
use core_telegram_api.Errors.{
  Reply, retry, fail, retry_prefix, positive, get_retry_after_time, adjust_code, rewrite, describe,
  prefix_of, suffix, fail_query_with_error, or_default, seconds_of, too_many, describe_adjusted,
}

-- A failure with a code of the `switch`, and a text that starts with its name.
abbrev pub IsNamed : Reply → Type 0
IsNamed (retry n) = ⊥
IsNamed (fail code text) = (p : Bytes) × (prefix_of code ≡ some p) × (is_prefix p text ≡ true)

describe-IsNamed : (code : ℕ) (message : Bytes) → IsNamed (describe code message)
unfolding describe
describe-IsNamed code message = go (prefix_of code) refl
  where
    go :
        (o : Option Bytes)
        → prefix_of code ≡ o
        → IsNamed (elim o as (λ x. Reply) [
          | none ↦ fail 400 (codes "Bad Request: " ++ message)
          | some p ↦
              if is_prefix p message then fail code message else fail code (p ++ suffix message)
        ])
    go none h = (codes "Bad Request", unfold prefix_of in refl, unfold is_prefix in refl)
    go (some p) h = elim (Bool-cases (is_prefix p message)) [
      | inl named ↦ rw named (p, h, named)
      | inr bare ↦ rw bare (p, h, is_prefix-append p (suffix message))
    ]

describe_adjusted-IsNamed :
    (method message default_message : Bytes) (code : ℕ)
    → IsNamed (describe_adjusted method message default_message code)
unfolding describe_adjusted
describe_adjusted-IsNamed method message default_message code = elim (Bool-cases (code == 400)) [
  | inl bad ↦ rw bad (
      describe-IsNamed (rewrite method (or_default default_message message)).0
        (rewrite method (or_default default_message message)).1)
  | inr other ↦ rw other (describe-IsNamed code message)
]

-- Except for a 429, every error fails the query with one of the codes 400, 401, 403 and 500, and a
-- text that starts with the name of that code.
pub fail_query_with_error-IsNamed :
    (to_integer_safe : Bytes → Option ℤ) (method : Bytes) (error_code : ℤ)
    (message default_message : Bytes)
    → error_code ≢ pos 429
    → IsNamed (fail_query_with_error to_integer_safe method error_code message default_message)
unfolding fail_query_with_error
fail_query_with_error-IsNamed to_integer_safe method error_code message default_message h =
    rw (beq_ne error_code (pos 429) h)
      (describe_adjusted-IsNamed method message default_message (adjust_code error_code message))

positive_retries : (n : ℕ) (message : Bytes) → 0 < n → too_many n message ≡ retry n
positive_retries zero message h = elim h [ ]
positive_retries (suc n) message h = refl

-- A 429 whose message ends in a positive number of seconds, printed as `to_integer_safe` reads it,
-- asks the query to wait as long.
pub retry_after_read :
    (to_integer_safe : Bytes → Option ℤ) (decimal : ℕ → Bytes) (method : Bytes) (n : ℕ)
    (default_message : Bytes)
    → to_integer_safe (decimal n) ≡ some (pos n)
    → 0 < n
    → fail_query_with_error to_integer_safe method
        (pos 429)
        (retry_prefix ++ decimal n)
        default_message
      ≡ retry n
unfolding fail_query_with_error get_retry_after_time
retry_after_read to_integer_safe decimal method n default_message h p =
    ap (λ k. too_many k (retry_prefix ++ decimal n))
      (ap (seconds_of to_integer_safe) (prefix_rest-append retry_prefix (decimal n))
        ∙ ap positive h)
    ∙ positive_retries n (retry_prefix ++ decimal n) p
