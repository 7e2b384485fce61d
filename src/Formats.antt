-- ===== src/Formats.antt =====
-- A small format of telegram-bot-api/Client.cpp: how a date and time is shown
-- (`get_date_time_format` and `get_date_time_formatting_type`).
pub mod RoundTrip
use core_telegram_api.Common.{
  ℕ, zero, suc, ◌+◌, ◌-◌, ◌*◌, ◌/◌, ◌%◌, ◌^◌, ◌≤◌, ◌<◌, min, max, ◌≡◌, refl, sym, ap, ◌∙◌, subst,
  ◌≢◌, ◌↔◌, ◌⊎◌, inl, inr, Bool, true, false, not, ◌&&◌, ◌||◌, Option, none, some, List, [], ◌∷◌,
  ◌++◌, map, arith, ltb, leb, if◌then◌else◌, ltb→lt, lt→ltb, leb→le, Bool-cases, Option-cases,
  length, take, All, length-append, length-take, Eq, ◌==◌, nat_eq, bytes_eq, int_eq, beq_refl,
  beq_ne, ℤ, pos, negsuc, leℤ, Map, Unique, find, insert, erase, find-insert, find-erase,
  length-insert, length-insert_present, length-erase, Unique-insert, Unique-erase, count, hit,
  count-insert, count-erase, count_pos_of_find, tally, weight_at, tally-insert, tally-erase,
  tally_pos, Bytes, codes, is_prefix, prefix_rest, split_at_byte, append_nil, is_prefix-append,
  prefix_rest-append, split_at_byte-append, Lacks, lacks,
}

-- `td_api::DateTimePartPrecision`.
pub data Precision : Type 0 where
  no_precision short_precision long_precision : Precision

-- `td_api::DateTimeFormattingType`: whether the day of the week is shown, and the precisions of the
-- date and of the time. A precision that is a null pointer is `none`.
pub data Formatting : Type 0 where
  relative : Formatting
  absolute : Bool → Option Precision → Option Precision → Formatting

-- The letter of a precision; a null pointer cannot be read.
abbrev pub letter : ℕ → ℕ → Option Precision → Option Bytes
letter short long none = none
letter short long (some no_precision) = some []
letter short long (some short_precision) = some (short ∷ [])
letter short long (some long_precision) = some (long ∷ [])

abbrev pub append_each : Bytes → Option Bytes → Option Bytes → Option Bytes
append_each s none t = none
append_each s (some d) none = none
append_each s (some d) (some t) = some (s ++ (d ++ t))

-- `get_date_time_format`: no formatting is the empty text.
unfoldable pub get_date_time_format : Option Formatting → Option Bytes
get_date_time_format none = some []
get_date_time_format (some relative) = some (codes "r")
get_date_time_format (some (absolute show_day_of_week date_precision time_precision)) =
    append_each (if show_day_of_week then codes "w" else []) (letter b'd' b'D' date_precision)
      (letter b't' b'T' time_precision)

-- One letter of a format.
unfoldable pub read_letter : ℕ → Formatting → Option Formatting
read_letter c relative = none
read_letter c (absolute w d t) =
    if c == b't'
    then some (absolute w d (some short_precision))
    else if c == b'T'
    then some (absolute w d (some long_precision))
    else if c == b'd'
    then some (absolute w (some short_precision) t)
    else if c == b'D'
    then some (absolute w (some long_precision) t)
    else if c == b'w' || c == b'W'
    then some (absolute true d t)
    else none

unfoldable pub read_letters : Bytes → Formatting → Option Formatting
unfolding read_letter
read_letters [] f = some f
read_letters (c ∷ s) f = elim (read_letter c f) [ none ↦ none | some g ↦ read_letters s g ]

abbrev pub then_some : Option Formatting → Option (Option Formatting)
then_some none = none
then_some (some f) = some (some f)

-- `get_date_time_formatting_type`: a precision that no letter sets stays a null pointer, and another
-- letter is an error, `none`.
unfoldable pub get_date_time_formatting_type : Bytes → Option (Option Formatting)
unfolding read_letters
get_date_time_formatting_type [] = some none
get_date_time_formatting_type (c ∷ s) =
    if (c ∷ s) == codes "r" || (c ∷ s) == codes "R"
    then some (some relative)
    else then_some (read_letters (c ∷ s) (absolute false none none))
