-- ===== src/UpdateTypes.antt =====
-- The kinds of updates and the mask of those that a bot allows: `UpdateType`,
-- `get_update_type_name` and `get_allowed_update_types` in telegram-bot-api/Client.h and Client.cpp.
pub mod Masks
use core_telegram_api.Common.{
  ℕ, zero, suc, ◌+◌, ◌-◌, ◌*◌, ◌/◌, ◌%◌, ◌^◌, ◌≤◌, ◌<◌, min, max, ◌≡◌, refl, sym, ap, ◌∙◌, subst,
  ◌≢◌, ◌↔◌, ◌⊎◌, inl, inr, Bool, true, false, not, ◌&&◌, ◌||◌, Option, none, some, List, [], ◌∷◌,
  ◌++◌, map, arith, ltb, leb, if◌then◌else◌, ltb→lt, lt→ltb, leb→le, Bool-cases, Option-cases,
  length, take, All, length-append, length-take, Eq, ◌==◌, nat_eq, bytes_eq, int_eq, beq_refl,
  beq_ne, ℤ, pos, negsuc, leℤ, Map, Unique, find, insert, erase, find-insert, find-erase,
  length-insert, length-insert_present, length-erase, Unique-insert, Unique-erase, count, hit,
  count-insert, count-erase, count_pos_of_find, Bytes, codes, is_prefix, prefix_rest, split_at_byte,
  append_nil, is_prefix-append, prefix_rest-append, split_at_byte-append, Lacks, lacks,
}

-- `Client::UpdateType`, in its order.
pub data UpdateType : Type 0 where
  message edited_message channel_post edited_channel_post inline_query chosen_inline_result :
      UpdateType
  callback_query custom_event custom_query shipping_query pre_checkout_query poll : UpdateType
  poll_answer my_chat_member chat_member chat_join_request chat_boost_updated : UpdateType
  chat_boost_removed message_reaction message_reaction_count business_connection : UpdateType
  business_message edited_business_message business_messages_deleted purchased_paid_media :
      UpdateType
  managed_bot guest_message subscription : UpdateType

-- `get_update_type_name`.
unfoldable pub get_update_type_name : UpdateType → Bytes
get_update_type_name message = codes "message"
get_update_type_name edited_message = codes "edited_message"
get_update_type_name channel_post = codes "channel_post"
get_update_type_name edited_channel_post = codes "edited_channel_post"
get_update_type_name inline_query = codes "inline_query"
get_update_type_name chosen_inline_result = codes "chosen_inline_result"
get_update_type_name callback_query = codes "callback_query"
get_update_type_name custom_event = codes "custom_event"
get_update_type_name custom_query = codes "custom_query"
get_update_type_name shipping_query = codes "shipping_query"
get_update_type_name pre_checkout_query = codes "pre_checkout_query"
get_update_type_name poll = codes "poll"
get_update_type_name poll_answer = codes "poll_answer"
get_update_type_name my_chat_member = codes "my_chat_member"
get_update_type_name chat_member = codes "chat_member"
get_update_type_name chat_join_request = codes "chat_join_request"
get_update_type_name chat_boost_updated = codes "chat_boost"
get_update_type_name chat_boost_removed = codes "removed_chat_boost"
get_update_type_name message_reaction = codes "message_reaction"
get_update_type_name message_reaction_count = codes "message_reaction_count"
get_update_type_name business_connection = codes "business_connection"
get_update_type_name business_message = codes "business_message"
get_update_type_name edited_business_message = codes "edited_business_message"
get_update_type_name business_messages_deleted = codes "deleted_business_messages"
get_update_type_name purchased_paid_media = codes "purchased_paid_media"
get_update_type_name managed_bot = codes "managed_bot"
get_update_type_name guest_message = codes "guest_message"
get_update_type_name subscription = codes "subscription"

-- The types by number, from 0 to `Size`.
abbrev pub all_types : List UpdateType
all_types =
    message ∷ edited_message ∷ channel_post ∷ edited_channel_post ∷ inline_query
    ∷ chosen_inline_result ∷ callback_query ∷ custom_event ∷ custom_query ∷ shipping_query
    ∷ pre_checkout_query ∷ poll ∷ poll_answer ∷ my_chat_member ∷ chat_member ∷ chat_join_request
    ∷ chat_boost_updated ∷ chat_boost_removed ∷ message_reaction ∷ message_reaction_count
    ∷ business_connection ∷ business_message ∷ edited_business_message ∷ business_messages_deleted
    ∷ purchased_paid_media ∷ managed_bot ∷ guest_message ∷ subscription ∷ []

-- A value of JSON as `td::json_decode` gives it: an array, a number as its text, or any other. Of the
-- values of an array, only the strings matter; they are in lower case already, as `to_lower_inplace`
-- leaves them.
pub data JsonItem : Type 0 where
  string_item : Bytes → JsonItem
  other_item : JsonItem

pub data JsonValue : Type 0 where
  array_value : List JsonItem → JsonValue
  number_value : Bytes → JsonValue
  other_value : JsonValue

-- The bits of a mask: a shift by `i` is `i` halvings.
unfoldable pub has_bit : ℕ → ℕ → Bool
has_bit zero r = r % 2 == 1
has_bit (suc i) r = has_bit i (r / 2)

-- `result |= 1 << i`.
unfoldable pub set_bit : ℕ → ℕ → ℕ
set_bit zero r = if r % 2 == 1 then r else r + 1
set_bit (suc i) r = r % 2 + 2 * set_bit i (r / 2)

-- The inner loop, from the number `i` on.
unfoldable pub mark_types : ℕ → List UpdateType → Bytes → ℕ → ℕ
unfolding get_update_type_name set_bit
mark_types i [] name r = r
mark_types i (u ∷ us) name r =
    mark_types (suc i) us name (if get_update_type_name u == name then set_bit i r else r)

-- The outer loop; `none` is the early return for a value that is no string.
unfoldable pub mark_names : List JsonItem → ℕ → Option ℕ
unfolding mark_types
mark_names [] r = some r
mark_names (other_item ∷ items) r = none
mark_names (string_item name ∷ items) r = mark_names items (mark_types 0 all_types name r)

-- `DEFAULT_ALLOWED_UPDATE_TYPES`.
abbrev pub default_allowed_update_types : ℕ
default_allowed_update_types = 2 ^ 28 - 1 - 2 ^ 14 - 2 ^ 18 - 2 ^ 19

abbrev pub no_text : Bytes → Bool
no_text [] = true
no_text (c ∷ s) = false

abbrev pub or_none : Option ℕ → ℕ
or_none none = 0
or_none (some n) = n

abbrev pub or_defaults : Option ℕ → ℕ
or_defaults none = 0
or_defaults (some r) = if r == 0 then default_allowed_update_types else r

-- What the decoded value stands for; `to_integer_safe` is `td::to_integer_safe<td::uint64>`.
unfoldable pub allowed_of : (Bytes → Option ℕ) → Bool → Option JsonValue → ℕ
unfolding mark_names
allowed_of to_integer_safe is_internal none = 0
allowed_of to_integer_safe is_internal (some other_value) = 0
allowed_of to_integer_safe is_internal (some (number_value s)) =
    if is_internal then or_none (to_integer_safe s) else 0
allowed_of to_integer_safe is_internal (some (array_value items)) = or_defaults (mark_names items 0)

-- `get_allowed_update_types`.
unfoldable pub get_allowed_update_types :
    (Bytes → Option JsonValue) → (Bytes → Option ℕ) → Bytes → Bool → ℕ
unfolding allowed_of
get_allowed_update_types json_decode to_integer_safe allowed_updates is_internal =
    if no_text allowed_updates
    then 0
    else allowed_of to_integer_safe is_internal (json_decode allowed_updates)
