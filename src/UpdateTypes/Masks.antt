-- ===== src/UpdateTypes/Masks.antt =====
-- The mask of a list of names holds exactly the types that are named.
use core_telegram_api.Common.{
  ℕ, zero, suc, ◌+◌, ◌*◌, ◌/◌, ◌%◌, ◌<◌, ◌≡◌, refl, sym, ap, ◌∙◌, inl, inr, Bool, true, false, ◌||◌,
  Option, some, List, [], ◌∷◌, arith, if◌then◌else◌, Bool-cases, ◌==◌, nat_eq, bytes_eq, int_eq,
  Bytes,
}
use core_telegram_api.UpdateTypes.{
  UpdateType, message, edited_message, channel_post, edited_channel_post, inline_query,
  chosen_inline_result, callback_query, custom_event, custom_query, shipping_query,
  pre_checkout_query, poll, poll_answer, my_chat_member, chat_member, chat_join_request,
  chat_boost_updated, chat_boost_removed, message_reaction, message_reaction_count,
  business_connection, business_message, edited_business_message, business_messages_deleted,
  purchased_paid_media, managed_bot, guest_message, subscription, get_update_type_name, all_types,
  JsonItem, string_item, JsonValue, array_value, has_bit, set_bit, mark_types, mark_names,
  default_allowed_update_types, no_text, allowed_of, get_allowed_update_types,
}

-- The number of a type, as the enumeration gives it.
unfoldable pub index : UpdateType → ℕ
index message = 0
index edited_message = 1
index channel_post = 2
index edited_channel_post = 3
index inline_query = 4
index chosen_inline_result = 5
index callback_query = 6
index custom_event = 7
index custom_query = 8
index shipping_query = 9
index pre_checkout_query = 10
index poll = 11
index poll_answer = 12
index my_chat_member = 13
index chat_member = 14
index chat_join_request = 15
index chat_boost_updated = 16
index chat_boost_removed = 17
index message_reaction = 18
index message_reaction_count = 19
index business_connection = 20
index business_message = 21
index edited_business_message = 22
index business_messages_deleted = 23
index purchased_paid_media = 24
index managed_bot = 25
index guest_message = 26
index subscription = 27

has_bit-set_bit : (i j r : ℕ) → has_bit j (set_bit i r) ≡ (i == j || has_bit j r)
unfolding has_bit set_bit
has_bit-set_bit zero zero r = ground arith
has_bit-set_bit zero (suc j) r =
    let e : (if r % 2 == 1 then r else r + 1) / 2 ≡ r / 2 = ground arith in
    ap (has_bit j) e ∙ ground arith
has_bit-set_bit (suc i) zero r = ground arith
has_bit-set_bit (suc i) (suc j) r =
    let e : (r % 2 + 2 * set_bit i (r / 2)) / 2 ≡ set_bit i (r / 2) = omega arith in
    ap (has_bit j) e ∙ has_bit-set_bit i j (r / 2) ∙ ground arith

-- Whether the type with number `j`, in a list numbered from `i` on, has the name.
abbrev named : ℕ → ℕ → List UpdateType → Bytes → Bool
named i j [] name = false
named i j (u ∷ us) name = if i == j then get_update_type_name u == name else named (suc i) j us name

named_before : (i j : ℕ) (us : List UpdateType) (name : Bytes) → j < i → named i j us name ≡ false
named_before i j [] name h = refl
named_before i j (u ∷ us) name h = ground (arith, named_before (suc i) j us name)

has_bit-mark_types :
    (i j : ℕ) (us : List UpdateType) (name : Bytes) (r : ℕ)
    → has_bit j (mark_types i us name r) ≡ (has_bit j r || named i j us name)
unfolding mark_types
has_bit-mark_types i j [] name r = ground arith
has_bit-mark_types i j (u ∷ us) name r =
    has_bit-mark_types (suc i) j us name (if get_update_type_name u == name then set_bit i r else r)
    ∙ ground (arith, has_bit-set_bit i j r, named_before (suc i) j us name, nat_eq.beq_iff i j)

named_all :
    (u : UpdateType) (name : Bytes)
    → named 0 (index u) all_types name ≡ (get_update_type_name u == name)
unfolding index
named_all message name = refl
named_all edited_message name = refl
named_all channel_post name = refl
named_all edited_channel_post name = refl
named_all inline_query name = refl
named_all chosen_inline_result name = refl
named_all callback_query name = refl
named_all custom_event name = refl
named_all custom_query name = refl
named_all shipping_query name = refl
named_all pre_checkout_query name = refl
named_all poll name = refl
named_all poll_answer name = refl
named_all my_chat_member name = refl
named_all chat_member name = refl
named_all chat_join_request name = refl
named_all chat_boost_updated name = refl
named_all chat_boost_removed name = refl
named_all message_reaction name = refl
named_all message_reaction_count name = refl
named_all business_connection name = refl
named_all business_message name = refl
named_all edited_business_message name = refl
named_all business_messages_deleted name = refl
named_all purchased_paid_media name = refl
named_all managed_bot name = refl
named_all guest_message name = refl
named_all subscription name = refl

-- Whether the list names the type.
abbrev pub names : UpdateType → List Bytes → Bool
names u [] = false
names u (name ∷ ns) = get_update_type_name u == name || names u ns

abbrev pub strings : List Bytes → List JsonItem
strings [] = []
strings (name ∷ ns) = string_item name ∷ strings ns

or_assoc : (x y z : Bool) → ((x || y) || z) ≡ (x || (y || z))
or_assoc true y z = refl
or_assoc false y z = refl

mark_strings :
    (u : UpdateType) (ns : List Bytes) (r : ℕ)
    → (m : ℕ) × (mark_names (strings ns) r ≡ some m)
      × (has_bit (index u) m ≡ (has_bit (index u) r || names u ns))
unfolding mark_names
mark_strings u [] r = (r, refl, ground arith)
mark_strings u (name ∷ ns) r =
    let (m, e, b) = mark_strings u ns (mark_types 0 all_types name r) in
    (
      m,
      e,
      b
          ∙ ap (λ z. z || names u ns)
              (has_bit-mark_types 0 (index u) all_types name r
                ∙ ap (λ z. has_bit (index u) r || z) (named_all u name))
          ∙ or_assoc (has_bit (index u) r) (get_update_type_name u == name) (names u ns),
    )

has_bit_zero : (j : ℕ) → has_bit j 0 ≡ false
unfolding has_bit
has_bit_zero zero = refl
has_bit_zero (suc j) = has_bit_zero j

-- Names of no type leave the mask as it is.
mark_types_unnamed :
    (i : ℕ) (us : List UpdateType) (name : Bytes) (r : ℕ)
    → ((u : UpdateType) → (get_update_type_name u == name) ≡ false)
    → mark_types i us name r ≡ r
unfolding mark_types
mark_types_unnamed i [] name r h = refl
mark_types_unnamed i (u ∷ us) name r h = rw (h u) (mark_types_unnamed (suc i) us name r h)

mark_names_unnamed :
    (ns : List Bytes) (r : ℕ)
    → ((u : UpdateType) → names u ns ≡ false)
    → mark_names (strings ns) r ≡ some r
unfolding mark_names
mark_names_unnamed [] r h = refl
mark_names_unnamed (name ∷ ns) r h =
    rw (mark_types_unnamed 0 all_types name r (λ u. ground (arith, h u)), mark_names)
      (mark_names_unnamed ns r (λ u. ground (arith, h u)))

-- The names of an array decide the mask: if none of them is the name of a type, it is the default
-- one, and if one is, it has the bit of each type that is named, and of no other type.
pub allowed_update_types_exact :
    (json_decode : Bytes → Option JsonValue) (to_integer_safe : Bytes → Option ℕ)
    (allowed_updates : Bytes) (is_internal : Bool) (ns : List Bytes)
    → no_text allowed_updates ≡ false
    → json_decode allowed_updates ≡ some (array_value (strings ns))
    → (((u : UpdateType) → names u ns ≡ false)
        → get_allowed_update_types json_decode to_integer_safe allowed_updates is_internal
          ≡ default_allowed_update_types)
      × ((v : UpdateType)
          → names v ns ≡ true
          → (u : UpdateType)
          → has_bit
              (index u)
              (get_allowed_update_types json_decode to_integer_safe allowed_updates is_internal)
            ≡ names u ns)
unfolding get_allowed_update_types allowed_of
allowed_update_types_exact json_decode to_integer_safe text is_internal ns h k =
    let (m, e, b) = mark_strings message ns 0 in
    let bits : (u : UpdateType) → has_bit (index u) m ≡ names u ns = λ u.
      let (m', e', b') = mark_strings u ns 0 in
      let same : m' ≡ m = ground (arith, e, e') in
      ap (has_bit (index u)) (sym same) ∙ b' ∙ ground (arith, has_bit_zero (index u)) in
    (
      λ none_named. ground (arith, h, k, mark_names_unnamed ns 0 none_named),
      λ v named_v u. elim (Bool-cases (m == 0)) [
        | inl empty ↦
            let z : m ≡ 0 = ground (arith, empty) in
            let off : has_bit (index v) m ≡ false =
              ap (has_bit (index v)) z ∙ has_bit_zero (index v) in
            absurd (ground (arith, off, bits v, named_v))
        | inr some_set ↦
            let x : get_allowed_update_types json_decode to_integer_safe text is_internal ≡ m =
              ground (arith, h, k, e, some_set) in
            ap (has_bit (index u)) x ∙ bits u
      ],
    )
