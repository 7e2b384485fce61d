-- ===== src/WebhookInfo.antt =====
-- The webhook of a bot in the webhook database: `Client::save_webhook` in
-- telegram-bot-api/Client.cpp writes it, `ClientManager::get_webhook_restore_query` in
-- telegram-bot-api/ClientManager.cpp turns it into a setWebhook request at the next start, and
-- `Client::do_set_webhook` and `Client::finish_set_webhook` read that request.
pub mod RoundTrip
use core_telegram_api.UpdateTypes.{JsonValue, get_allowed_update_types}
use core_telegram_api.Common.{
  ℕ, zero, suc, ◌+◌, ◌-◌, ◌*◌, ◌/◌, ◌%◌, ◌^◌, ◌≤◌, ◌<◌, min, max, ◌≡◌, refl, sym, ap, ◌∙◌, subst,
  ◌≢◌, ◌↔◌, ◌⊎◌, inl, inr, Bool, true, false, not, ◌&&◌, ◌||◌, Option, none, some, List, [], ◌∷◌,
  ◌++◌, map, arith, ltb, leb, if◌then◌else◌, ltb→lt, lt→ltb, leb→le, Bool-cases, Option-cases,
  length, take, All, length-append, length-take, Eq, ◌==◌, nat_eq, bytes_eq, int_eq, beq_refl,
  beq_ne, ℤ, pos, negsuc, leℤ, Map, Unique, find, insert, erase, find-insert, find-erase,
  length-insert, length-insert_present, length-erase, Unique-insert, Unique-erase, count, hit,
  count-insert, count-erase, count_pos_of_find, Bytes, codes, is_prefix, prefix_rest, split_at_byte,
  append_nil, is_prefix-append, prefix_rest-append, split_at_byte-append, Lacks, lacks,
}

-- What the code uses of the text functions of tdlib: `td::StringBuilder` prints an integer, and
-- `td::to_integer` and `td::ConstParser` read. A parser's state is the text that is left.
pub record TextLibrary : Type 0 where
  pub decimal : ℕ → Bytes
  pub to_integer : Bytes → ℕ
  pub try_skip : Bytes → Bytes → Option Bytes
  pub read_till : ℕ → Bytes → Bytes × Bytes
  pub skip : ℕ → Bytes → Bytes

-- What it relies on.
pub record IsTextLibrary (t : TextLibrary) : Type 0 where
  pub to_integer-decimal : (n : ℕ) → t.to_integer (t.decimal n) ≡ n
  pub decimal_digits : (n : ℕ) → Lacks b'/' (t.decimal n)
  pub decimal_nonempty : (n : ℕ) → t.decimal n ≢ []
  pub try_skip_present : (p s : Bytes) → t.try_skip p (p ++ s) ≡ some s
  pub try_skip_absent : (p s : Bytes) → is_prefix p s ≡ false → t.try_skip p s ≡ none
  pub read_till_present :
      (c : ℕ) (s r : Bytes) → Lacks c s → t.read_till c (s ++ (c ∷ r)) ≡ (s, c ∷ r)
  pub skip_present : (c : ℕ) (r : Bytes) → t.skip c (c ∷ r) ≡ r

-- The webhook settings of a `Client`. An empty text stands for what is not set.
pub record Settings : Type 0 where
  pub has_certificate : Bool
  pub max_connections : ℕ
  pub ip_address : Bytes
  pub fix_ip_address : Bool
  pub secret_token : Bytes
  pub allowed_update_types : ℕ
  pub url : Bytes

abbrev pub is_empty : Bytes → Bool
is_empty [] = true
is_empty (c ∷ s) = false

abbrev pub Args : Type 0
Args = List (Bytes × Bytes)

-- `Query::has_arg` and `Query::arg`: the first argument with the key, or the empty text.
unfoldable pub has_arg : Bytes → Args → Bool
has_arg key [] = false
has_arg key ((k, v) ∷ args) = k == key || has_arg key args

unfoldable pub arg : Bytes → Args → Bytes
arg key [] = []
arg key ((k, v) ∷ args) = if k == key then v else arg key args

module _ (t : TextLibrary) where
  -- An option of the saved text: its mark, its value and a slash.
  abbrev pub option : Bytes → Bytes → Bytes → Bytes
  option mark value rest = mark ++ (value ++ (b'/' ∷ rest))

  -- `save_webhook`, piece by piece from the end. `defaults` is `DEFAULT_ALLOWED_UPDATE_TYPES`.
  abbrev pub save_allowed : ℕ → Settings → Bytes
  save_allowed defaults w =
      if not (w.allowed_update_types == defaults)
      then option (codes "#allow") (t.decimal w.allowed_update_types) w.url
      else w.url

  abbrev pub save_secret : ℕ → Settings → Bytes
  save_secret defaults w =
      if not (is_empty w.secret_token)
      then option (codes "#secret") w.secret_token (save_allowed defaults w)
      else save_allowed defaults w

  abbrev pub save_fix_ip : ℕ → Settings → Bytes
  save_fix_ip defaults w =
      if w.fix_ip_address
      then codes "#fix_ip/" ++ save_secret defaults w
      else save_secret defaults w

  abbrev pub save_ip : ℕ → Settings → Bytes
  save_ip defaults w =
      if not (is_empty w.ip_address)
      then option (codes "#ip") w.ip_address (save_fix_ip defaults w)
      else save_fix_ip defaults w

  unfoldable pub save_webhook : ℕ → Settings → Bytes
  save_webhook defaults w =
      let rest = option (codes "#maxc") (t.decimal w.max_connections) (save_ip defaults w) in
      if w.has_certificate then codes "cert/" ++ rest else rest

  -- One `if (parser.try_skip(mark))` of `get_webhook_restore_query` that reads a value.
  unfoldable pub read_option : Bytes → Bytes → Bytes → Args × Bytes
  read_option mark key s = elim (t.try_skip mark s) [
    | none ↦ ([], s)
    | some r ↦ ((key, (t.read_till b'/' r).0) ∷ [], t.skip b'/' (t.read_till b'/' r).1)
  ]

  unfoldable pub read_certificate : Bytes → Args × Bytes
  read_certificate s = elim (t.try_skip (codes "cert/") s) [
    | none ↦ ([], s)
    | some r ↦ ((codes "certificate", codes "previous") ∷ [], r)
  ]

  unfoldable pub read_fix_ip : Bytes → Args × Bytes
  read_fix_ip s = elim (t.try_skip (codes "#fix_ip") s) [
    | none ↦ ([], s)
    | some r ↦ ((codes "fix_ip_address", codes "1") ∷ [], t.skip b'/' r)
  ]

  -- The arguments of the query of `get_webhook_restore_query`.
  unfoldable pub restore_args : Bytes → Args
  restore_args webhook_info =
      let c = read_certificate webhook_info in
      let m = read_option (codes "#maxc") (codes "max_connections") c.1 in
      let i = read_option (codes "#ip") (codes "ip_address") m.1 in
      let f = read_fix_ip i.1 in
      let s = read_option (codes "#secret") (codes "secret_token") f.1 in
      let a = read_option (codes "#allow") (codes "allowed_updates") s.1 in
      c.0 ++ (m.0 ++ (i.0 ++ (f.0 ++ (s.0 ++ (a.0 ++ ((codes "url", a.1) ∷ []))))))

  -- `get_integer_arg`, with `td::clamp`.
  unfoldable pub get_integer_arg : Args → Bytes → ℕ → ℕ → ℕ → ℕ
  get_integer_arg args key default_value min_value max_value =
      let s = arg key args in
      let value = if is_empty s then default_value else t.to_integer s in
      if ltb value min_value then min_value else if ltb max_value value then max_value else value

  -- `get_webhook_max_connections`.
  unfoldable pub get_webhook_max_connections : Bool → ℕ → Args → ℕ
  get_webhook_max_connections local_mode default_value args =
      get_integer_arg args (codes "max_connections") default_value 1
        (if local_mode then 100000 else 100)

  -- The settings that `do_set_webhook` and `finish_set_webhook` take from an internal query.
  unfoldable pub settings_of :
      Bool → ℕ → (Bytes → Option JsonValue) → (Bytes → Option ℕ) → ℕ → Args → Settings
  unfolding get_allowed_update_types
  settings_of local_mode default_value json_decode to_integer_safe current args =
      let allowed =
        get_allowed_update_types json_decode to_integer_safe (arg (codes "allowed_updates") args)
          true in
      record {
        has_certificate = arg (codes "certificate") args == codes "previous";
        max_connections = get_webhook_max_connections local_mode default_value args;
        ip_address = arg (codes "ip_address") args;
        fix_ip_address = has_arg (codes "fix_ip_address") args;
        secret_token = arg (codes "secret_token") args;
        allowed_update_types = if allowed == 0 then current else allowed;
        url = arg (codes "url") args;
      }
