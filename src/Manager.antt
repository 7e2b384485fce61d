-- ===== src/Manager.antt =====
-- `ClientManager` in telegram-bot-api/ClientManager.cpp: which client a query goes to, how clients
-- come and go, and how the manager closes. Identifiers of clients are those of
-- `td::Container::create`; `none` stands for a failed `CHECK`.
pub mod Registry
pub mod Lives
pub mod Census
use core_telegram_api.Common.{
  ℕ, zero, suc, ◌+◌, ◌-◌, ◌*◌, ◌/◌, ◌%◌, ◌^◌, ◌≤◌, ◌<◌, min, max, ◌≡◌, refl, sym, ap, ◌∙◌, subst,
  ◌≢◌, ◌↔◌, ◌⊎◌, inl, inr, Bool, true, false, not, ◌&&◌, ◌||◌, Option, none, some, List, [], ◌∷◌,
  ◌++◌, map, arith, ltb, leb, if◌then◌else◌, ltb→lt, lt→ltb, leb→le, Bool-cases, Option-cases,
  length, take, All, length-append, length-take, Eq, ◌==◌, nat_eq, bytes_eq, int_eq, beq_refl,
  beq_ne, ℤ, pos, negsuc, leℤ, Map, Unique, find, insert, erase, find-insert, find-erase,
  length-insert, length-insert_present, length-erase, Unique-insert, Unique-erase, count, hit,
  count-insert, count-erase, count_pos_of_find, Bytes, codes, is_prefix, prefix_rest, split_at_byte,
  append_nil, is_prefix-append, prefix_rest-append, split_at_byte-append, Lacks, lacks,
}

-- `td::FloodControlFast`: limits, events, and the time from which the next event is allowed.
pub record FloodLibrary : Type 1 where
  pub FloodControl : Type 0
  pub empty : FloodControl
  pub add_limit : ℕ → ℕ → FloodControl → FloodControl
  pub add_event : ℕ → FloodControl → FloodControl
  pub get_wakeup_at : FloodControl → ℕ

-- The parts of a query that `send` reads. `ip_address` is the address of the peer as text, in the
-- normal form of `td::IPAddress` where it is one.
pub record Query : Type 0 where
  pub token : Bytes
  pub is_test_dc : Bool
  pub method : Bytes
  pub ip_address : Bytes

pub record ClientInfo : Type 0 where
  pub token : Bytes
  pub tqueue_id : ℕ

-- What `send` does with a query: the automatic 429, an error with its code, a 429 with the seconds
-- to wait, or the client that it goes to, with the query that restores a saved webhook first.
pub data Answer : Type 0 where
  closing : Answer
  failed : ℕ → Bytes → Answer
  retry_after : ℕ → Answer
  forwarded : ℕ → Option Bytes → Answer

abbrev pub has_byte : ℕ → Bytes → Bool
has_byte c s = not (lacks c s)

abbrev pub starts_with_zero : Bytes → Bool
starts_with_zero [] = false
starts_with_zero (c ∷ s) = c == b'0'

-- The first test of `send`.
unfoldable pub is_malformed : Bytes → Bool
is_malformed token =
    starts_with_zero token
    || (ltb 80 (length token) || (has_byte b'/' token || not (has_byte b':' token)))

abbrev pub max_user_id : ℕ
max_user_id = 2 ^ 54

-- The user identifier, if it is in the range `0 < user_id < 2^54`.
abbrev pub valid_user_id : ℤ → Option ℕ
valid_user_id (pos n) = if n == 0 || leb max_user_id n then none else some n
valid_user_id (negsuc n) = none

-- What `send` makes of the token: the user identifier, or an error.
pub data Parsed : Type 0 where
  user : ℕ → Parsed
  rejected : ℕ → Bytes → Parsed

-- `to_integer_safe` is `td::to_integer_safe<td::int64>`, and `token_range` the filter that the
-- server was started with.
unfoldable pub parse_token : (Bytes → Option ℤ) → (ℤ → Bool) → Bytes → Parsed
parse_token to_integer_safe token_range token =
    if is_malformed token
    then rejected 401 (codes "Unauthorized: invalid token specified")
    else elim (to_integer_safe (split_at_byte b':' token).0) [
      | none ↦ rejected 421 (codes "Misdirected Request: unallowed token specified")
      | some id ↦
          if not (token_range id)
          then rejected 421 (codes "Misdirected Request: unallowed token specified")
          else elim (valid_user_id id) [
            | none ↦ rejected 401 (codes "Unauthorized: invalid token specified")
            | some u ↦ user u
          ]
    ]

-- `get_tqueue_id`.
unfoldable pub get_tqueue_id : ℕ → Bool → ℕ
get_tqueue_id user_id is_test_dc = user_id + (if is_test_dc then 1 else 0) * 2 ^ 54

-- The key of a client: tokens of the test environment are told apart.
abbrev pub client_key : Query → Bytes
client_key q = if q.is_test_dc then q.token ++ codes "/test" else q.token

abbrev pub second : ℕ
second = 1000000000

-- The effects of the manager on others.
pub data Effect : Type 0 where
  close_client : ℕ → Effect
  close_db : Effect
  resolve : ℕ → Effect
  stop : Effect

module _ (F : FloodLibrary) where
  open F use {FloodControl, add_limit, add_event, get_wakeup_at, empty}

  pub record Manager : Type 0 where
    pub clients : Map ℕ ClientInfo
    pub token_to_id : Map Bytes ℕ
    pub flood_controls : Map Bytes FloodControl
    pub global_flood_control : FloodControl
    pub is_global_flood_control_enabled : Bool
    pub active_client_count : Map ℕ ℕ
    pub close_flag : Bool
    pub close_promises : List ℕ
    pub effects : List Effect

  -- A new flood control has two limits: 20 in a minute and 600 in an hour.
  abbrev pub client_flood_control : FloodControl
  client_flood_control = add_limit 3600 600 (add_limit 60 20 empty)

  abbrev pub flood_control_of : Option FloodControl → FloodControl
  flood_control_of none = client_flood_control
  flood_control_of (some f) = f

  abbrev pub wait_seconds : ℕ → FloodControl → ℕ
  wait_seconds now f = (get_wakeup_at f - now) / second + 1

  -- The flood control of the address: the manager after it, and the seconds to wait if the query is
  -- refused.
  unfoldable pub check_address : ℕ → Bytes → Manager → Option ℕ × Manager
  check_address now [] m = (none, m)
  check_address now (c ∷ s) m =
      let f = flood_control_of (find (c ∷ s) m.flood_controls) in
      if ltb now (get_wakeup_at f)
      then (
        some (wait_seconds now f),
        record m { flood_controls = insert (c ∷ s) f m.flood_controls },
      )
      else (none, record m { flood_controls = insert (c ∷ s) (add_event now f) m.flood_controls })

  unfoldable pub check_global : ℕ → Manager → Option ℕ × Manager
  check_global now m =
      if m.is_global_flood_control_enabled
      then if ltb now (get_wakeup_at m.global_flood_control)
        then (some (wait_seconds now m.global_flood_control), m)
        else (none, record m { global_flood_control = add_event now m.global_flood_control })
      else (none, m)

  -- The client is created under `id`, and a saved webhook is restored unless the query itself sets
  -- or deletes the webhook.
  unfoldable pub create_client : ℕ → Option Bytes → ℕ → Query → Manager → Answer × Manager
  create_client id webhook_info user_id q m = (
    forwarded id (
        if not (q.method == codes "deletewebhook") && not (q.method == codes "setwebhook")
        then webhook_info
        else none),
    record m {
      clients =
          insert id
            (record { token = client_key q; tqueue_id = get_tqueue_id user_id q.is_test_dc })
            m.clients;
      token_to_id = insert (client_key q) id m.token_to_id;
    },
  )

  -- The early return after a flood control.
  abbrev pub unless_limited : Option ℕ → Manager → (Manager → Answer × Manager) → Answer × Manager
  unless_limited none m go_on = go_on m
  unless_limited (some s) m go_on = (retry_after s, m)

  -- A query for a bot that has no client.
  unfoldable pub start_client : ℕ → ℕ → Option Bytes → ℕ → Query → Manager → Answer × Manager
  start_client now id webhook_info user_id q m =
      if q.method == codes "close"
      then (failed 400 (codes "Bad Request: the bot has already been closed"), m)
      else unless_limited (check_address now q.ip_address m).0 (check_address now q.ip_address m).1
          λ m₁.
            unless_limited (check_global now m₁).0 (check_global now m₁).1
              λ m₂. create_client id webhook_info user_id q m₂

  -- `send`; `id` is what `clients_.create` would give, and `webhook_info` the entry of the webhook
  -- database for the token.
  unfoldable pub send :
      (Bytes → Option ℤ)
      → (ℤ → Bool)
      → ℕ
      → ℕ
      → Option Bytes
      → Query
      → Manager
      → Option (Answer × Manager)
  send to_integer_safe token_range now id webhook_info q m =
      if m.close_flag
      then some (closing, m)
      else elim (parse_token to_integer_safe token_range q.token) [
        | rejected code text ↦ some (failed code text, m)
        | user u ↦ elim (find (client_key q) m.token_to_id) [
          | none ↦ some (start_client now id webhook_info u q m)
          | some i ↦ elim (find i m.clients) [
            | none ↦ none
            | some info ↦ some (forwarded i none, m)
          ]
        ]
      ]

  abbrev pub emit : Effect → Manager → Manager
  emit e m = record m { effects = m.effects ++ e ∷ [] }

  abbrev pub no_clients : Map ℕ ClientInfo → Bool
  no_clients [] = true
  no_clients (c ∷ cs) = false

  abbrev pub close_all : Map ℕ ClientInfo → List Effect
  close_all [] = []
  close_all ((id, info) ∷ cs) = close_client id ∷ close_all cs

  -- `close`, for a promise.
  unfoldable pub close : ℕ → Manager → Manager
  close promise m =
      let m₁ = record m { close_promises = m.close_promises ++ promise ∷ [] } in
      if m.close_flag
      then m₁
      else let m₂ = record m₁ { close_flag = true; effects = m.effects ++ close_all m.clients } in
        if no_clients m.clients then emit close_db m₂ else m₂

  -- `hangup_shared`, for the client with the identifier `id`.
  unfoldable pub hangup_shared : ℕ → Manager → Option Manager
  hangup_shared id m = elim (find id m.clients) [
    | none ↦ none
    | some info ↦
        let m₁ = record m {
          clients = erase id m.clients;
          token_to_id = erase info.token m.token_to_id;
        } in
        if m.close_flag && no_clients (erase id m.clients)
        then elim m.active_client_count [ [] ↦ some (emit close_db m₁) | x ∷ xs ↦ none ]
        else some m₁
  ]

  abbrev pub or_zero : Option ℕ → ℕ
  or_zero none = 0
  or_zero (some n) = n

  -- `raw_event`: the client has become active, or has stopped to be.
  unfoldable pub raw_event : ℕ → Bool → Manager → Option Manager
  raw_event id is_active m = elim (find id m.clients) [
    | none ↦ none
    | some info ↦
        let n = or_zero (find info.tqueue_id m.active_client_count) in
        if info.tqueue_id == 0
        then none
        else if is_active
        then some
            (record m { active_client_count = insert info.tqueue_id (n + 1) m.active_client_count })
        else if n == 0
        then none
        else if n == 1
        then some (record m { active_client_count = erase info.tqueue_id m.active_client_count })
        else some
            (record m { active_client_count = insert info.tqueue_id (n - 1) m.active_client_count })
  ]

  abbrev pub resolve_all : List ℕ → List Effect
  resolve_all [] = []
  resolve_all (p ∷ ps) = resolve p ∷ resolve_all ps

  -- `finish_close`.
  unfoldable pub finish_close : Manager → Manager
  finish_close m = record m {
    close_promises = [];
    effects = m.effects ++ (resolve_all m.close_promises ++ stop ∷ []);
  }
