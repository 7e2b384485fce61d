-- ===== src/Tests/Bots.antt =====
-- A manager of one bot, and a query with statistics.
use core_telegram_api.Common.{
  ℕ, ◌+◌, ◌<◌, ◌≡◌, refl, true, false, Option, none, some, [], ◌∷◌, arith, if◌then◌else◌, ◌==◌,
  nat_eq, bytes_eq, int_eq, ℤ, pos, find, insert, erase, tally, List, Bool, Bytes, codes,
  split_at_byte,
}
use core_telegram_api.Manager.{
  FloodLibrary, ClientInfo, Answer, parse_token, user, Parsed, is_malformed, get_tqueue_id, Manager,
  send, start_client, check_address, check_global, create_client, close, hangup_shared, raw_event,
  client_key, client_flood_control,
}
use core_telegram_api.Manager as M
use core_telegram_api.Manager.Lives as L
use core_telegram_api.Manager.Lives.{
  Life, newborn, Event, ask, changes, ends, shut, ready, World, started, step, report,
}
use core_telegram_api.Manager.Census.{Exact, Goes}
use core_telegram_api.Manager.Census.Ends.{hangup_shared-HungUp}
use core_telegram_api.Manager.Census.History.{run, Lawful, stops, continues, run-Exact}
use core_telegram_api.Manager.Registry.{
  Inv, Served, HungUp, send-Served, get_tqueue_id_injective, parse_token_user,
}

-- A flood control that remembers its last event, and allows one in a second.
abbrev flood : FloodLibrary
flood = record {
  FloodControl = ℕ;
  empty = 0;
  add_limit = λ duration n f. f;
  add_event = λ now f. now + 1000000000;
  get_wakeup_at = λ f. f;
}

abbrev manager : Manager flood
manager = record {
  clients = (4, record { token = codes "12:ab"; tqueue_id = 12 }) ∷ [];
  token_to_id = (codes "12:ab", 4) ∷ [];
  flood_controls = [];
  global_flood_control = 0;
  is_global_flood_control_enabled = true;
  active_client_count = (12, 1) ∷ [];
  close_flag = false;
  close_promises = [];
  effects = [];
}

manager-Inv : Inv flood manager
unfolding find
manager-Inv = record {
  indexed = λ t id h. ground (arith, h, bytes_eq.beq_iff (codes "12:ab") t, nat_eq.beq_iff 4 id);
  listed = λ t id h. ground (arith, h, bytes_eq.beq_iff (codes "12:ab") t, nat_eq.beq_iff 4 id);
  queued = λ id i h. ground (arith, h, nat_eq.beq_iff 4 id);
  active = λ q n h. ground (arith, h, nat_eq.beq_iff 12 q);
}

-- Another bot's query.
abbrev query : M.Query
query = record {
  token = codes "34:cd";
  is_test_dc = false;
  method = codes "getme";
  ip_address = codes "1.2.3.4";
}

-- The numbers that occur.
abbrev to_integer_safe : Bytes → Option ℤ
to_integer_safe s = if s == codes "34" then some (pos 34) else none

send-Served_example :
    Served flood
      (client_key query)
      (send flood to_integer_safe (λ n. true) 100 5 (some (codes "#maxc40/a.b")) query manager)
unfolding find
send-Served_example =
    send-Served flood to_integer_safe (λ n. true) 100 5 (some (codes "#maxc40/a.b")) query manager
      manager-Inv refl

parse_token_user_example :
    (is_malformed (codes "34:cd") ≡ false)
    × (to_integer_safe (split_at_byte b':' (codes "34:cd")).0 ≡ some (pos 34))
    × (true ≡ true)
    × (0 < 34)
    × (34 < M.max_user_id)
unfolding parse_token is_malformed split_at_byte
parse_token_user_example = parse_token_user to_integer_safe (λ n. true) (codes "34:cd") 34 refl

abbrev bot : ℕ
bot = 12

get_tqueue_id_injective_example : (bot ≡ bot) × (true ≡ true)
get_tqueue_id_injective_example =
    get_tqueue_id_injective bot bot true true (omega arith) (omega arith) refl

abbrev takes : ℤ → Bool
takes n = true

-- A manager that has no clients.
abbrev empty_manager : Manager flood
empty_manager = record {
  clients = [];
  token_to_id = [];
  flood_controls = [];
  global_flood_control = 0;
  is_global_flood_control_enabled = true;
  active_client_count = [];
  close_flag = false;
  close_promises = [];
  effects = [];
}

-- A bot logs in, the manager is to close, and the client closes.
abbrev until_closing : List Event
until_closing = ask 100 5 none query ∷ changes 5 ready ∷ shut 7 ∷ changes 5 L.closing ∷ []

abbrev whole : List Event
whole = ask 100 5 none query ∷ changes 5 ready ∷ shut 7 ∷ changes 5 L.closing ∷ ends 5 ∷ []

abbrev or_started : Option (World flood) → World flood
or_started none = started flood empty_manager
or_started (some x) = x

abbrev world : List Event → World flood
world es = or_started (run flood to_integer_safe takes es (started flood empty_manager))

abbrev life : Life
life = record { tqueue_id = 34; was_authorized = true; logging_out = false; closing = false }

whole-Lawful : Lawful flood to_integer_safe takes (started flood empty_manager) whole
unfolding run step report send start_client check_address check_global create_client parse_token
    is_malformed split_at_byte get_tqueue_id find insert erase raw_event close hangup_shared
whole-Lawful =
    continues flood to_integer_safe takes {y = world (ask 100 5 none query ∷ [])} refl refl (
      continues flood to_integer_safe takes
        {y = world (ask 100 5 none query ∷ changes 5 ready ∷ [])}
        (newborn (record { token = codes "34:cd"; tqueue_id = 34 }), refl, refl) refl
        (continues flood to_integer_safe takes
          {y = world (ask 100 5 none query ∷ changes 5 ready ∷ shut 7 ∷ [])} tt refl
          (continues flood to_integer_safe takes {y = world until_closing} (life, refl) refl
            (continues flood to_integer_safe takes {y = world whole}
              (record life { closing = true }, refl, refl) refl stops))))

run-Exact_example : Goes flood (run flood to_integer_safe takes whole (started flood empty_manager))
run-Exact_example =
    run-Exact flood to_integer_safe takes empty_manager whole refl refl refl whole-Lawful

-- The state before the last client ends.
last-Exact : Exact flood (world until_closing)
unfolding run step report send start_client check_address check_global create_client parse_token
    is_malformed split_at_byte get_tqueue_id find insert erase raw_event close hangup_shared tally
last-Exact = record {
  inv = record {
    indexed = λ t id h. ground (arith, h, bytes_eq.beq_iff (codes "34:cd") t, nat_eq.beq_iff 5 id);
    listed = λ t id h. ground (arith, h, bytes_eq.beq_iff (codes "34:cd") t, nat_eq.beq_iff 5 id);
    queued = λ id i h. ground (arith, h, nat_eq.beq_iff 5 id);
    active = λ q n h. ground (arith, h);
  };
  unique = (refl, tt);
  known = λ id. ground (arith, nat_eq.beq_iff 5 id);
  counted = λ q. refl;
}

hangup_shared-HungUp_example :
    HungUp flood 5
      (world until_closing).manager
      (hangup_shared flood 5 (world until_closing).manager)
unfolding run step report send start_client check_address check_global create_client parse_token
    is_malformed split_at_byte get_tqueue_id find insert erase raw_event close hangup_shared
hangup_shared-HungUp_example =
    hangup_shared-HungUp flood 5 (record life { closing = true }) (world until_closing) last-Exact
      refl refl
