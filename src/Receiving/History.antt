-- ===== src/Receiving/History.antt =====
-- Whole runs of a client: what the bot asks for, what the webhook and the client library report, and
-- the waiting request's timer, in any order.
use core_telegram_api.Common.{
  ℕ, ◌+◌, ◌≡◌, refl, ◌∙◌, subst, Bool, true, false, ◌||◌, Option, none, some, List, [], ◌∷◌, arith,
  if◌then◌else◌, ◌==◌, nat_eq, bytes_eq, int_eq, pos, negsuc, Bytes, codes,
}
use core_telegram_api.WebhookInfo.{is_empty, save_webhook}
use core_telegram_api.UpdateTypes.{default_allowed_update_types}
use core_telegram_api.Receiving.{
  Asked, Tdlib, IsTdlib, cancel, Receiving, is_closing, fail_query_closing,
}
use core_telegram_api.Receiving.Webhook.{
  process_set_webhook_query, webhook_verified, on_webhook_closed, webhook_closed,
  on_webhook_certificate_copied,
}
use core_telegram_api.Receiving.Updates.{process_get_updates_query, long_poll_wakeup}
use core_telegram_api.Receiving.Closing.{on_closed, finish_closing}
use core_telegram_api.Receiving.Invariant.{
  one, answered, ledger, Inv, Kept, fail_query_closing-Kept, Kept_if,
}
use core_telegram_api.Receiving.Setting.{absent}
use core_telegram_api.Receiving.Replacing.{process_set_webhook_query-Kept}
use core_telegram_api.Receiving.Reporting.{
  webhook_verified-Kept, on_webhook_closed-Kept, webhook_closed-Kept,
  on_webhook_certificate_copied-Kept,
}
use core_telegram_api.Receiving.Polling.{process_get_updates_query-Kept, long_poll_wakeup-Kept}
use core_telegram_api.Receiving.Ending.{closed_then_copied, finish_closing-Kept}

pub data Event : Type 0 where
  command : Asked → Event
  verified : ℕ → Bytes → Event
  hook_closed : Bytes → Event
  unlinked : Bytes → Event
  copied : Bool → Event
  wakeup : Bool → Event
  logs_out : Event
  closes : Event
  finished : Event

module _ {Q U : Type 0} (lib : Tdlib Q U) where
  -- The part of `on_cmd` for these queries.
  unfoldable pub on_cmd : ℕ → ℕ → Asked → Receiving Q U → Option (Receiving Q U)
  unfolding fail_query_closing process_set_webhook_query process_get_updates_query
  on_cmd now date q s =
      if is_closing s
      then fail_query_closing now q s
      else if q.request.method == codes "getupdates"
      then process_get_updates_query lib now date q s
      else process_set_webhook_query lib now q s

  -- An event at a time, on a date.
  unfoldable pub step : ℕ → ℕ → Event → Receiving Q U → Option (Receiving Q U)
  unfolding on_cmd webhook_verified webhook_closed on_webhook_closed on_webhook_certificate_copied
      long_poll_wakeup finish_closing
  step now date (command q) s = on_cmd now date q s
  step now date (verified token ip_address) s = some (webhook_verified lib token ip_address s)
  step now date (hook_closed message) s = webhook_closed lib now message s
  step now date (unlinked message) s = on_webhook_closed lib now message s
  step now date (copied is_error) s = on_webhook_certificate_copied lib now is_error s
  step now date (wakeup force_flag) s = long_poll_wakeup lib now date force_flag s
  step now date logs_out s = some (record s { logging_out = true })
  step now date closes s = some (record s { closing = true })
  step now date finished s = finish_closing lib s

  -- A certificate is copied for the query that waits for it, and a client finishes once it is closed.
  abbrev pub May : Event → Receiving Q U → Type 0
  May (command q) s = Unit
  May (verified token ip_address) s = Unit
  May (hook_closed message) s = Unit
  May (unlinked message) s = Unit
  May (copied is_error) s = (q : Asked) × (s.active_webhook_set_query ≡ some q)
  May (wakeup force_flag) s = Unit
  May logs_out s = Unit
  May closes s = Unit
  May finished s = s.has_td_client ≡ false

  abbrev pub asks : Event → ℕ → ℕ
  asks (command q) x = one q x
  asks (verified token ip_address) x = 0
  asks (hook_closed message) x = 0
  asks (unlinked message) x = 0
  asks (copied is_error) x = 0
  asks (wakeup force_flag) x = 0
  asks logs_out x = 0
  asks closes x = 0
  asks finished x = 0

  -- How often a query was asked.
  abbrev pub asked : ℕ → List (ℕ × ℕ × Event) → ℕ
  asked x [] = 0
  asked x ((now, date, e) ∷ es) = asks e x + asked x es

  unfoldable pub run : List (ℕ × ℕ × Event) → Receiving Q U → Option (Receiving Q U)
  unfolding step
  run [] s = some s
  run ((now, date, e) ∷ es) s = elim (step now date e s) [ none ↦ none | some t ↦ run es t ]

  -- A run in which only happens what may.
  pub data Lawful : Receiving Q U → List (ℕ × ℕ × Event) → Type 0 where
    ends : {s : Receiving Q U} → Lawful s []
    goes :
        {s : Receiving Q U} {now date : ℕ} {e : Event} {es : List (ℕ × ℕ × Event)}
        → May e s
        → ((t : Receiving Q U) → step now date e s ≡ some t → Lawful t es)
        → Lawful s ((now, date, e) ∷ es)

  -- An event that may happen, and the run after it.
  pub continues :
      {s : Receiving Q U} {now date : ℕ} {e : Event} {es : List (ℕ × ℕ × Event)} {t : Receiving Q U}
      → May e s
      → step now date e s ≡ some t
      → Lawful t es
      → Lawful s ((now, date, e) ∷ es)
  continues {es = es} m p l = goes m (λ u q. subst (λ x. Lawful x es) (ground (arith, p, q)) l)

  -- A client that was just started: its database may still have an old webhook.
  abbrev pub opened : Q → ℕ → Option Bytes → Receiving Q U
  opened queue mask stored = record {
    settings = record {
      has_certificate = false;
      max_connections = 0;
      ip_address = [];
      fix_ip_address = false;
      secret_token = [];
      allowed_update_types = mask;
      url = [];
    };
    has_webhook = false;
    webhook_query_type = cancel;
    webhook_set_query = none;
    active_webhook_set_query = none;
    webhook_generation = 1;
    next_allowed_set_webhook_time = 0;
    stored = stored;
    long_poll_query = none;
    long_poll_offset = pos 0;
    long_poll_limit = 0;
    long_poll_was_wakeup = false;
    long_poll_hard_timeout = 0;
    long_poll_slot = 0;
    previous_get_updates_offset = negsuc 0;
    previous_get_updates_start_time = 0;
    next_get_updates_conflict_time = 0;
    updates = queue;
    logging_out = false;
    closing = false;
    is_api_id_invalid = false;
    clear_tqueue = false;
    next_authorization_time = 0;
    has_td_client = true;
    answers = [];
  }

  pub opened-Inv :
      (queue : Q) (mask : ℕ) (stored : Option Bytes) → Inv lib (opened queue mask stored)
  opened-Inv queue mask stored = record {
    set_has_url = λ q e. ground (arith, e);
    active_no_url = λ q e. absurd (ground (arith, e));
    poll_alone = λ q e. absurd (ground (arith, e));
    certified = λ u c. ground (arith, c);
    hooked = λ u. refl;
    gone = λ g. absurd (ground (arith, g));
    saved = λ c u e. absurd (ground (arith, u));
  }

  closing-Inv :
      (s : Receiving Q U) (a b : Bool)
      → (is_closing s ≡ true → a || b ≡ true)
      → Inv lib s
      → Inv lib (record s { logging_out = a; closing = b })
  closing-Inv s a b h v = record {
    set_has_url = v.set_has_url;
    active_no_url = v.active_no_url;
    poll_alone = v.poll_alone;
    certified = λ u c. h (v.certified u c);
    hooked = v.hooked;
    gone = λ g. ((v.gone g).0, h (v.gone g).1);
    saved = v.saved;
  }

  module _ (is : IsTdlib lib) where
    on_cmd-Kept :
        (now date : ℕ) (q : Asked) (s : Receiving Q U)
        → Inv lib s
        → Kept lib s (one q) (on_cmd now date q s)
    unfolding on_cmd
    on_cmd-Kept now date q s v =
        Kept_if lib (is_closing s) (fail_query_closing-Kept lib now q s v) (λ h.
          Kept_if lib (q.request.method == codes "getupdates")
            (λ g. process_get_updates_query-Kept lib is now date q s v)
            (λ g. process_set_webhook_query-Kept lib now q s v))

    step-Kept :
        (now date : ℕ) (e : Event) (s : Receiving Q U)
        → Inv lib s
        → May e s
        → Kept lib s (asks e) (step now date e s)
    unfolding step
    step-Kept now date (command q) s v m = on_cmd-Kept now date q s v
    step-Kept now date (verified token ip_address) s v m =
        webhook_verified-Kept lib s v token ip_address
    step-Kept now date (hook_closed message) s v m = webhook_closed-Kept lib s v now message
    step-Kept now date (unlinked message) s v m = on_webhook_closed-Kept lib s v now message
    step-Kept now date (copied is_error) s v (q, there) =
        on_webhook_certificate_copied-Kept lib s v now is_error q there
    step-Kept now date (wakeup force_flag) s v m =
        long_poll_wakeup-Kept lib is now date force_flag s v
    step-Kept now date logs_out s v m = record {
      after = record s { logging_out = true };
      succeeds = refl;
      inv = closing-Inv s true s.closing (λ h. refl) v;
      conserved = λ x. omega arith;
    }
    step-Kept now date closes s v m = record {
      after = record s { closing = true };
      succeeds = refl;
      inv = closing-Inv s s.logging_out true (λ h. ground arith) v;
      conserved = λ x. omega arith;
    }
    step-Kept now date finished s v m = finish_closing-Kept lib is s v m

    -- A lawful run from a state with the invariant fails no `CHECK` and ends with the invariant, and
    -- each query is held or was answered once more for each time that it was asked.
    pub run-Safe :
        (es : List (ℕ × ℕ × Event)) (s : Receiving Q U)
        → Inv lib s
        → Lawful s es
        → Kept lib s (λ x. asked x es) (run es s)
    unfolding run
    run-Safe [] s v l = record { after = s; succeeds = refl; inv = v; conserved = λ x. omega arith }
    run-Safe ((now, date, e) ∷ es) s v (goes m rest) =
        let k = step-Kept now date e s v m in
        let r = run-Safe es k.after k.inv (rest k.after k.succeeds) in
        record {
          after = r.after;
          succeeds = ground (arith, k.succeeds, r.succeeds);
          inv = r.inv;
          conserved = λ x. omega (arith, r.conserved x, k.conserved x);
        }

    -- What a lawful run of a client that was just started comes to.
    arrives :
        (queue : Q) (mask : ℕ) (stored : Option Bytes) (es : List (ℕ × ℕ × Event))
        (s : Receiving Q U)
        → Lawful (opened queue mask stored) es
        → run es (opened queue mask stored) ≡ some s
        → Inv lib s × ((x : ℕ) → ledger s x ≡ asked x es)
    arrives queue mask stored es s l e =
        let o = opened queue mask stored in
        let k = run-Safe es o (opened-Inv queue mask stored) l in
        let same : k.after ≡ s = ground (arith, e, k.succeeds) in
        (
          subst (Inv lib) same k.inv,
          λ x. subst (λ t. ledger t x ≡ asked x es) same (omega (arith, k.conserved x)),
        )

    -- After a lawful run of a client that was just started, no request for updates waits while a
    -- webhook is set or is being set, at most one query is setting one, and a webhook that is set for
    -- good is in the webhook database with exactly its settings while the client is not closed.
    pub run-Exclusive :
        (queue : Q) (mask : ℕ) (stored : Option Bytes) (es : List (ℕ × ℕ × Event))
        (s : Receiving Q U)
        → Lawful (opened queue mask stored) es
        → run es (opened queue mask stored) ≡ some s
        → ((q : Asked)
            → s.long_poll_query ≡ some q
            → (is_empty s.settings.url ≡ true)
              × (s.webhook_set_query ≡ none)
              × (s.active_webhook_set_query ≡ none))
          × ((q : Asked) → s.active_webhook_set_query ≡ some q → s.webhook_set_query ≡ none)
          × (s.has_td_client ≡ true
              → is_empty s.settings.url ≡ false
              → s.webhook_set_query ≡ none
              → s.stored ≡ some (save_webhook lib.text default_allowed_update_types s.settings))
    run-Exclusive queue mask stored es s l e =
        let v = (arrives queue mask stored es s l e).0 in
        let unset : is_empty s.settings.url ≡ true → s.webhook_set_query ≡ none =
          λ u. absent s.webhook_set_query (λ x g. ground (arith, u, v.set_has_url x g)) in
        (
          λ q h. ((v.poll_alone q h).0, unset (v.poll_alone q h).0, (v.poll_alone q h).1),
          λ q h. unset (v.active_no_url q h).0,
          v.saved,
        )

    -- When a client that is logging out or closing is closed after a lawful run, every query that was
    -- asked in the run has been answered, exactly as often as it was asked; and the callback for a
    -- certificate that is copied only after that fails its `CHECK`.
    pub on_closed-Answered :
        (queue : Q) (mask : ℕ) (stored : Option Bytes) (es : List (ℕ × ℕ × Event))
        (s : Receiving Q U) (now date : ℕ)
        → Lawful (opened queue mask stored) es
        → run es (opened queue mask stored) ≡ some s
        → is_closing s ≡ true
        → s.has_td_client ≡ true
        → (t : Receiving Q U) × (on_closed lib now date s ≡ some t)
          × ((x : ℕ) → answered t x ≡ asked x es)
          × ((later : ℕ) (is_error : Bool)
              → on_webhook_certificate_copied lib later is_error t ≡ none)
    on_closed-Answered queue mask stored es s now date l e closing there =
        let (v, ledger_of) = arrives queue mask stored es s l e in
        let (t, c, a, copy) = closed_then_copied lib is now date s v closing there in
        (t, c, (λ x. a x ∙ ledger_of x), copy)
