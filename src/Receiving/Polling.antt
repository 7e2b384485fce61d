-- ===== src/Receiving/Polling.antt =====
-- Asking for updates keeps the invariant and loses no query.
use core_telegram_api.Common.{
  ℕ, ◌+◌, ◌*◌, ◌≤◌, min, ◌≡◌, refl, sym, subst, Bool, true, false, not, ◌&&◌, ◌||◌, Option, none,
  some, List, [], arith, if◌then◌else◌, length, ◌==◌, nat_eq, bytes_eq, int_eq, ℤ, count,
}
use core_telegram_api.WebhookInfo.{is_empty}
use core_telegram_api.Manager.{second}
use core_telegram_api.Receiving.{
  Asked, Outcome, answered_updates, Tdlib, IsTdlib, Receiving, is_present, reply, abort_long_poll,
}
use core_telegram_api.Receiving.Webhook.{update_allowed_update_types}
use core_telegram_api.Receiving.Updates.{
  answer_size, json_updates, forget, is_positive, or_head, get_at, get_from, find_updates,
  long_poll_max_delay, long_poll_wait_after, hold_or_answer, do_get_updates,
  process_get_updates_query, long_poll_wakeup, offset_of, limit_of, timeout_of, asked_for,
}
use core_telegram_api.Receiving.Invariant.{
  one, held_by, times, with_answers, fail_query_conflict-Replied, abort_long_poll-Replied, Inv,
  Kept, Inv-others, reply-Kept, Kept-from, Kept_if,
}
use core_telegram_api.Receiving.Setting.{absent}
use core_telegram_api.Receiving.Reporting.{nobody, same-Kept}

module _ {Q U : Type 0} (lib : Tdlib Q U) (is : IsTdlib lib) where
  -- Some updates are found, and no more than there are.
  record Found (r : Option (List U × ℕ × Q)) : Type 0 where
    us : List U
    total : ℕ
    left : Q
    found : r ≡ some (us, total, left)
    fits : length us ≤ total

  get_from_total :
      (offset : ℤ) (limit date : ℕ) (queue : Q) → Found (get_from lib offset limit date queue)
  unfolding get_from
  get_from_total offset limit date queue = at_offset (lib.from_int32 offset)
    where
      fallback : Option (List U × ℕ × Q) → Option (List U × ℕ × Q)
      fallback o = elim o [ some r ↦ some r | none ↦ lib.get (lib.get_head queue) limit date queue ]

      at_head :
          (o : Option (List U × ℕ × Q))
          → lib.get (lib.get_head queue) limit date queue ≡ o
          → Found (lib.get (lib.get_head queue) limit date queue)
      at_head none e = absurd (is.get_from_head limit date queue e)
      at_head (some (us, total, left)) e = record {
        us = us;
        total = total;
        left = left;
        found = e;
        fits = is.get_total _ _ _ _ us total left e;
      }

      at :
          (from : ℤ) (o : Option (List U × ℕ × Q))
          → lib.get from limit date queue ≡ o
          → Found (fallback o)
      at from none e = at_head (lib.get (lib.get_head queue) limit date queue) refl
      at from (some (us, total, left)) e = record {
        us = us;
        total = total;
        left = left;
        found = refl;
        fits = is.get_total _ _ _ _ us total left e;
      }

      at_offset : (o : Option ℤ) → Found (fallback (get_at lib o limit date queue))
      at_offset none = at_head (lib.get (lib.get_head queue) limit date queue) refl
      at_offset (some from) = at from (lib.get from limit date queue) refl

  find_updates_total :
      (offset : ℤ) (limit date : ℕ) (queue : Q) → Found (find_updates lib offset limit date queue)
  unfolding find_updates
  find_updates_total offset limit date queue = go (is_positive lib offset)
    where
      go :
          (b : Bool)
          → Found (if b then get_from lib offset limit date queue else some ([], 0, queue))
      go true = get_from_total offset limit date queue
      go false = record { us = []; total = 0; left = queue; found = refl; fits = ground arith }

  -- What `do_get_updates` comes to.
  pub record Gotten (now : ℕ) (offset : ℤ) (limit timeout : ℕ) (q : Asked) (s : Receiving Q U)
      (r : Option (Receiving Q U)) : Type 0 where
    pub from : ℤ
    pub us : List U
    pub left : Q
    pub comes :
        r ≡ some (hold_or_answer lib now from limit timeout us q (record s { updates = left }))

  pub do_get_updates-Gotten :
      (now date : ℕ) (offset : ℤ) (limit timeout : ℕ) (q : Asked) (s : Receiving Q U)
      → Gotten now offset limit timeout q s (do_get_updates lib now date offset limit timeout q s)
  unfolding do_get_updates
  do_get_updates-Gotten now date offset limit timeout q s =
      let queue = forget lib offset s.updates in
      let f = find_updates_total (or_head lib offset queue) limit date queue in
      record {
        from = or_head lib offset queue;
        us = f.us;
        left = f.left;
        comes = ground (arith, f.found, f.fits);
      }

  module _ (now : ℕ) (q : Asked) (s : Receiving Q U) (v : Inv lib s)
      (no_url : is_empty s.settings.url ≡ true) (idle : s.active_webhook_set_query ≡ none) where
    polling : ℤ → ℕ → ℕ → Receiving Q U → Receiving Q U
    polling offset limit time t = record t {
      long_poll_offset = offset;
      long_poll_limit = limit;
      long_poll_query = some q;
      long_poll_was_wakeup = false;
      long_poll_hard_timeout = time;
      long_poll_slot = time;
    }

    hold_or_answer-Kept :
        (offset : ℤ) (limit timeout : ℕ) (us : List U) (left : Q)
        → Kept lib s
            (one q)
            (some (hold_or_answer lib now offset limit timeout us q (record s { updates = left })))
    unfolding hold_or_answer polling
    hold_or_answer-Kept offset limit timeout us left = go (not (timeout == 0) && length us == 0)
      where
        t : Receiving Q U
        t = record s { updates = left }

        time : ℕ
        time = now + timeout * second

        held :
            (rs : List (ℕ × Outcome U)) (conflict : ℕ)
            → ((x : ℕ) → times x rs ≡ times x s.answers + held_by s.long_poll_query x)
            → Kept lib s (one q) (
                some (
                  polling offset limit time
                    (with_answers rs conflict (record t { long_poll_query = none }))))
        held rs conflict count = record {
          after =
              polling offset limit time
                (with_answers rs conflict (record t { long_poll_query = none }));
          succeeds = refl;
          inv = record {
            set_has_url = v.set_has_url;
            active_no_url = v.active_no_url;
            poll_alone = λ x e. (no_url, idle);
            certified = v.certified;
            hooked = v.hooked;
            gone = v.gone;
            saved = v.saved;
          };
          conserved = λ x. omega (arith, count x);
        }

        done : Outcome U
        done = answered_updates (json_updates lib answer_size us)

        go :
            (b : Bool)
            → Kept lib s (one q) (
                some (
                  if b
                  then polling offset limit time (abort_long_poll now false t)
                  else reply q done t))
        go true =
            let r = abort_long_poll-Replied now false t in
            subst (λ u. Kept lib s (one q) (some (polling offset limit time u))) (sym r.same)
              (held r.list r.time r.count)
        go false =
            Kept-from lib s t (one q) (one q) _ (λ x. refl)
              (reply-Kept lib q done t (
                Inv-others lib s s.answers s.next_get_updates_conflict_time s.webhook_generation
                  s.next_allowed_set_webhook_time left v))

    pub do_get_updates-Kept :
        (date : ℕ) (offset : ℤ) (limit timeout : ℕ)
        → Kept lib s (one q) (do_get_updates lib now date offset limit timeout q s)
    do_get_updates-Kept date offset limit timeout =
        let g = do_get_updates-Gotten now date offset limit timeout q s in
        subst (Kept lib s (one q)) (sym g.comes)
          (hold_or_answer-Kept g.from limit timeout g.us g.left)

  -- Other masks and another start are not part of the invariant while there is no webhook.
  asked_updates-Inv :
      (s : Receiving Q U) (mask time : ℕ) (offset : ℤ)
      → Inv lib s
      → is_empty s.settings.url ≡ true
      → Inv lib (record s {
        settings = record s.settings { allowed_update_types = mask };
        previous_get_updates_offset = offset;
        previous_get_updates_start_time = time;
      })
  asked_updates-Inv s mask time offset v no_url = record {
    set_has_url = v.set_has_url;
    active_no_url = v.active_no_url;
    poll_alone = v.poll_alone;
    certified = v.certified;
    hooked = v.hooked;
    gone = v.gone;
    saved = λ c u e. absurd (ground (arith, u, no_url));
  }

  pub process_get_updates_query-Kept :
      (now date : ℕ) (q : Asked) (s : Receiving Q U)
      → Inv lib s
      → Kept lib s (one q) (process_get_updates_query lib now date q s)
  unfolding process_get_updates_query
  process_get_updates_query-Kept now date q s v =
      Kept_if lib
        (not (is_empty s.settings.url)
          || (is_present s.webhook_set_query || is_present s.active_webhook_set_query))
        (λ h.
          let r = fail_query_conflict-Replied now _ q s in
          subst (λ t. Kept lib s (one q) (some t)) (sym r.same)
            (record {
              after = with_answers r.list r.time s;
              succeeds = refl;
              inv =
                  Inv-others lib s r.list r.time s.webhook_generation
                    s.next_allowed_set_webhook_time s.updates v;
              conserved = λ x. omega (arith, r.count x);
            }))
        (λ h.
          let no_url : is_empty s.settings.url ≡ true = ground (arith, h) in
          let idle : s.active_webhook_set_query ≡ none =
            absent s.active_webhook_set_query (λ x e. ground (arith, h, e)) in
          let t = asked_for lib now q.request s in
          let i =
            asked_updates-Inv s
              (update_allowed_update_types lib q.request s.settings.allowed_update_types) now
              (offset_of lib q.request) v no_url in
          Kept-from lib s t (one q) (one q) _ (λ x. refl)
            (do_get_updates-Kept now q t i no_url idle date (offset_of lib q.request)
              (limit_of lib now q.request s) (timeout_of lib now q.request s)))

  -- The request that waits, taken out.
  pub unpolled-Inv : (s : Receiving Q U) → Inv lib s → Inv lib (record s { long_poll_query = none })
  unpolled-Inv s v = record {
    set_has_url = v.set_has_url;
    active_no_url = v.active_no_url;
    poll_alone = λ x e. absurd (ground (arith, e));
    certified = v.certified;
    hooked = v.hooked;
    gone = v.gone;
    saved = v.saved;
  }

  pub long_poll_wakeup-Kept :
      (now date : ℕ) (force_flag : Bool) (s : Receiving Q U)
      → Inv lib s
      → Kept lib s nobody (long_poll_wakeup lib now date force_flag s)
  unfolding long_poll_wakeup
  long_poll_wakeup-Kept now date force_flag s v = go s.long_poll_query refl
    where
      t : Receiving Q U
      t = record s { long_poll_query = none }

      hard : ℕ
      hard =
          if s.long_poll_was_wakeup
          then s.long_poll_hard_timeout
          else min (now + long_poll_max_delay) s.long_poll_hard_timeout

      delayed : Receiving Q U
      delayed = record s {
        long_poll_was_wakeup = true;
        long_poll_hard_timeout = hard;
        long_poll_slot = min (now + long_poll_wait_after) hard;
      }

      go :
          (o : Option Asked)
          → s.long_poll_query ≡ o
          → Kept lib s nobody (elim o [
            | none ↦ some s
            | some q ↦
                if force_flag
                then do_get_updates lib now date s.long_poll_offset s.long_poll_limit 0 q t
                else some delayed
          ])
      go none e = same-Kept lib s v
      go (some q) e =
          Kept_if lib force_flag
            (λ h.
              Kept-from lib s t nobody (one q) _ (λ x. ground (arith, e))
                (do_get_updates-Kept now q t (unpolled-Inv s v) (v.poll_alone q e).0
                  (v.poll_alone q e).1 date s.long_poll_offset s.long_poll_limit 0))
            (λ h. record {
              after = delayed;
              succeeds = refl;
              inv = record {
                set_has_url = v.set_has_url;
                active_no_url = v.active_no_url;
                poll_alone = v.poll_alone;
                certified = v.certified;
                hooked = v.hooked;
                gone = v.gone;
                saved = v.saved;
              };
              conserved = λ x. omega arith;
            })

  -- A request that is woken is answered, and no other is.
  pub record Woken (s t : Receiving Q U) : Type 0 where
    pub long_poll : t.long_poll_query ≡ none
    pub set : t.webhook_set_query ≡ s.webhook_set_query
    pub active : t.active_webhook_set_query ≡ s.active_webhook_set_query
    pub client : t.has_td_client ≡ s.has_td_client

  pub long_poll_wakeup-Woken :
      (now date : ℕ) (s t : Receiving Q U)
      → long_poll_wakeup lib now date true s ≡ some t
      → Woken s t
  unfolding long_poll_wakeup hold_or_answer
  long_poll_wakeup-Woken now date s t h = go s.long_poll_query refl h
    where
      u : Receiving Q U
      u = record s { long_poll_query = none }

      go :
          (o : Option Asked)
          → s.long_poll_query ≡ o
          → elim o [
            | none ↦ some s
            | some q ↦ do_get_updates lib now date s.long_poll_offset s.long_poll_limit 0 q u
          ]
            ≡ some t
          → Woken s t
      go none e g =
          let same : s ≡ t = ground (arith, g) in
          subst (Woken s) same (record { long_poll = e; set = refl; active = refl; client = refl })
      go (some q) e g =
          let k = do_get_updates-Gotten now date s.long_poll_offset s.long_poll_limit 0 q u in
          let after : Receiving Q U =
            reply q (answered_updates (json_updates lib answer_size k.us))
              (record u { updates = k.left }) in
          let same : after ≡ t = ground (arith, k.comes, g) in
          subst (Woken s) same
            (record { long_poll = refl; set = refl; active = refl; client = refl })
