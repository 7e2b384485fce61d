-- ===== src/Receiving/Ending.antt =====
-- A client that is closed has answered what it held.
use core_telegram_api.Common.{
  ℕ, ◌+◌, ◌≡◌, refl, Bool, true, false, ◌&&◌, Option, none, some, List, arith, if◌then◌else◌,
  nat_eq, bytes_eq, int_eq,
}
use core_telegram_api.WebhookInfo.{is_empty}
use core_telegram_api.Receiving.{
  Asked, Outcome, Tdlib, IsTdlib, Receiving, is_closing, reply, fail_query_closing,
}
use core_telegram_api.Receiving.Webhook.{clear_updates, on_webhook_certificate_copied}
use core_telegram_api.Receiving.Closing.{
  close_held, drop_webhook, drop_stored, close_long_poll, on_closed, finish_closing,
}
use core_telegram_api.Receiving.Invariant.{
  held_by, times, times-append, answered, ledger, get_closing_error_total, with_answers, Inv, Kept,
  Inv-others, Kept_if,
}
use core_telegram_api.Receiving.Reporting.{nobody, same-Kept}
use core_telegram_api.Receiving.Polling.{long_poll_wakeup-Kept, long_poll_wakeup-Woken}

module _ {Q U : Type 0} (lib : Tdlib Q U) (is : IsTdlib lib) where
  -- A query that is held is answered.
  record Closed (s : Receiving Q U) (o : Option Asked) (r : Option (Receiving Q U)) : Type 0 where
    list : List (ℕ × Outcome U)
    closes : r ≡ some (with_answers list s.next_get_updates_conflict_time s)
    count : (x : ℕ) → times x list ≡ times x s.answers + held_by o x

  close_held-Closed :
      (now : ℕ) (o : Option Asked) (s : Receiving Q U)
      → is_closing s ≡ true
      → Closed s o (close_held lib now o s)
  unfolding close_held fail_query_closing
  close_held-Closed now none s h = record {
    list = s.answers;
    closes = refl;
    count = λ x. omega arith;
  }
  close_held-Closed now (some q) s h =
      let (o, e) = get_closing_error_total now s h in
      record {
        list = (reply q o s).answers;
        closes = ground (arith, e);
        count = λ x. times-append x s.answers q.id o;
      }

  -- Nothing is held in the end.
  pub record Ended (s : Receiving Q U) (r : Option (Receiving Q U)) : Type 0 where
    pub kept : Kept lib s nobody r
    pub idle :
        (kept.after.webhook_set_query ≡ none)
        × (kept.after.active_webhook_set_query ≡ none)
        × (kept.after.long_poll_query ≡ none)
    pub gone : kept.after.has_td_client ≡ false

  copied_in_vain :
      (now : ℕ) (is_error : Bool) (s : Receiving Q U)
      → s.active_webhook_set_query ≡ none
      → on_webhook_certificate_copied lib now is_error s ≡ none
  unfolding on_webhook_certificate_copied
  copied_in_vain now is_error s h = ground (arith, h)

  drop_stored-Inv :
      (s : Receiving Q U) → Inv lib s → s.has_td_client ≡ false → Inv lib (drop_stored lib s)
  drop_stored-Inv s v h = record {
    set_has_url = v.set_has_url;
    active_no_url = v.active_no_url;
    poll_alone = v.poll_alone;
    certified = v.certified;
    hooked = v.hooked;
    gone = v.gone;
    saved = λ c u e. absurd (ground (arith, c, h));
  }

  module _ (now date : ℕ) (s : Receiving Q U) (v : Inv lib s) (closing : is_closing s ≡ true)
      (there : s.has_td_client ≡ true) where
    -- The state before the request for updates that waits is woken.
    abbrev dropped : List (ℕ × Outcome U) → Receiving Q U
    dropped rs = drop_webhook lib (record s {
      has_td_client = false;
      webhook_set_query = none;
      active_webhook_set_query = none;
      answers = rs;
    })

    dropped-Inv : (rs : List (ℕ × Outcome U)) → Inv lib (dropped rs)
    dropped-Inv rs = record {
      set_has_url = λ x g. absurd (ground (arith, g));
      active_no_url = λ x g. absurd (ground (arith, g));
      poll_alone = λ x g. ((v.poll_alone x g).0, refl);
      certified = v.certified;
      hooked = λ u. ground (arith, u, v.hooked u);
      gone = λ g. (off (is_empty s.settings.url) refl, closing);
      saved = λ c. absurd (ground (arith, c));
    }
      where
        off :
            (b : Bool) → is_empty s.settings.url ≡ b → (if b then s.has_webhook else false) ≡ false
        off true e = v.hooked e
        off false e = refl

    pub on_closed-Ended : Ended s (on_closed lib now date s)
    unfolding on_closed close_long_poll
    on_closed-Ended =
        let gone : Receiving Q U = record s { has_td_client = false; webhook_set_query = none } in
        let a = close_held-Closed now s.webhook_set_query gone closing in
        let t : Receiving Q U = record gone { active_webhook_set_query = none; answers = a.list } in
        let b = close_held-Closed now s.active_webhook_set_query t closing in
        let w = dropped b.list in
        let k = long_poll_wakeup-Kept lib is now date true w (dropped-Inv b.list) in
        let f = long_poll_wakeup-Woken lib is now date w k.after k.succeeds in
        let left : k.after.has_td_client ≡ false = f.client in
        record {
          kept = record {
            after = drop_stored lib k.after;
            succeeds = ground (arith, closing, there, a.closes, b.closes, k.succeeds, f.long_poll);
            inv = drop_stored-Inv k.after k.inv left;
            conserved = λ x. omega (arith, k.conserved x, a.count x, b.count x);
          };
          idle = (f.set, f.active, f.long_poll);
          gone = left;
        }

    -- When a client is closed, each query that it holds is answered, and none is answered twice; a
    -- certificate whose copy ends after that fails the `CHECK` of its callback.
    pub closed_then_copied :
        (t : Receiving Q U) × (on_closed lib now date s ≡ some t)
        × ((x : ℕ) → answered t x ≡ ledger s x)
        × ((later : ℕ) (is_error : Bool)
            → on_webhook_certificate_copied lib later is_error t ≡ none)
    closed_then_copied =
        let e = on_closed-Ended in
        (
          e.kept.after,
          e.kept.succeeds,
          λ x. ground (arith, e.idle, e.kept.conserved x),
          λ later is_error. copied_in_vain later is_error e.kept.after e.idle.1,
        )

  -- The end of a client that is closed fails no `CHECK`.
  pub finish_closing-Kept :
      (s : Receiving Q U)
      → Inv lib s
      → s.has_td_client ≡ false
      → Kept lib s nobody (finish_closing lib s)
  unfolding finish_closing clear_updates
  finish_closing-Kept s v gone =
      Kept_if lib (s.clear_tqueue && s.logging_out)
        (λ h. record {
          after = record s { updates = lib.clear 0 s.updates };
          succeeds = ground (arith, (v.gone gone).0);
          inv =
              Inv-others lib s s.answers s.next_get_updates_conflict_time s.webhook_generation
                s.next_allowed_set_webhook_time (lib.clear 0 s.updates) v;
          conserved = λ x. omega arith;
        })
        (λ h. same-Kept lib s v)
