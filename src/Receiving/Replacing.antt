-- ===== src/Receiving/Replacing.antt =====
-- A query that sets or deletes the webhook keeps the invariant and loses no query.
use core_telegram_api.Common.{
  ℕ, ◌+◌, ◌≡◌, refl, sym, subst, inl, inr, Bool, true, false, not, ◌&&◌, Option, none, some, List,
  arith, ltb, if◌then◌else◌, Bool-cases, ◌==◌, nat_eq, bytes_eq, int_eq, count, codes,
}
use core_telegram_api.WebhookInfo.{is_empty}
use core_telegram_api.Manager.{second}
use core_telegram_api.Receiving.{
  Asked, Outcome, answered_true, retry_after, Tdlib, cancel, Receiving, is_present, reply,
  fail_query_conflict, abort_long_poll,
}
use core_telegram_api.Receiving.Webhook.{
  new_url, update_allowed_update_types, save, is_unmodified, keep_webhook, close_old_webhook,
  replace_webhook, admit_webhook, process_set_webhook_query,
}
use core_telegram_api.Receiving.Invariant.{
  one, held_by, times, with_answers, fail_query_conflict-Replied, abort_long_poll-Replied, Inv,
  Kept, Inv-others, reply-Kept, Kept-from, Kept_if,
}
use core_telegram_api.Receiving.Setting.{absent, IsFree, do_set_webhook-Kept}

module _ {Q U : Type 0} (lib : Tdlib Q U) where
  -- Without the queries that were answered.
  abbrev freed : Option Asked → List (ℕ × Outcome U) → ℕ → Receiving Q U → Receiving Q U
  freed poll rs time s =
      with_answers rs time (record s { webhook_set_query = none; long_poll_query = poll })

  module _ (now : ℕ) (q : Asked) (s : Receiving Q U) (v : Inv lib s) where
    module _ (poll : Option Asked) (rs : List (ℕ × Outcome U)) (time : ℕ)
        (fewer : (x : Asked) → poll ≡ some x → s.long_poll_query ≡ some x)
        (waits : is_empty (new_url q) ≡ false → poll ≡ none)
        (count : (x : ℕ)
          → times x rs + held_by poll x
            ≡ times x s.answers + held_by s.webhook_set_query x + held_by s.long_poll_query x) where
      cancelled-Kept :
          is_empty s.settings.url ≡ false
          → Kept lib s (one q) (close_old_webhook lib now q (freed poll rs time s))
      unfolding close_old_webhook
      cancelled-Kept has_url =
          let idle : s.active_webhook_set_query ≡ none =
            absent s.active_webhook_set_query
              (λ x e. ground (arith, (v.active_no_url x e).0, has_url)) in
          let no_poll : poll ≡ none =
            absent poll (λ x e. ground (arith, (v.poll_alone x (fewer x e)).0, has_url)) in
          record {
            after = record (freed poll rs time s) {
              webhook_generation = s.webhook_generation + 1;
              has_webhook = false;
              webhook_query_type = cancel;
              webhook_set_query = some q;
            };
            succeeds = ground (arith, has_url, idle);
            inv = record {
              set_has_url = λ x e. has_url;
              active_no_url = v.active_no_url;
              poll_alone = λ x e. absurd (ground (arith, no_poll, e));
              certified = v.certified;
              hooked = λ e. refl;
              gone = λ e. (refl, (v.gone e).1);
              saved = λ c u e. absurd (ground (arith, e));
            };
            conserved = λ x. omega (arith, count x);
          }

      free :
          is_empty s.settings.url ≡ true
          → s.webhook_set_query ≡ none
          → IsFree lib
              (record (freed poll rs time s) { webhook_generation = s.webhook_generation + 1 })
      free no_url unset = record {
        inv = record {
          set_has_url = λ x e. absurd (ground (arith, e));
          active_no_url = v.active_no_url;
          poll_alone = λ x e. v.poll_alone x (fewer x e);
          certified = v.certified;
          hooked = v.hooked;
          gone = v.gone;
          saved = λ c u e. absurd (ground (arith, u, no_url));
        };
        none_set = refl;
        no_url = no_url;
      }

      close_old_webhook-Kept :
          Kept lib s (one q) (close_old_webhook lib now q (freed poll rs time s))
      unfolding close_old_webhook
      close_old_webhook-Kept = elim (Bool-cases (is_empty s.settings.url)) [
        | inr has_url ↦ cancelled-Kept has_url
        | inl no_url ↦
            let unset : s.webhook_set_query ≡ none =
              absent s.webhook_set_query (λ x e. ground (arith, v.set_has_url x e, no_url)) in
            Kept_if lib (not (is_empty s.settings.url)) (λ h. absurd (ground (arith, h, no_url)))
              (λ h.
                Kept-from lib s
                  (record (freed poll rs time s) { webhook_generation = s.webhook_generation + 1 })
                  (one q) (one q) _ (λ x. ground (arith, count x, unset))
                  (do_set_webhook-Kept lib now false q _ (free no_url unset) waits))
      ]

    -- Once the query that was to set the webhook is answered.
    replace_webhook-Kept :
        (rs : List (ℕ × Outcome U)) (time : ℕ)
        → ((x : ℕ) → times x rs ≡ times x s.answers + held_by s.webhook_set_query x)
        → Kept lib s (one q) (replace_webhook lib now q (freed s.long_poll_query rs time s))
    unfolding replace_webhook
    replace_webhook-Kept rs time count = go (is_empty (new_url q)) refl
      where
        c : Receiving Q U
        c = freed s.long_poll_query rs time s

        go :
            (b : Bool)
            → is_empty (new_url q) ≡ b
            → Kept lib s
                (one q)
                (close_old_webhook lib now q (if b then c else abort_long_poll now true c))
        go true e =
            close_old_webhook-Kept s.long_poll_query rs time (λ x g. g)
              (λ h. absurd (ground (arith, e, h))) (λ x. omega (arith, count x))
        go false e =
            let r = abort_long_poll-Replied now true c in
            subst (λ t. Kept lib s (one q) (close_old_webhook lib now q t)) (sym r.same)
              (close_old_webhook-Kept none r.list r.time (λ x g. absurd (ground (arith, g)))
                (λ h. refl) (λ x. omega (arith, count x, r.count x)))

    keep_webhook-Kept :
        s.webhook_set_query ≡ none → Kept lib s (one q) (some (keep_webhook lib q s))
    unfolding keep_webhook save
    keep_webhook-Kept unset = go (
        update_allowed_update_types lib q.request s.settings.allowed_update_types
        == s.settings.allowed_update_types)
      where
        t : Receiving Q U
        t = save lib (record s {
          settings = record s.settings {
            allowed_update_types =
                update_allowed_update_types lib q.request s.settings.allowed_update_types;
          };
        })

        t-Inv : Inv lib t
        t-Inv = record {
          set_has_url = v.set_has_url;
          active_no_url = v.active_no_url;
          poll_alone = v.poll_alone;
          certified = v.certified;
          hooked = v.hooked;
          gone = v.gone;
          saved = λ c u e. refl;
        }

        done : Outcome U
        done = answered_true (
            if is_empty (new_url q)
            then codes "Webhook is already deleted"
            else codes "Webhook is already set")

        go : (b : Bool) → Kept lib s (one q) (some (reply q done (if b then s else t)))
        go true = reply-Kept lib q _ s v
        go false = Kept-from lib s t (one q) (one q) _ (λ x. refl) (reply-Kept lib q _ t t-Inv)

    admit_webhook-Kept : Kept lib s (one q) (admit_webhook lib now q s)
    unfolding admit_webhook
    admit_webhook-Kept = go s.webhook_set_query refl
      where
        go :
            (o : Option Asked)
            → s.webhook_set_query ≡ o
            → Kept lib s (one q) (elim o [
              | some old ↦ replace_webhook lib now q (
                  fail_query_conflict now
                    (codes "Conflict: terminated by other setWebhook")
                    old
                    (record s { webhook_set_query = none }))
              | none ↦
                  if is_present s.active_webhook_set_query
                  then some (reply q (retry_after 1) s)
                  else if is_unmodified lib q s.settings
                  then some (keep_webhook lib q s)
                  else replace_webhook lib now q s
            ])
        go (some old) e =
            let r =
              fail_query_conflict-Replied now (codes "Conflict: terminated by other setWebhook") old
                (record s { webhook_set_query = none }) in
            subst (λ t. Kept lib s (one q) (replace_webhook lib now q t)) (sym r.same)
              (replace_webhook-Kept r.list r.time (λ x. ground (arith, e, r.count x)))
        go none e =
            Kept_if lib (is_present s.active_webhook_set_query) (λ h. reply-Kept lib q _ s v)
              (λ h.
                Kept_if lib (is_unmodified lib q s.settings) (λ g. keep_webhook-Kept e)
                  (λ g.
                    subst
                      (λ o.
                        Kept lib s (one q)
                          (replace_webhook lib now q (record s { webhook_set_query = o })))
                      (sym e)
                      (replace_webhook-Kept s.answers s.next_get_updates_conflict_time
                        (λ x. ground (arith, e)))))

  pub process_set_webhook_query-Kept :
      (now : ℕ) (q : Asked) (s : Receiving Q U)
      → Inv lib s
      → Kept lib s (one q) (process_set_webhook_query lib now q s)
  unfolding process_set_webhook_query
  process_set_webhook_query-Kept now q s v =
      Kept_if lib (not (is_empty (new_url q)) && not q.request.is_internal)
        (λ h.
          Kept_if lib (ltb now s.next_allowed_set_webhook_time) (λ g. reply-Kept lib q _ s v)
            (λ g.
              let t : Receiving Q U = record s { next_allowed_set_webhook_time = now + second } in
              Kept-from lib s t (one q) (one q) _ (λ x. refl)
                (admit_webhook-Kept now q t (
                  Inv-others lib s s.answers s.next_get_updates_conflict_time s.webhook_generation
                    (now + second) s.updates v))))
        (λ h. admit_webhook-Kept now q s v)
