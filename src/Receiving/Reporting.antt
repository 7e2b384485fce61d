-- ===== src/Receiving/Reporting.antt =====
-- The reports of the webhook and of its certificate keep the invariant and lose no query.
use core_telegram_api.Common.{
  ℕ, ◌≡◌, refl, sym, subst, Bool, true, false, not, Option, none, some, List, ◌++◌, arith,
  if◌then◌else◌, ◌==◌, nat_eq, bytes_eq, int_eq, Bytes, codes,
}
use core_telegram_api.WebhookInfo.{is_empty}
use core_telegram_api.Receiving.{
  Asked, Outcome, answered_true, failed_with, Tdlib, Receiving, reply,
}
use core_telegram_api.Receiving.Webhook.{
  save, with_certificate, no_webhook, is_verify, finish_set_webhook, do_set_webhook,
  webhook_verified, on_webhook_closed, webhook_closed, on_webhook_certificate_copied,
}
use core_telegram_api.Receiving.Invariant.{
  one, times-append, Inv, Kept, reply-Kept, Kept-from, Kept_if,
}
use core_telegram_api.Receiving.Setting.{
  absent, IsFree, do_set_webhook-Kept, finish_set_webhook-Kept,
}

abbrev pub nobody : ℕ → ℕ
nobody x = 0

module _ {Q U : Type 0} (lib : Tdlib Q U) where
  pub same-Kept : (s : Receiving Q U) → Inv lib s → Kept lib s nobody (some s)
  same-Kept s v = record { after = s; succeeds = refl; inv = v; conserved = λ x. omega arith }

  module _ (s : Receiving Q U) (v : Inv lib s) where
    pub webhook_verified-Kept :
        (token : ℕ) (ip_address : Bytes)
        → Kept lib s nobody (some (webhook_verified lib token ip_address s))
    unfolding webhook_verified save
    webhook_verified-Kept token ip_address = current (not (token == s.webhook_generation))
      where
        t : Receiving Q U
        t = record s { settings = record s.settings { ip_address = ip_address } }

        outcome : Option Asked → Receiving Q U
        outcome o = elim o [
          | some q ↦ save lib (
              reply q (answered_true (codes "Webhook was set"))
                (record t { webhook_set_query = none }))
          | none ↦ if ip_address == s.settings.ip_address then t else save lib t
        ]

        saved-Inv :
            (o : Option Asked) (rs : List (ℕ × Outcome U))
            → ((q : Asked) → o ≡ some q → s.webhook_set_query ≡ some q)
            → Inv lib (save lib (record t { webhook_set_query = o; answers = rs }))
        saved-Inv o rs h = record {
          set_has_url = λ x e. v.set_has_url x (h x e);
          active_no_url = v.active_no_url;
          poll_alone = v.poll_alone;
          certified = v.certified;
          hooked = v.hooked;
          gone = v.gone;
          saved = λ c u e. refl;
        }

        as_before :
            (b : Bool)
            → ip_address == s.settings.ip_address ≡ b
            → s.webhook_set_query ≡ none
            → Kept lib s nobody (some (if b then t else save lib t))
        as_before true e n =
            subst
              (λ i.
                Kept lib s nobody
                  (some (record s { settings = record s.settings { ip_address = i } })))
              (sym ((bytes_eq.beq_iff ip_address s.settings.ip_address).0 e)) (same-Kept s v)
        as_before false e n = record {
          after = save lib t;
          succeeds = refl;
          inv = saved-Inv s.webhook_set_query s.answers (λ q g. g);
          conserved = λ x. omega arith;
        }

        answered_now :
            (o : Option Asked) → s.webhook_set_query ≡ o → Kept lib s nobody (some (outcome o))
        answered_now none e = as_before (ip_address == s.settings.ip_address) refl e
        answered_now (some q) e = record {
          after = outcome (some q);
          succeeds = refl;
          inv = saved-Inv none _ (λ x g. absurd (ground (arith, g)));
          conserved = λ x.
              ground
                (arith, e, times-append x s.answers q.id (answered_true (codes "Webhook was set")));
        }

        current :
            (b : Bool) → Kept lib s nobody (some (if b then s else outcome s.webhook_set_query))
        current true = same-Kept s v
        current false = answered_now s.webhook_set_query refl

    no_webhook-Inv :
        (o : Option Asked) → o ≡ none → Inv lib (record (no_webhook s) { webhook_set_query = o })
    no_webhook-Inv o n = record {
      set_has_url = λ x e. absurd (ground (arith, n, e));
      active_no_url = λ x e. (refl, (v.active_no_url x e).1, (v.active_no_url x e).2);
      poll_alone = λ x e. (refl, (v.poll_alone x e).1);
      certified = λ u c. absurd (ground (arith, c));
      hooked = λ u. refl;
      gone = λ e. (refl, (v.gone e).1);
      saved = λ c u e. absurd (ground (arith, u));
    }

    pub on_webhook_closed-Kept :
        (now : ℕ) (message : Bytes) → Kept lib s nobody (on_webhook_closed lib now message s)
    unfolding on_webhook_closed
    on_webhook_closed-Kept now message = go s.webhook_set_query refl
      where
        t : Receiving Q U
        t = record (no_webhook s) { webhook_set_query = none }

        go :
            (o : Option Asked)
            → s.webhook_set_query ≡ o
            → Kept lib s nobody (elim o [
              | none ↦ some (no_webhook s)
              | some q ↦
                  if is_verify s.webhook_query_type
                  then some
                      (reply q (failed_with 400 (codes "Bad Request: bad webhook: " ++ message)) t)
                  else do_set_webhook lib now true q t
            ])
        go none e = record {
          after = no_webhook s;
          succeeds = refl;
          inv = no_webhook-Inv s.webhook_set_query e;
          conserved = λ x. omega arith;
        }
        go (some q) e =
            let i = no_webhook-Inv none refl in
            let waits : s.long_poll_query ≡ none =
              absent s.long_poll_query
                (λ x g. ground (arith, (v.poll_alone x g).0, v.set_has_url q e)) in
            Kept-from lib s t nobody (one q) _ (λ x. ground (arith, e))
              (Kept_if lib (is_verify s.webhook_query_type) (λ h. reply-Kept lib q _ t i)
                (λ h.
                  do_set_webhook-Kept lib now true q t
                    (record { inv = i; none_set = refl; no_url = refl }) (λ u. waits)))

    pub webhook_closed-Kept :
        (now : ℕ) (message : Bytes) → Kept lib s nobody (webhook_closed lib now message s)
    unfolding webhook_closed
    webhook_closed-Kept now message =
        Kept_if lib s.settings.has_certificate (λ h. same-Kept s v)
          (λ h. on_webhook_closed-Kept now message)

    pub on_webhook_certificate_copied-Kept :
        (now : ℕ) (is_error : Bool) (q : Asked)
        → s.active_webhook_set_query ≡ some q
        → Kept lib s nobody (on_webhook_certificate_copied lib now is_error s)
    unfolding on_webhook_certificate_copied
    on_webhook_certificate_copied-Kept now is_error q there = go s.active_webhook_set_query there
      where
        t : Receiving Q U
        t = record s { active_webhook_set_query = none }

        waits : s.long_poll_query ≡ none
        waits = absent s.long_poll_query (λ x g. ground (arith, (v.poll_alone x g).1, there))

        no_url : is_empty s.settings.url ≡ true
        no_url = (v.active_no_url q there).0

        t-Inv : Inv lib t
        t-Inv = record {
          set_has_url = v.set_has_url;
          active_no_url = λ x e. absurd (ground (arith, e));
          poll_alone = λ x e. ((v.poll_alone x e).0, refl);
          certified = v.certified;
          hooked = v.hooked;
          gone = v.gone;
          saved = v.saved;
        }

        t-IsFree : IsFree lib t
        t-IsFree = record {
          inv = t-Inv;
          none_set = absent s.webhook_set_query (λ x e. ground (arith, v.set_has_url x e, no_url));
          no_url = no_url;
        }

        go :
            (o : Option Asked)
            → o ≡ some q
            → Kept lib s nobody (elim o [
              | none ↦ none
              | some p ↦
                  if is_error
                  then some (
                      reply p
                        (failed_with 500
                          (codes "Internal Server Error: failed to save certificate"))
                        t)
                  else finish_set_webhook lib now p (with_certificate true t)
            ])
        go none e = absurd (ground (arith, e))
        go (some p) e =
            let mine : s.active_webhook_set_query ≡ some p = ground (arith, there, e) in
            Kept-from lib s t nobody (one p) _ (λ x. ground (arith, mine))
              (Kept_if lib is_error (λ h. reply-Kept lib p _ t t-Inv)
                (λ h.
                  finish_set_webhook-Kept lib now p t t-IsFree waits refl true
                    (v.active_no_url p mine).1 (v.active_no_url p mine).2))
