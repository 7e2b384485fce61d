-- ===== src/Receiving/Setting.antt =====
-- Setting the webhook keeps the invariant and loses no query.
use core_telegram_api.Common.{
  ℕ, ◌≡◌, refl, subst, inl, inr, Bool, true, false, not, Option, none, some, [], arith, ltb,
  if◌then◌else◌, Bool-cases, length, ◌==◌, nat_eq, bytes_eq, int_eq, codes,
}
use core_telegram_api.Query.{HttpFile, arg}
use core_telegram_api.WebhookInfo.{is_empty}
use core_telegram_api.Receiving.{
  Asked, retry_after, Tdlib, verify, Receiving, is_present, is_closing, reply, fail_query_closing,
}
use core_telegram_api.Receiving.Webhook.{
  new_url, get_webhook_certificate, clear_updates, asked_settings, finish_set_webhook,
  with_certificate, max_certificate_file_size, too_big, take_certificate, start_webhook, drops,
  do_set_webhook,
}
use core_telegram_api.Receiving.Invariant.{
  asked_url, one, times-append, get_closing_error_total, Inv, Kept, Inv-others, reply-Kept,
  fail_query_closing-Kept, Kept-from, Kept_if,
}

pub absent : {A : Type 0} → (o : Option A) → ((x : A) → o ≡ some x → ⊥) → o ≡ none
absent none h = refl
absent (some x) h = absurd (h x refl)

module _ {Q U : Type 0} (lib : Tdlib Q U) where
  -- A client that could start a webhook.
  pub record IsFree (s : Receiving Q U) : Type 0 where
    pub inv : Inv lib s
    pub none_set : s.webhook_set_query ≡ none
    pub no_url : is_empty s.settings.url ≡ true

  module _ (now : ℕ) (q : Asked) (s : Receiving Q U) (f : IsFree s) where
    closing_certificate :
        (b : Bool)
        → is_closing s ≡ true
        → Kept lib s (one q) (fail_query_closing now q (with_certificate b s))
    unfolding fail_query_closing
    closing_certificate b h =
        let (o, e) = get_closing_error_total now (with_certificate b s) h in
        record {
          after = reply q o (with_certificate b s);
          succeeds = rw (e, fail_query_closing) refl;
          inv = record {
            set_has_url = f.inv.set_has_url;
            active_no_url = f.inv.active_no_url;
            poll_alone = f.inv.poll_alone;
            certified = λ u c. h;
            hooked = f.inv.hooked;
            gone = f.inv.gone;
            saved = λ c u n. absurd (ground (arith, f.no_url, u));
          };
          conserved = λ x. omega (arith, times-append x s.answers q.id o);
        }

    module _ (waits : s.long_poll_query ≡ none) (idle : s.active_webhook_set_query ≡ none) where
      pub finish_set_webhook-Kept :
          (b : Bool)
          → is_empty (asked_url q) ≡ false
          → lib.parses_url (asked_url q) ≡ true
          → Kept lib s (one q) (finish_set_webhook lib now q (with_certificate b s))
      unfolding finish_set_webhook
      finish_set_webhook-Kept b has_url parsed = elim (Bool-cases (is_closing s)) [
        | inl is_closed ↦
            let k = closing_certificate b is_closed in
            record {
              after = k.after;
              succeeds = ground (arith, k.succeeds, f.none_set, f.no_url, idle, is_closed);
              inv = k.inv;
              conserved = k.conserved;
            }
        | inr running ↦ record {
          after = record s {
            settings = asked_settings lib q.request (with_certificate b s).settings;
            has_webhook = true;
            webhook_query_type = verify;
            webhook_set_query = some q;
          };
          succeeds = ground (arith, f.none_set, f.no_url, idle, running, has_url, parsed);
          inv = record {
            set_has_url = λ x e. has_url;
            active_no_url = λ x e. absurd (ground (arith, idle, e));
            poll_alone = λ x e. absurd (ground (arith, waits, e));
            certified = λ u c. absurd (ground (arith, u, has_url));
            hooked = λ u. absurd (ground (arith, u, has_url));
            gone = λ g. absurd (ground (arith, f.inv.gone g, running));
            saved = λ c u n. absurd (ground (arith, n));
          };
          conserved = λ x. ground (arith, f.none_set, idle, waits);
        }
      ]

      uncertified : is_closing s ≡ false → s.settings.has_certificate ≡ false
      uncertified running = elim (Bool-cases s.settings.has_certificate) [
        | inl h ↦ absurd (ground (arith, f.inv.certified f.no_url h, running))
        | inr h ↦ h
      ]

      module _ (has_url : is_empty (asked_url q) ≡ false)
          (parsed : lib.parses_url (asked_url q) ≡ true) where
        take_certificate-Kept : Kept lib s (one q) (take_certificate lib now q s)
        unfolding take_certificate
        take_certificate-Kept =
            Kept_if lib q.request.is_internal (λ internal. finish_set_webhook-Kept _ has_url parsed)
              (λ external. copy (get_webhook_certificate q.request))
          where
            copy :
                (o : Option HttpFile)
                → Kept lib s (one q) (elim o [
                  | none ↦ finish_set_webhook lib now q s
                  | some f ↦
                      if ltb max_certificate_file_size f.size
                      then some (reply q (too_big lib f.size) s)
                      else if is_present s.webhook_set_query
                      then none
                      else some (record s { active_webhook_set_query = some q })
                ])
            copy none = finish_set_webhook-Kept s.settings.has_certificate has_url parsed
            copy (some c) =
                Kept_if lib (ltb max_certificate_file_size c.size)
                  (λ large. reply-Kept lib q _ s f.inv)
                  (λ small. record {
                    after = record s { active_webhook_set_query = some q };
                    succeeds = ground (arith, f.none_set);
                    inv = record {
                      set_has_url = f.inv.set_has_url;
                      active_no_url = λ x g.
                          let same : q ≡ x = ground (arith, g) in
                          (
                            f.no_url,
                            subst (λ y. is_empty (asked_url y) ≡ false) same has_url,
                            subst (λ y. lib.parses_url (asked_url y) ≡ true) same parsed,
                          );
                      poll_alone = λ x g. absurd (ground (arith, waits, g));
                      certified = f.inv.certified;
                      hooked = f.inv.hooked;
                      gone = f.inv.gone;
                      saved = f.inv.saved;
                    };
                    conserved = λ x. ground (arith, f.none_set, idle, waits);
                  })

  IsFree-cleared :
      (s : Receiving Q U) (queue : Q) → IsFree s → IsFree (record s { updates = queue })
  IsFree-cleared s queue f = record {
    inv =
        Inv-others lib s s.answers s.next_get_updates_conflict_time s.webhook_generation
          s.next_allowed_set_webhook_time queue f.inv;
    none_set = f.none_set;
    no_url = f.no_url;
  }

  -- An address that is asked for is that of the query.
  new_url_asked : (q : Asked) → is_empty (new_url q) ≡ false → new_url q ≡ asked_url q
  new_url_asked q h = go (q.request.method == codes "setwebhook") h
    where
      go :
          (b : Bool)
          → is_empty (if b then asked_url q else []) ≡ false
          → (if b then asked_url q else []) ≡ asked_url q
      go true h = refl
      go false h = absurd (ground (arith, h))

  module _ (now : ℕ) (q : Asked) (s : Receiving Q U) (f : IsFree s)
      (running : is_closing s ≡ false) where
    start_webhook-Kept :
        is_empty (new_url q) ≡ false
        → s.long_poll_query ≡ none
        → Kept lib s (one q) (start_webhook lib now q s)
    unfolding start_webhook
    start_webhook-Kept has_url waits =
        let same = new_url_asked q has_url in
        Kept_if lib (not (lib.parses_url (new_url q))) (λ h. reply-Kept lib q _ s f.inv)
          (λ parsed.
            Kept_if lib (ltb 256 (length (arg (codes "secret_token") q.request.args)))
              (λ h. reply-Kept lib q _ s f.inv)
              (λ short.
                Kept_if lib
                  (not (lib.is_base64url_characters (arg (codes "secret_token") q.request.args)))
                  (λ h. reply-Kept lib q _ s f.inv)
                  (λ fine.
                    idle_webhook s.active_webhook_set_query refl
                      (subst (λ u. is_empty u ≡ false) same has_url)
                      (subst (λ u. lib.parses_url u ≡ true) same (ground (arith, parsed))))))
      where
        idle_webhook :
            (o : Option Asked)
            → s.active_webhook_set_query ≡ o
            → is_empty (asked_url q) ≡ false
            → lib.parses_url (asked_url q) ≡ true
            → Kept lib s (one q) (
                if is_present o
                then some (reply q (retry_after 1) s)
                else if s.settings.has_certificate
                then none
                else take_certificate lib now q s)
        idle_webhook (some other) e a b = reply-Kept lib q _ s f.inv
        idle_webhook none e a b =
            Kept_if lib s.settings.has_certificate
              (λ h. absurd (ground (arith, h, uncertified now q s f waits e running)))
              (λ h. take_certificate-Kept now q s f waits e a b)

    -- Whether the updates are dropped makes no difference.
    clear_updates-Kept :
        (b : Bool) (g : Receiving Q U → Option (Receiving Q U))
        → ((queue : Q) → Kept lib s (one q) (g (record s { updates = queue })))
        → Kept lib s
            (one q)
            (elim (if b then clear_updates lib s else some s) [ none ↦ none | some t ↦ g t ])
    unfolding clear_updates
    clear_updates-Kept true g k = go s.has_webhook (f.inv.hooked f.no_url)
      where
        go :
            (b : Bool)
            → b ≡ false
            → Kept lib s
                (one q)
                (elim (if b then none else some (record s { updates = lib.clear 0 s.updates })) [
                  | none ↦ none
                  | some t ↦ g t
                ])
        go true h = absurd (ground (arith, h))
        go false h = k (lib.clear 0 s.updates)
    clear_updates-Kept false g k = k s.updates

  pub do_set_webhook-Kept :
      (now : ℕ) (was_deleted : Bool) (q : Asked) (s : Receiving Q U)
      → IsFree s
      → (is_empty (new_url q) ≡ false → s.long_poll_query ≡ none)
      → Kept lib s (one q) (do_set_webhook lib now was_deleted q s)
  unfolding do_set_webhook
  do_set_webhook-Kept now was_deleted q s f waits =
      Kept_if lib (not (is_empty s.settings.url)) (λ h. absurd (ground (arith, h, f.no_url)))
        (λ h. Kept_if lib (is_closing s) (fail_query_closing-Kept lib now q s f.inv) (λ running.
          clear_updates-Kept now q s f running (drops lib q) _ (λ queue.
            let g = IsFree-cleared s queue f in
            let t : Receiving Q U = record s { updates = queue } in
            Kept-from lib s t (one q) (one q) _ (λ x. refl)
              (Kept_if lib (is_empty (new_url q)) (λ e. reply-Kept lib q _ t g.inv)
                (λ has_url. start_webhook-Kept now q t g running has_url (waits has_url))))))
