-- ===== src/Receiving/Restart.antt =====
-- A server that is restarted sets the webhook of a bot as it was.
use core_telegram_api.Common.{
  ℕ, ◌≤◌, ◌<◌, ◌^◌, ◌≡◌, refl, ap, ◌∙◌, ◌≢◌, inl, inr, true, false, Option, none, some, List, [],
  ◌∷◌, if◌then◌else◌, arith, Bool-cases, length, ltb, ◌==◌, nat_eq, bytes_eq, int_eq, Bytes, codes,
}
use core_telegram_api.Query as Q
use core_telegram_api.Query.{Query, pending}
use core_telegram_api.UpdateTypes.{default_allowed_update_types, number_value}
use core_telegram_api.WebhookInfo as W
use core_telegram_api.WebhookInfo.{
  IsTextLibrary, Settings, Args, is_empty, save_webhook, restore_args, settings_of,
}
use core_telegram_api.WebhookInfo.RoundTrip.{
  IsStorable, restore_args-save_webhook, arg_url, arg_secret, settings_of-restore,
}
use core_telegram_api.Receiving.{Asked, Tdlib, IsTdlib, Receiving, verify, abort_long_poll}
use core_telegram_api.Receiving.Webhook.{
  process_set_webhook_query, admit_webhook, is_unmodified, replace_webhook, close_old_webhook,
  do_set_webhook, drops, clear_updates, start_webhook, take_certificate, finish_set_webhook,
  update_allowed_update_types, get_webhook_fix_ip_address, asked_settings, with_certificate,
}
use core_telegram_api.Receiving.History.{Event, run, Lawful, opened, run-Exclusive}

-- The query of `get_webhook_restore_query`.
abbrev pub restore_query : Args → Query
restore_query args = record {
  state = pending;
  container = [];
  method = codes "setwebhook";
  args = args;
  headers = [];
  files = [];
  is_internal = true;
  answer = [];
  http_status_code = 0;
  retry_after = 0;
  has_stat_actor = false;
  events = [];
}

arg_same : (key : Bytes) (args : Args) → Q.arg key args ≡ W.arg key args
unfolding Q.arg W.arg
arg_same key [] = refl
arg_same key ((k, v) ∷ args) = ap (λ r. if k == key then v else r) (arg_same key args)

has_arg_same : (key : Bytes) (args : Args) → Q.has_arg key args ≡ W.has_arg key args
unfolding Q.has_arg W.has_arg
has_arg_same key [] = refl
has_arg_same key ((k, v) ∷ args) = ground (arith, has_arg_same key args)

module _ {S U : Type 0} (lib : Tdlib S U) where
  -- What an accepted setWebhook query leaves: settings that can be stored, with a positive mask and
  -- a number of connections in range, an address that is parsed, and a secret that is allowed.
  pub record IsAccepted (w : Settings) : Type 0 where
    pub storable : IsStorable w
    pub some_types : 0 < w.allowed_update_types
    pub types_fit : w.allowed_update_types < 2 ^ 64
    pub some_connections : 1 ≤ w.max_connections
    pub connections_fit : w.max_connections ≤ (if lib.local_mode then 100000 else 100)
    pub url_parses : lib.parses_url w.url ≡ true
    pub secret_fits : length w.secret_token ≤ 256
    pub secret_allowed : lib.is_base64url_characters w.secret_token ≡ true

  module _ (queue : S) (stored : Option Bytes) (now id : ℕ) (args : Args)
      (url_set : is_empty (Q.arg (codes "url") args) ≡ false)
      (parses : lib.parses_url (Q.arg (codes "url") args) ≡ true)
      (short : ltb 256 (length (Q.arg (codes "secret_token") args)) ≡ false)
      (allowed : lib.is_base64url_characters (Q.arg (codes "secret_token") args) ≡ true) where
    abbrev asked : Asked
    asked = record { id = id; request = restore_query args }

    -- A fresh client whose updates may have been dropped.
    abbrev fresh : S → Receiving S U
    fresh updates = record (opened lib queue default_allowed_update_types stored) {
      webhook_generation = 2;
      updates = updates;
    }

    abbrev restored : S → Receiving S U
    restored updates =
        let s =
          with_certificate (Q.arg (codes "certificate") args == codes "previous") (fresh updates) in
        record s {
          settings = asked_settings lib (restore_query args) s.settings;
          has_webhook = true;
          webhook_query_type = verify;
          webhook_set_query = some asked;
        }

    start_fresh :
        (updates : S) → start_webhook lib now asked (fresh updates) ≡ some (restored updates)
    unfolding start_webhook take_certificate finish_set_webhook
    start_fresh updates = ground (arith, url_set, parses, short, allowed)

    set_fresh :
        (updates : S) × (do_set_webhook lib now false asked (fresh queue) ≡ some (restored updates))
    unfolding do_set_webhook clear_updates
    set_fresh = elim (Bool-cases (drops lib asked)) [
      | inl dropped ↦
          (lib.clear 0 queue, ground (arith, dropped, url_set, start_fresh (lib.clear 0 queue)))
      | inr kept ↦ (queue, ground (arith, kept, url_set, start_fresh queue))
    ]

    process_fresh :
        (updates : S) × (process_set_webhook_query lib now asked
            (opened lib queue default_allowed_update_types stored)
          ≡ some (restored updates))
    unfolding process_set_webhook_query admit_webhook replace_webhook close_old_webhook
        abort_long_poll is_unmodified
    process_fresh = (set_fresh.0, ground (arith, url_set, set_fresh.1))

  -- The settings that the handlers take are those of `settings_of`.
  asked_settings-settings_of :
      (args : Args) (w : Settings)
      → asked_settings lib
          (restore_query args)
          (record w { has_certificate = Q.arg (codes "certificate") args == codes "previous" })
        ≡ settings_of lib.text lib.local_mode lib.default_max_webhook_connections lib.json_decode
            lib.to_integer_safe w.allowed_update_types args
  unfolding settings_of update_allowed_update_types get_webhook_fix_ip_address
  asked_settings-settings_of args w =
      rw
        (
          arg_same (codes "certificate") args,
          arg_same (codes "ip_address") args,
          arg_same (codes "secret_token") args,
          arg_same (codes "allowed_updates") args,
          arg_same (codes "url") args,
          has_arg_same (codes "fix_ip_address") args,
        )
        refl

  has_url : (s : Bytes) → s ≢ [] → is_empty s ≡ false
  has_url [] h = absurd (h refl)
  has_url (c ∷ s) h = refl

  -- What the restart leads to: the webhook is set up with the settings `w`, for the query.
  pub record Restored (w : Settings) (q : Asked) (r : Option (Receiving S U)) : Type 0 where
    pub after : Receiving S U
    pub succeeds : r ≡ some after
    pub same_settings : after.settings ≡ w
    pub has_webhook : after.has_webhook ≡ true
    pub verifies : after.webhook_query_type ≡ verify
    pub waits : after.webhook_set_query ≡ some q

  module _ (is_text : IsTextLibrary lib.text)
      (decodes : (n : ℕ)
        → lib.json_decode (lib.text.decimal n) ≡ some (number_value (lib.text.decimal n)))
      (reads : (n : ℕ) → n < 2 ^ 64 → lib.to_integer_safe (lib.text.decimal n) ≡ some n) where
    module _ (w : Settings) (ok : IsAccepted w) where
      abbrev saved_args : Args
      saved_args = restore_args lib.text (save_webhook lib.text default_allowed_update_types w)

      url_back : Q.arg (codes "url") saved_args ≡ w.url
      url_back =
          arg_same (codes "url") saved_args
          ∙ (ap (W.arg (codes "url")) (
                restore_args-save_webhook lib.text is_text default_allowed_update_types w
                  ok.storable)
              ∙ arg_url lib.text is_text default_allowed_update_types w ok.storable)

      secret_back : Q.arg (codes "secret_token") saved_args ≡ w.secret_token
      secret_back =
          arg_same (codes "secret_token") saved_args
          ∙ (ap (W.arg (codes "secret_token")) (
                restore_args-save_webhook lib.text is_text default_allowed_update_types w
                  ok.storable)
              ∙ arg_secret lib.text is_text default_allowed_update_types w ok.storable)

      restart-Restored :
          (queue : S) (stored : Option Bytes) (now id : ℕ)
          → Restored w
              (record { id = id; request = restore_query saved_args })
              (process_set_webhook_query lib now
                (record { id = id; request = restore_query saved_args })
                (opened lib queue default_allowed_update_types stored))
      restart-Restored queue stored now id =
          let fits : ltb 256 (length w.secret_token) ≡ false = ground (arith, ok.secret_fits) in
          let (updates, e) =
            process_fresh queue stored now id saved_args
              (ap is_empty url_back ∙ has_url w.url ok.storable.url_nonempty)
              (ap lib.parses_url url_back ∙ ok.url_parses)
              (ap (λ s. ltb 256 (length s)) secret_back ∙ fits)
              (ap lib.is_base64url_characters secret_back ∙ ok.secret_allowed) in
          record {
            after = _;
            succeeds = e;
            same_settings =
                asked_settings-settings_of saved_args
                  (opened lib queue default_allowed_update_types stored).settings
                ∙ settings_of-restore lib.text is_text default_allowed_update_types w ok.storable
                    lib.local_mode lib.default_max_webhook_connections lib.json_decode
                    lib.to_integer_safe decodes reads ok.some_types ok.types_fit ok.some_connections
                    ok.connections_fit;
            has_webhook = refl;
            verifies = refl;
            waits = refl;
          }

      -- After a lawful run of a client that was just started, let the client be open, let no query be
      -- setting a webhook, and let the settings `w` in force be accepted ones (`IsAccepted`). Then the
      -- webhook database has a text for which the restarted client, whose mask is the default one,
      -- handles the query of `get_webhook_restore_query` without a failed `CHECK`: it sets up a
      -- webhook with exactly the settings `w`, and the query waits for its verification. A decimal
      -- number is JSON of itself, and is read as it was printed if it has 64 bits.
      pub run-Restored :
          IsTdlib lib
          → (queue later : S) (mask : ℕ) (stored : Option Bytes) (es : List (ℕ × ℕ × Event))
            (s : Receiving S U) (now id : ℕ)
          → Lawful lib (opened lib queue mask stored) es
          → run lib es (opened lib queue mask stored) ≡ some s
          → s.has_td_client ≡ true
          → s.webhook_set_query ≡ none
          → s.settings ≡ w
          → (v : Bytes) × (s.stored ≡ some v)
            × Restored w
                (record { id = id; request = restore_query (restore_args lib.text v) })
                (process_set_webhook_query lib now
                  (record { id = id; request = restore_query (restore_args lib.text v) })
                  (opened lib later default_allowed_update_types (some v)))
      run-Restored is queue later mask stored es s now id l e connected unset same =
          let x = run-Exclusive lib is queue mask stored es s l e in
          (
            save_webhook lib.text default_allowed_update_types w,
            x.2 connected (ap (λ w. is_empty w.url) same ∙ has_url w.url ok.storable.url_nonempty)
                  unset
                ∙ ap (λ w. some (save_webhook lib.text default_allowed_update_types w)) same,
            restart-Restored later (some (save_webhook lib.text default_allowed_update_types w)) now
                id,
          )
