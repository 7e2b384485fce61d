-- ===== src/Receiving/Webhook.antt =====
-- Setting and deleting the webhook: `process_set_webhook_query`, `do_set_webhook`,
-- `finish_set_webhook` and the callbacks of the webhook in telegram-bot-api/Client.cpp.
use core_telegram_api.Common.{
  ℕ, ◌+◌, Bool, true, false, not, ◌&&◌, ◌||◌, Option, none, some, [], ◌++◌, ltb, if◌then◌else◌,
  length, ◌==◌, nat_eq, bytes_eq, int_eq, Bytes, codes, prefix_rest,
}
use core_telegram_api.Query.{Query, HttpFile, arg, has_arg, file}
use core_telegram_api.WebhookInfo.{Settings, is_empty, save_webhook, get_webhook_max_connections}
use core_telegram_api.UpdateTypes.{get_allowed_update_types, default_allowed_update_types}
use core_telegram_api.Manager.{second}
use core_telegram_api.Receiving.{
  Asked, Outcome, answered_true, failed_with, retry_after, Tdlib, WebhookQueryType, cancel, verify,
  Receiving, is_present, to_bool, is_closing, reply, fail_query_closing, fail_query_conflict,
  abort_long_poll,
}

abbrev pub new_url : Asked → Bytes
new_url q = if q.request.method == codes "setwebhook" then arg (codes "url") q.request.args else []

-- `get_webhook_certificate`.
unfoldable pub get_webhook_certificate : Query → Option HttpFile
get_webhook_certificate q = elim (file (codes "certificate") q.files) [
  | some f ↦ some f
  | none ↦ elim (prefix_rest (codes "attach://") (arg (codes "certificate") q.args)) [
    | none ↦ none
    | some name ↦ file name q.files
  ]
]

-- `get_webhook_fix_ip_address`.
unfoldable pub get_webhook_fix_ip_address : Query → Bool
get_webhook_fix_ip_address q =
    if q.is_internal
    then has_arg (codes "fix_ip_address") q.args
    else not (is_empty (arg (codes "ip_address") q.args))

abbrev pub max_certificate_file_size : ℕ
max_certificate_file_size = 3145728

abbrev pub with_certificate : {Q U : Type 0} → Bool → Receiving Q U → Receiving Q U
with_certificate b s = record s { settings = record s.settings { has_certificate = b } }

abbrev pub no_webhook : {Q U : Type 0} → Receiving Q U → Receiving Q U
no_webhook s = record s {
  settings = record {
    has_certificate = false;
    max_connections = 0;
    ip_address = [];
    fix_ip_address = false;
    secret_token = [];
    allowed_update_types = s.settings.allowed_update_types;
    url = [];
  };
  has_webhook = false;
  stored = none;
}

abbrev pub is_verify : WebhookQueryType → Bool
is_verify verify = true
is_verify cancel = false

module _ {Q U : Type 0} (lib : Tdlib Q U) where
  -- `update_allowed_update_types`, as the mask that is allowed after it.
  unfoldable pub update_allowed_update_types : Query → ℕ → ℕ
  update_allowed_update_types q current =
      let allowed =
        get_allowed_update_types lib.json_decode lib.to_integer_safe
          (arg (codes "allowed_updates") q.args) q.is_internal in
      if allowed == 0 then current else allowed

  -- `clear_tqueue`.
  unfoldable pub clear_updates : Receiving Q U → Option (Receiving Q U)
  clear_updates s =
      if s.has_webhook then none else some (record s { updates = lib.clear 0 s.updates })

  -- `save_webhook` into the webhook database.
  unfoldable pub save : Receiving Q U → Receiving Q U
  save s = record s {
    stored = some (save_webhook lib.text default_allowed_update_types s.settings);
  }

  -- The settings that `finish_set_webhook` takes from the query.
  abbrev pub asked_settings : Query → Settings → Settings
  asked_settings q w = record {
    has_certificate = w.has_certificate;
    max_connections =
        get_webhook_max_connections lib.text lib.local_mode lib.default_max_webhook_connections
          q.args;
    ip_address = arg (codes "ip_address") q.args;
    fix_ip_address = get_webhook_fix_ip_address q;
    secret_token = arg (codes "secret_token") q.args;
    allowed_update_types = update_allowed_update_types q w.allowed_update_types;
    url = arg (codes "url") q.args;
  }

  -- `finish_set_webhook`.
  unfoldable pub finish_set_webhook : ℕ → Asked → Receiving Q U → Option (Receiving Q U)
  unfolding fail_query_closing
  finish_set_webhook now q s =
      if is_present s.active_webhook_set_query
        || (is_present s.webhook_set_query || not (is_empty s.settings.url))
      then none
      else if is_closing s
      then fail_query_closing now q s
      else if is_empty (arg (codes "url") q.request.args)
          || not (lib.parses_url (arg (codes "url") q.request.args))
      then none
      else some (record s {
        settings = asked_settings q.request s.settings;
        has_webhook = true;
        webhook_query_type = verify;
        webhook_set_query = some q;
      })

  abbrev pub too_big : ℕ → Outcome U
  too_big size = failed_with 400 (
      codes "Bad Request: certificate size is too big ("
      ++ (lib.text.decimal size ++ codes " bytes)"))

  -- The certificate of a query: one that was there before, none, or a file that is to be copied.
  unfoldable pub take_certificate : ℕ → Asked → Receiving Q U → Option (Receiving Q U)
  unfolding finish_set_webhook
  take_certificate now q s =
      if q.request.is_internal
      then finish_set_webhook now q
          (with_certificate (arg (codes "certificate") q.request.args == codes "previous") s)
      else elim (get_webhook_certificate q.request) [
        | none ↦ finish_set_webhook now q s
        | some f ↦
            if ltb max_certificate_file_size f.size
            then some (reply q (too_big f.size) s)
            else if is_present s.webhook_set_query
            then none
            else some (record s { active_webhook_set_query = some q })
      ]

  -- The part of `do_set_webhook` for an address.
  unfoldable pub start_webhook : ℕ → Asked → Receiving Q U → Option (Receiving Q U)
  unfolding take_certificate
  start_webhook now q s =
      if not (lib.parses_url (new_url q))
      then some (reply q (failed_with 400 (codes "Bad Request: invalid webhook URL specified")) s)
      else if ltb 256 (length (arg (codes "secret_token") q.request.args))
      then some (reply q (failed_with 400 (codes "Bad Request: secret token is too long")) s)
      else if not (lib.is_base64url_characters (arg (codes "secret_token") q.request.args))
      then some (
          reply q
            (failed_with 400 (codes "Bad Request: secret token contains unallowed characters")) s)
      else if is_present s.active_webhook_set_query
      then some (reply q (retry_after 1) s)
      else if s.settings.has_certificate
      then none
      else take_certificate now q s

  abbrev pub drops : Asked → Bool
  drops q = to_bool lib (arg (codes "drop_pending_updates") q.request.args)

  -- `do_set_webhook`.
  unfoldable pub do_set_webhook : ℕ → Bool → Asked → Receiving Q U → Option (Receiving Q U)
  unfolding fail_query_closing clear_updates start_webhook
  do_set_webhook now was_deleted q s =
      if not (is_empty s.settings.url)
      then none
      else if is_closing s
      then fail_query_closing now q s
      else elim (if drops q then clear_updates s else some s) [
        | none ↦ none
        | some t ↦
            if is_empty (new_url q)
            then some (
                reply q
                  (answered_true (
                    if was_deleted
                    then codes "Webhook was deleted"
                    else codes "Webhook is already deleted"))
                  t)
            else start_webhook now q t
      ]

  -- Whether a query changes nothing.
  unfoldable pub is_unmodified : Asked → Settings → Bool
  unfolding get_webhook_certificate get_webhook_fix_ip_address
  is_unmodified q w =
      let url = new_url q in
      let has_url = not (is_empty url) in
      let args = q.request.args in
      let certificate =
        has_url
        && (is_present (get_webhook_certificate q.request)
            || (q.request.is_internal && arg (codes "certificate") args == codes "previous")) in
      let connections =
        if has_url
        then get_webhook_max_connections lib.text lib.local_mode lib.default_max_webhook_connections
            args
        else 0 in
      let ip_address = if has_url then arg (codes "ip_address") args else [] in
      let fix_ip_address = has_url && get_webhook_fix_ip_address q.request in
      let secret_token = if has_url then arg (codes "secret_token") args else [] in
      w.url == url
      && (not w.has_certificate
          && (not certificate
              && (connections == w.max_connections
                  && ((fix_ip_address && w.fix_ip_address
                        || not fix_ip_address && not w.fix_ip_address)
                      && (secret_token == w.secret_token
                          && ((not fix_ip_address || ip_address == w.ip_address)
                              && not (drops q)))))))

  -- A query that changes nothing, except for the allowed updates.
  unfoldable pub keep_webhook : Asked → Receiving Q U → Receiving Q U
  unfolding save
  keep_webhook q s =
      let allowed = update_allowed_update_types q.request s.settings.allowed_update_types in
      reply q
        (answered_true (
          if is_empty (new_url q)
          then codes "Webhook is already deleted"
          else codes "Webhook is already set"))
        (if allowed == s.settings.allowed_update_types
          then s
          else save (record s { settings = record s.settings { allowed_update_types = allowed } }))

  -- The end of `process_set_webhook_query`: an old webhook is closed first.
  unfoldable pub close_old_webhook : ℕ → Asked → Receiving Q U → Option (Receiving Q U)
  unfolding do_set_webhook
  close_old_webhook now q s =
      let t = record s { webhook_generation = s.webhook_generation + 1 } in
      if not (is_empty s.settings.url)
      then if is_present s.active_webhook_set_query
        then none
        else some (record t {
          has_webhook = false;
          webhook_query_type = cancel;
          webhook_set_query = some q;
        })
      else do_set_webhook now false q t

  unfoldable pub replace_webhook : ℕ → Asked → Receiving Q U → Option (Receiving Q U)
  unfolding close_old_webhook
  replace_webhook now q s =
      close_old_webhook now q (if is_empty (new_url q) then s else abort_long_poll now true s)

  unfoldable pub admit_webhook : ℕ → Asked → Receiving Q U → Option (Receiving Q U)
  unfolding fail_query_conflict is_unmodified keep_webhook replace_webhook
  admit_webhook now q s = elim s.webhook_set_query [
    | some old ↦ replace_webhook now q (
        fail_query_conflict now (codes "Conflict: terminated by other setWebhook") old
          (record s { webhook_set_query = none }))
    | none ↦
        if is_present s.active_webhook_set_query
        then some (reply q (retry_after 1) s)
        else if is_unmodified q s.settings
        then some (keep_webhook q s)
        else replace_webhook now q s
  ]

  -- `process_set_webhook_query`.
  unfoldable pub process_set_webhook_query : ℕ → Asked → Receiving Q U → Option (Receiving Q U)
  unfolding admit_webhook
  process_set_webhook_query now q s =
      if not (is_empty (new_url q)) && not q.request.is_internal
      then if ltb now s.next_allowed_set_webhook_time
        then some (reply q (retry_after 1) s)
        else admit_webhook now q (record s { next_allowed_set_webhook_time = now + second })
      else admit_webhook now q s

  -- `webhook_verified`; `token` is `get_link_token()`.
  unfoldable pub webhook_verified : ℕ → Bytes → Receiving Q U → Receiving Q U
  unfolding save
  webhook_verified token ip_address s =
      if not (token == s.webhook_generation)
      then s
      else let t = record s { settings = record s.settings { ip_address = ip_address } } in
        elim s.webhook_set_query [
          | some q ↦ save (
              reply q (answered_true (codes "Webhook was set"))
                (record t { webhook_set_query = none }))
          | none ↦ if ip_address == s.settings.ip_address then t else save t
        ]

  -- `on_webhook_closed`; `message` is that of the status.
  unfoldable pub on_webhook_closed : ℕ → Bytes → Receiving Q U → Option (Receiving Q U)
  unfolding do_set_webhook
  on_webhook_closed now message s = elim s.webhook_set_query [
    | none ↦ some (no_webhook s)
    | some q ↦
        let t = record (no_webhook s) { webhook_set_query = none } in
        if is_verify s.webhook_query_type
        then some (reply q (failed_with 400 (codes "Bad Request: bad webhook: " ++ message)) t)
        else do_set_webhook now true q t
  ]

  -- `webhook_closed`: the certificate is deleted in another thread, which calls `on_webhook_closed`.
  unfoldable pub webhook_closed : ℕ → Bytes → Receiving Q U → Option (Receiving Q U)
  unfolding on_webhook_closed
  webhook_closed now message s =
      if s.settings.has_certificate then some s else on_webhook_closed now message s

  -- `on_webhook_certificate_copied`.
  unfoldable pub on_webhook_certificate_copied : ℕ → Bool → Receiving Q U → Option (Receiving Q U)
  unfolding finish_set_webhook
  on_webhook_certificate_copied now is_error s = elim s.active_webhook_set_query [
    | none ↦ none
    | some q ↦
        let t = record s { active_webhook_set_query = none } in
        if is_error
        then some (
            reply q (failed_with 500 (codes "Internal Server Error: failed to save certificate")) t)
        else finish_set_webhook now q (with_certificate true t)
  ]
