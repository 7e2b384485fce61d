-- ===== src/Receiving/Closing.antt =====
-- The end of a client: the part of `on_closed` and `finish_closing` in telegram-bot-api/Client.cpp
-- that concerns its updates.
use core_telegram_api.Common.{
  ℕ, true, false, not, ◌&&◌, ◌||◌, Option, none, some, if◌then◌else◌, nat_eq, bytes_eq, int_eq,
}
use core_telegram_api.WebhookInfo.{is_empty}
use core_telegram_api.Receiving.{
  Asked, Tdlib, Receiving, is_present, is_closing, fail_query_closing,
}
use core_telegram_api.Receiving.Webhook.{clear_updates}
use core_telegram_api.Receiving.Updates.{long_poll_wakeup}

module _ {Q U : Type 0} (lib : Tdlib Q U) where
  unfoldable pub close_held : ℕ → Option Asked → Receiving Q U → Option (Receiving Q U)
  unfolding fail_query_closing
  close_held now none s = some s
  close_held now (some q) s = fail_query_closing now q s

  -- `webhook_id_.reset()`, if there is a webhook.
  abbrev pub drop_webhook : Receiving Q U → Receiving Q U
  drop_webhook s = record s {
    has_webhook = if is_empty s.settings.url then s.has_webhook else false;
  }

  abbrev pub drop_stored : Receiving Q U → Receiving Q U
  drop_stored s = record s { stored = if s.logging_out then none else s.stored }

  -- The request for updates that waits gets what there is; one that still waits fails a `CHECK`.
  unfoldable pub close_long_poll : ℕ → ℕ → Receiving Q U → Option (Receiving Q U)
  unfolding long_poll_wakeup
  close_long_poll now date s = elim (long_poll_wakeup lib now date true s) [
    | none ↦ none
    | some t ↦ if is_present t.long_poll_query then none else some (drop_stored t)
  ]

  unfoldable pub on_closed : ℕ → ℕ → Receiving Q U → Option (Receiving Q U)
  unfolding close_held close_long_poll
  on_closed now date s =
      if not (is_closing s) || not s.has_td_client
      then none
      else elim (close_held now s.webhook_set_query
          (record s { has_td_client = false; webhook_set_query = none })) [
            | none ↦ none
            | some t ↦
                elim (close_held now t.active_webhook_set_query
                  (record t { active_webhook_set_query = none })) [
                    | none ↦ none
                    | some u ↦ close_long_poll now date (drop_webhook u)
                  ]
          ]

  -- The part of `finish_closing` for the updates.
  unfoldable pub finish_closing : Receiving Q U → Option (Receiving Q U)
  unfolding clear_updates
  finish_closing s = if s.clear_tqueue && s.logging_out then clear_updates lib s else some s
