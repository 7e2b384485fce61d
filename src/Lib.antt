-- ===== src/Lib.antt =====
-- Verification of the core of the Telegram Bot API server.
--
-- A request arrives on an HTTP connection, becomes a query with a promise, and goes through the
-- client manager to the client of its bot. The client keeps the updates of the bot in a queue, and
-- a webhook actor delivers them over HTTP. Every query and every update is counted.
--
-- Which file models which part:
--   * Http, from telegram-bot-api/HttpConnection.cpp: `handle` is `route`, up to the making of the
--     query, with `send_response`, `send_http_error` and `on_query_finished`.
--   * Query, from telegram-bot-api/Query.h and Query.cpp: the life of a query. `delete` is
--     `PromiseDeleter::operator()`.
--   * Stats, from telegram-bot-api/Stats.h and Stats.cpp: the counters of `ServerBotStat` and the
--     active counters of `BotStatActor`.
--   * Manager, from telegram-bot-api/ClientManager.cpp: `send`, `close`, `raw_event`,
--     `hangup_shared` and `finish_close`. Lives adds what its clients report from
--     `on_update_authorization_state` in telegram-bot-api/Client.cpp, and Census has the runs of the
--     manager with its clients.
--   * Errors, from telegram-bot-api/Client.cpp: `fail_query_with_error`.
--   * UpdateTypes, from telegram-bot-api/Client.h and Client.cpp: `get_allowed_update_types`.
--   * Sending, from telegram-bot-api/Client.cpp: the messages on their way. `send_messages` is the
--     end of `do_send_message` and of the requests for several messages, `on_result` the callbacks
--     of these requests, then `on_message_send_succeeded`, `on_message_send_failed` and the part of
--     `on_closed` for them. Opening, Requests and Reports prove its invariant, History has the runs.
--   * Receiving, from telegram-bot-api/Client.cpp: Webhook is `process_set_webhook_query`,
--     `do_set_webhook`, `finish_set_webhook` and the callbacks of the webhook, Updates is
--     `process_get_updates_query`, `do_get_updates`, `JsonUpdates` and `long_poll_wakeup`, Closing
--     the parts of `on_closed` and `finish_closing` for them. The others prove its invariant,
--     History has the runs, and Restart what a restarted client does with the saved webhook.
--   * Downloads, from telegram-bot-api/Client.cpp: the queries that wait for a file, `do_get_file`,
--     `on_file_download`, `on_update_file` and `TdOnDownloadFileCallback`.
--   * Formats, from telegram-bot-api/Client.cpp: `get_date_time_format` and
--     `get_date_time_formatting_type`.
--   * WebhookInfo, from telegram-bot-api/Client.cpp (`save_webhook`, `finish_set_webhook`) and
--     telegram-bot-api/ClientManager.cpp (`get_webhook_restore_query`).
--   * Webhook, from telegram-bot-api/WebhookActor.h and WebhookActor.cpp: Queue is the set
--     `queues_`; Delivery the state and the operations on single updates, `drop_event`,
--     `on_update_error` and `send_update`; Actor the handlers `load_updates`, `send_updates` and
--     `handle`; Connections the creation of connections, which it sees by their number.
--   * Common holds the helpers, and Tests the theorems at concrete inputs.
--
-- How the code is modelled:
--   * A handler is a function on the state. It is given the time, read once, and the answers of
--     other code; what it sends to other actors is a list in its result. A failed `CHECK` is `none`.
--   * Times are whole nanoseconds, and delays whole seconds. Counters do not overflow.
--   * `td::FlatHashMap` and `td::Container` are association lists, and `std::set` a sorted list.
--     A new identifier of a container is an argument.
--   * Update identifiers are natural numbers, as only valid ones occur; queue identifiers are
--     integers. The empty identifier is `none`.
--   * Texts are lists of bytes.
--   * The flood control, the update queue, the parsers, the printing and reading of numbers and of
--     JSON, and the HTTP library are of the submodule td. They are records of functions, or
--     arguments, and what is relied on is a record of laws, such as `IsGoodTqueue`.
--   * The doubling loop of the warning count has fuel for one round more than the size of the queue,
--     which is enough as the count starts at 50 and doubles. The loop of `send_updates` has one
--     round for each ready connection and one more, as each round takes a connection; `fits` says
--     which requests have headers that are accepted. The loop that
--     opens sockets has one round more than the connections that are needed.
--
-- Not modelled: log lines, the memory and the schedulers of objects, TLS, address resolution,
-- the table of request methods and the writers of JSON in Client.cpp, which are calls of the
-- client library, the making of updates, the times of a webhook's setting and last error,
-- business messages and stories, the warnings about pending updates that a client logs or
-- reports, the statistics pages, and the command line in telegram-bot-api/telegram-bot-api.cpp.
pub mod Common
pub mod Webhook
pub mod Stats
pub mod Query
pub mod WebhookInfo
pub mod Manager
pub mod Errors
pub mod Sending
pub mod Receiving
pub mod Downloads
pub mod Formats
pub mod Http
pub mod UpdateTypes
pub mod Tests
