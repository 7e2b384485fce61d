-- ===== src/Tests/Links.antt =====
-- A webhook of two connections, one of which is made.
use core_telegram_api.Common.{ℕ, ◌+◌, ◌≤◌, true, false, [], arith, nat_eq, bytes_eq, int_eq}
use core_telegram_api.Webhook.Connections.{
  Flood, connected, Links, create_new_connections, on_socket_ready_async,
}
use core_telegram_api.Webhook.Connections.Limits.{
  total, Limited, create_new_connections-Limited, on_socket_ready_async-total,
}

-- A flood control that never waits.
abbrev flood : Flood ℕ
flood = record { get_wakeup_at = λ f. 0; add_event = λ now f. f + 1 }

abbrev links : Links ℕ
links = record {
  connections = 0;
  pending_sockets = 1;
  ready_sockets = 1;
  max_connections = 3;
  has_ip_address = true;
  is_ssl_ready = true;
  was_checked = true;
  stop_flag = false;
  last_success_time = 5;
  active_flood = 0;
  pending_flood = 0;
  wakeup_at = 0;
  calls = [];
}

create_new_connections-Limited_example :
    Limited flood links (create_new_connections flood (λ n. connected) (λ n. true) 9 3 links)
create_new_connections-Limited_example =
    create_new_connections-Limited flood (λ n. connected) (λ n. true) 9 3 links (omega arith)
      (omega arith)

on_socket_ready_async-total_example :
    total (on_socket_ready_async flood true links)
    ≤ (on_socket_ready_async flood true links).max_connections
on_socket_ready_async-total_example =
    on_socket_ready_async-total flood true links (omega arith) (omega arith)
