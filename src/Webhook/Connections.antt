-- ===== src/Webhook/Connections.antt =====
-- The connections to the webhook: how `WebhookActor::create_new_connections`, `create_connection`,
-- `on_socket_ready_async` and `on_error` in telegram-bot-api/WebhookActor.cpp open them, by their
-- number.
pub mod Limits
use core_telegram_api.Common.{
  ℕ, zero, suc, ◌+◌, ◌-◌, ◌*◌, ◌/◌, ◌%◌, ◌^◌, ◌≤◌, ◌<◌, min, max, ◌≡◌, refl, sym, ap, ◌∙◌, subst,
  ◌≢◌, ◌↔◌, ◌⊎◌, inl, inr, Bool, true, false, not, ◌&&◌, ◌||◌, Option, none, some, List, [], ◌∷◌,
  ◌++◌, map, arith, ltb, leb, if◌then◌else◌, ltb→lt, lt→ltb, leb→le, Bool-cases, Option-cases,
  length, take, All, length-append, length-take, Eq, ◌==◌, nat_eq, bytes_eq, int_eq, beq_refl,
  beq_ne, ℤ, pos, negsuc, leℤ, Map, Unique, find, insert, erase, find-insert, find-erase,
  length-insert, length-insert_present, length-erase, Unique-insert, Unique-erase, count, hit,
  count-insert, count-erase, count_pos_of_find, Bytes, codes, is_prefix, prefix_rest, split_at_byte,
  append_nil, is_prefix-append, prefix_rest-append, split_at_byte-append, Lacks, lacks,
}

-- A flood control of tdlib, as far as the loop reads it.
pub record Flood (F : Type 0) : Type 0 where
  pub get_wakeup_at : F → ℕ
  pub add_event : ℕ → F → F

-- How an attempt of `create_connection` goes: the proxy cannot be reached, or a socket is pending
-- there; without a proxy, the socket cannot be opened, the TLS stream cannot be made, or there is a
-- connection.
pub data Attempt : Type 0 where
  proxy_failed proxy_pending socket_failed stream_failed connected : Attempt

-- What the actor sends to its `Callback`.
pub data Call : Type 0 where
  webhook_verified : Call
  webhook_error : Call
  webhook_closed : Call

-- The numbers of connections, of pending sockets and of ready sockets, with the state that their
-- creation depends on. `active_flood` and `pending_flood` are the two flood controls.
pub record Links (F : Type 0) : Type 0 where
  pub connections : ℕ
  pub pending_sockets : ℕ
  pub ready_sockets : ℕ
  pub max_connections : ℕ
  pub has_ip_address : Bool
  pub is_ssl_ready : Bool
  pub was_checked : Bool
  pub stop_flag : Bool
  pub last_success_time : ℕ
  pub active_flood : F
  pub pending_flood : F
  pub wakeup_at : ℕ
  pub calls : List Call

module _ {F : Type 0} (flood : Flood F) where
  open flood use {get_wakeup_at, add_event}

  abbrev pub call : Call → Links F → Links F
  call c l = record l { calls = l.calls ++ c ∷ [] }

  unfoldable pub relax_wakeup : ℕ → Links F → Links F
  relax_wakeup t l = if l.wakeup_at == 0 || ltb t l.wakeup_at then record l { wakeup_at = t } else l

  -- `on_error`: a webhook that was never verified is given up.
  unfoldable pub on_error : Links F → Links F
  on_error l =
      if not l.was_checked && not l.stop_flag
      then record (call webhook_closed l) { stop_flag = true }
      else l

  -- The call of the callback in `on_webhook_error`.
  unfoldable pub report : Links F → Links F
  report l = if l.was_checked then call webhook_error l else l

  -- `create_webhook_error`.
  unfoldable pub create_webhook_error : Links F → Links F
  unfolding on_error report
  create_webhook_error l = on_error (report l)

  -- The end of both kinds of `create_connection`.
  unfoldable pub verify : Links F → Links F
  verify l = if l.was_checked then l else record (call webhook_verified l) { was_checked = true }

  -- `create_connection` for an open socket: whether it is made, and the state.
  unfoldable pub connect : Bool → Links F → Bool × Links F
  unfolding create_webhook_error verify
  connect true l = (true, verify (record l { connections = l.connections + 1 }))
  connect false l = (false, create_webhook_error l)

  -- `create_connection`.
  unfoldable pub create_connection : Attempt → Links F → Bool × Links F
  unfolding connect
  create_connection proxy_failed l = (false, create_webhook_error l)
  create_connection proxy_pending l =
      (false, (λ (m : Links F). record m { pending_sockets = m.pending_sockets + 1 }) (verify l))
  create_connection socket_failed l = (false, create_webhook_error l)
  create_connection stream_failed l = connect false l
  create_connection connected l = connect true l

  -- The target of the loops.
  unfoldable pub need_connections : ℕ → ℕ → Links F → ℕ
  need_connections now queue_count l =
      let wanted = if l.was_checked then min queue_count l.max_connections else 1 in
      if ltb (l.last_success_time + 10 * 1000000000) now then min wanted 1 else max wanted 1

  abbrev pub is_active : ℕ → Links F → Bool
  is_active now l = not (ltb (l.last_success_time + 10 * 1000000000) now)

  abbrev pub flood_of : Bool → Links F → F
  flood_of active l = if active then l.active_flood else l.pending_flood

  abbrev pub count_event : Bool → ℕ → Links F → Links F
  count_event active now l =
      if active
      then record l { active_flood = add_event now l.active_flood }
      else record l { pending_flood = add_event now l.pending_flood }

  -- The first loop, on fuel: whether it ends with no error, and the state. `attempt` gives how the
  -- next attempt goes, by the fuel left.
  unfoldable pub open_sockets : ℕ → (ℕ → Attempt) → Bool → ℕ → ℕ → Links F → Option (Bool × Links F)
  unfolding create_connection relax_wakeup
  open_sockets zero attempt active now need l = none
  open_sockets (suc f) attempt active now need l =
      let r = create_connection (attempt f) (count_event active now l) in
      let rest = open_sockets f attempt active now need r.1 in
      if leb need (l.connections + l.pending_sockets + l.ready_sockets)
      then some (true, l)
      else if ltb now (get_wakeup_at (flood_of active l))
      then some (true, relax_wakeup (get_wakeup_at (flood_of active l)) l)
      else if r.0
      then rest
      else some (false, relax_wakeup (now + 1000000000) r.1)

  -- The second loop: ready sockets become connections. `attempt` says whether the TLS stream of the
  -- next one is made.
  unfoldable pub use_sockets : ℕ → (ℕ → Bool) → ℕ → ℕ → Links F → Links F
  unfolding connect relax_wakeup
  use_sockets zero attempt now need l = l
  use_sockets (suc n) attempt now need l =
      let r = connect (attempt n) (record l { ready_sockets = n }) in
      let rest = use_sockets n attempt now need r.1 in
      if leb need (l.connections + l.pending_sockets)
      then l
      else if r.0
      then rest
      else relax_wakeup (now + 1000000000) r.1

  abbrev pub drop_ready : Links F → Links F
  drop_ready l = record l { ready_sockets = 0 }

  abbrev pub then_use : (ℕ → Bool) → ℕ → ℕ → Option (Bool × Links F) → Option (Links F)
  then_use stream now need none = none
  then_use stream now need (some (false, l)) = some l
  then_use stream now need (some (true, l)) =
      some (drop_ready (use_sockets l.ready_sockets stream now need l))

  -- `create_new_connections`; `queue_count` is the size of `queue_updates_`. The first loop has fuel
  -- for one round more than the connections that are needed.
  unfoldable pub create_new_connections :
      (ℕ → Attempt) → (ℕ → Bool) → ℕ → ℕ → Links F → Option (Links F)
  unfolding open_sockets use_sockets need_connections
  create_new_connections attempt stream now queue_count l =
      if not l.has_ip_address || not l.is_ssl_ready
      then some l
      else then_use stream now (need_connections now queue_count l) (
          open_sockets (need_connections now queue_count l + 1) attempt (is_active now l) now
            (need_connections now queue_count l) l)

  -- `on_socket_ready_async`, before `loop`.
  unfoldable pub on_socket_ready_async : Bool → Links F → Links F
  unfolding on_error report
  on_socket_ready_async is_ok l =
      let m = record l { pending_sockets = l.pending_sockets - 1 } in
      if is_ok then record m { ready_sockets = l.ready_sockets + 1 } else on_error (report m)
