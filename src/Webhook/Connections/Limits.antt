-- ===== src/Webhook/Connections/Limits.antt =====
-- There are never more connections and sockets than the webhook may have.
use core_telegram_api.Common.{
  ℕ, zero, suc, ◌+◌, ◌≤◌, ◌<◌, ◌≡◌, refl, ap, ◌∙◌, inl, inr, Bool, true, false, not, ◌||◌, Option,
  some, arith, ltb, leb, Bool-cases, nat_eq, bytes_eq, int_eq,
}
use core_telegram_api.Webhook.Connections.{
  Flood, Attempt, proxy_failed, proxy_pending, socket_failed, stream_failed, connected, Links,
  relax_wakeup, on_error, report, create_webhook_error, verify, connect, create_connection,
  need_connections, is_active, flood_of, count_event, open_sockets, use_sockets, drop_ready,
  then_use, create_new_connections, on_socket_ready_async,
}

module _ {F : Type 0} where
  -- The connections and the sockets that may become connections.
  abbrev pub total : Links F → ℕ
  total l = l.connections + l.pending_sockets + l.ready_sockets

  abbrev pub linked : Links F → ℕ
  linked l = l.connections + l.pending_sockets

module _ {F : Type 0} (flood : Flood F) where
  counts_error :
      (l : Links F)
      → ((create_webhook_error flood l).connections ≡ l.connections)
        × ((create_webhook_error flood l).pending_sockets ≡ l.pending_sockets)
        × ((create_webhook_error flood l).ready_sockets ≡ l.ready_sockets)
        × ((create_webhook_error flood l).max_connections ≡ l.max_connections)
  unfolding create_webhook_error on_error report
  counts_error l = (ground arith, ground arith, ground arith, ground arith)

  -- The counts after an attempt: at most one more, and exactly one more after a success.
  abbrev Grows : ℕ → Links F → Bool × Links F → Type 0
  Grows n l r =
      (total r.1 ≤ n + 1)
      × (r.0 ≡ true → total r.1 ≡ n + 1)
      × (r.1.max_connections ≡ l.max_connections)

  verify_same :
      (l : Links F)
      → (total (verify flood l) ≡ total l)
        × ((verify flood l).max_connections ≡ l.max_connections)
        × ((verify flood l).connections ≡ l.connections)
        × ((verify flood l).pending_sockets ≡ l.pending_sockets)
        × ((verify flood l).ready_sockets ≡ l.ready_sockets)
  unfolding verify
  verify_same l = (ground arith, ground arith, ground arith, ground arith, ground arith)

  connect-Grows : (made : Bool) (l : Links F) → Grows (total l) l (connect flood made l)
  unfolding connect
  connect-Grows true l =
      let (t, m, c, p, r) = verify_same (record l { connections = l.connections + 1 }) in
      (omega (arith, t), λ h. omega (arith, t), m)
  connect-Grows false l =
      let (c, p, r, m) = counts_error l in (omega (arith, c, p, r), (λ h. ground (arith, h)), m)

  create_connection-Grows :
      (a : Attempt) (l : Links F) → Grows (total l) l (create_connection flood a l)
  unfolding create_connection
  create_connection-Grows proxy_failed l =
      let (c, p, r, m) = counts_error l in (omega (arith, c, p, r), (λ h. ground (arith, h)), m)
  create_connection-Grows proxy_pending l =
      let (t, m, c, p, r) = verify_same l in (omega (arith, c, p, r), (λ h. ground (arith, h)), m)
  create_connection-Grows socket_failed l =
      let (c, p, r, m) = counts_error l in (omega (arith, c, p, r), (λ h. ground (arith, h)), m)
  create_connection-Grows stream_failed l = connect-Grows false l
  create_connection-Grows connected l = connect-Grows true l

  relax_same :
      (t : ℕ) (l : Links F)
      → (total (relax_wakeup flood t l) ≡ total l)
        × ((relax_wakeup flood t l).max_connections ≡ l.max_connections)
  unfolding relax_wakeup
  relax_same t l = (ground arith, ground arith)

  count_same :
      (active : Bool) (now : ℕ) (l : Links F)
      → (total (count_event flood active now l) ≡ total l)
        × ((count_event flood active now l).max_connections ≡ l.max_connections)
  count_same true now l = (refl, refl)
  count_same false now l = (refl, refl)

  module _ (attempt : ℕ → Attempt) (active : Bool) (now need m : ℕ) (fits : need ≤ m) where
    abbrev Opened : Links F → Option (Bool × Links F) → Type 0
    Opened l r =
        (b : Bool) × (l' : Links F) × (r ≡ some (b, l'))
        × (total l' ≤ m)
        × (l'.max_connections ≡ l.max_connections)

    open_sockets-Opened :
        (f : ℕ) (l : Links F)
        → 0 < f
        → need < total l + f
        → total l ≤ m
        → Opened l (open_sockets flood f attempt active now need l)
    unfolding open_sockets
    open_sockets-Opened zero l p h t = elim p [ ]
    open_sockets-Opened (suc f) l p h t =
        elim (Bool-cases (leb need (l.connections + l.pending_sockets + l.ready_sockets))) [
          | inl enough ↦ (true, l, ground (arith, enough), t, refl)
          | inr more ↦ elim (Bool-cases (ltb now (flood.get_wakeup_at (flood_of flood active l)))) [
            | inl limited ↦
                let w = flood.get_wakeup_at (flood_of flood active l) in
                let (same, limit) = relax_same w l in
                (
                  true,
                  relax_wakeup flood w l,
                  ground (arith, more, limited),
                  omega (arith, same, t),
                  limit,
                )
            | inr allowed ↦
                let l' = count_event flood active now l in
                let r = create_connection flood (attempt f) l' in
                let (same, limit) = count_same active now l in
                let (most, exact, kept) = create_connection-Grows (attempt f) l' in
                let below : total l < need = ground (arith, more) in
                elim (Bool-cases r.0) [
                  | inl made ↦
                      let (b, x, e, bound, last) =
                        open_sockets-Opened f r.1 (omega (arith, below, h))
                          (omega (arith, exact made, same, h))
                          (omega (arith, exact made, same, below, fits)) in
                      (b, x, ground (arith, more, allowed, made, e), bound, last ∙ kept ∙ limit)
                  | inr failed ↦
                      let (same', limit') = relax_same (now + 1000000000) r.1 in
                      (
                        false,
                        relax_wakeup flood (now + 1000000000) r.1,
                        ground (arith, more, allowed, failed),
                        omega (arith, same', most, same, below, fits),
                        limit' ∙ kept ∙ limit,
                      )
                ]
          ]
        ]

  connect_ready :
      (made : Bool) (l : Links F) → (connect flood made l).1.ready_sockets ≡ l.ready_sockets
  unfolding connect
  connect_ready true l = (verify_same (record l { connections = l.connections + 1 })).4
  connect_ready false l = (counts_error l).2

  use_sockets-Bounded :
      (n : ℕ) (stream : ℕ → Bool) (now need : ℕ) (l : Links F)
      → l.ready_sockets ≡ n
      → (total (use_sockets flood n stream now need l) ≤ total l)
        × ((use_sockets flood n stream now need l).max_connections ≡ l.max_connections)
  unfolding use_sockets
  use_sockets-Bounded zero stream now need l e = (omega arith, refl)
  use_sockets-Bounded (suc n) stream now need l e =
      let r = connect flood (stream n) (record l { ready_sockets = n }) in
      let (most, exact, kept) = connect-Grows (stream n) (record l { ready_sockets = n }) in
      let (least, last) =
        use_sockets-Bounded n stream now need r.1
          (connect_ready (stream n) (record l { ready_sockets = n })) in
      let (same, limit) = relax_same (now + 1000000000) r.1 in
      let fewer : total r.1 ≤ total l = omega (arith, most, e) in
      elim (Bool-cases (leb need (l.connections + l.pending_sockets))) [
        | inl enough ↦ rw enough (omega arith, refl)
        | inr more ↦ elim (Bool-cases r.0) [
          | inl made ↦ rw (more, made) (omega (arith, least, fewer), last ∙ kept)
          | inr failed ↦ rw (more, failed) (omega (arith, same, fewer), limit ∙ kept)
        ]
      ]

  need_connections_bounds :
      (now queue_count : ℕ) (l : Links F)
      → 1 ≤ l.max_connections
      → need_connections flood now queue_count l ≤ l.max_connections
  unfolding need_connections
  need_connections_bounds now queue_count l h = ground (arith, h)

  -- What `create_new_connections` leads to: it succeeds, within the number of connections that the
  -- webhook may have.
  pub record Limited (l : Links F) (r : Option (Links F)) : Type 0 where
    pub after : Links F
    pub succeeds : r ≡ some after
    pub within : total after ≤ after.max_connections
    pub same_limit : after.max_connections ≡ l.max_connections

  -- When the connections, the pending and the ready sockets are at most `max_connections`, which is
  -- at least one, `create_new_connections` ends within its fuel, and they are so again.
  pub create_new_connections-Limited :
      (attempt : ℕ → Attempt) (stream : ℕ → Bool) (now queue_count : ℕ) (l : Links F)
      → 1 ≤ l.max_connections
      → total l ≤ l.max_connections
      → Limited l (create_new_connections flood attempt stream now queue_count l)
  unfolding create_new_connections
  create_new_connections-Limited attempt stream now queue_count l h t =
      elim (Bool-cases (not l.has_ip_address || not l.is_ssl_ready)) [
        | inl waiting ↦ record {
          after = l;
          succeeds = ground (arith, waiting);
          within = t;
          same_limit = refl;
        }
        | inr prepared ↦
            let need = need_connections flood now queue_count l in
            let (b, x, e, bound, same) =
              open_sockets-Opened attempt (is_active flood now l) now need l.max_connections
                (need_connections_bounds now queue_count l h) (need + 1) l (omega arith)
                (omega arith) t in
            go b x (rw prepared (ap (then_use flood stream now need) e)) bound same
      ]
    where
      go :
          (b : Bool) (x : Links F)
          → create_new_connections flood attempt stream now queue_count l
            ≡ then_use flood stream now (need_connections flood now queue_count l) (some (b, x))
          → total x ≤ l.max_connections
          → x.max_connections ≡ l.max_connections
          → Limited l (create_new_connections flood attempt stream now queue_count l)
      go false x e bound same = record {
        after = x;
        succeeds = e;
        within = omega (arith, bound, same);
        same_limit = same;
      }
      go true x e bound same =
          let need = need_connections flood now queue_count l in
          let (fewer, kept) = use_sockets-Bounded x.ready_sockets stream now need x refl in
          record {
            after = drop_ready flood (use_sockets flood x.ready_sockets stream now need x);
            succeeds = e;
            within = omega (arith, fewer, kept, bound, same);
            same_limit = kept ∙ same;
          }

  -- A pending socket that becomes ready or fails leaves the connections within the limit.
  pub on_socket_ready_async-total :
      (is_ok : Bool) (l : Links F)
      → 0 < l.pending_sockets
      → total l ≤ l.max_connections
      → total (on_socket_ready_async flood is_ok l)
        ≤ (on_socket_ready_async flood is_ok l).max_connections
  unfolding on_socket_ready_async on_error report
  on_socket_ready_async-total is_ok l h t = ground (arith, h, t)
