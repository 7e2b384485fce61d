-- ===== src/Webhook/Actor/Answers.antt =====
-- `handle`: the answer of the webhook settles the update that its connection carries.
use core_telegram_api.Common.{
  ℕ, ◌+◌, ◌≤◌, ◌≡◌, refl, sym, ap, ◌∙◌, subst, ◌≢◌, inl, inr, Bool, true, false, ◌||◌, Option, none,
  some, List, arith, if◌then◌else◌, Bool-cases, Option-cases, length, nat_eq, bytes_eq, int_eq,
  beq_refl, ℤ, Map, Unique, find, insert, erase, find-insert, find-erase, Unique-insert,
  Unique-erase, count, hit, count-insert, count-erase, count_pos_of_find, Bytes,
}
use core_telegram_api.Webhook.Delivery.{Connection, Delivery, close_connection, release_connection}
use core_telegram_api.Webhook.Delivery.Invariant.{
  Inv, IsSound, Inv-reconnect, Inv-recount, flying, carries, IsIdleReady,
}
use core_telegram_api.Webhook.Delivery.Drop.{drop_event-Dropped, carried_cases}
use core_telegram_api.Webhook.Delivery.Retry.{on_update_error-Retried}
use core_telegram_api.Webhook.Actor.Loading.{IsGoodActor}
use core_telegram_api.Webhook.Actor.{
  Actor, forget, emit, Response, Verdict, Ending, ignored, closes, loops, judge, settle,
  forget_if_dropped, let_go, handle,
}

-- A carried update is carried once.
carried_once : (d : Delivery) (fl : ℕ → ℕ) (e : ℕ) → Inv d fl → fl e ≢ 0 → fl e ≡ 1
carried_once d fl e v h =
    let (u, es, loaded, queued) = carried_cases d fl e v h in
    ground (arith, v.once u.queue_id, queued)

-- The connections after `let_go`.
abbrev let_go_connections : ℕ → Connection → Bool → Map ℕ Connection → Map ℕ Connection
let_go_connections c k closing m =
    if closing then erase c m else insert c (record k { event_id = none; is_ready = true }) m

module _ (m : Map ℕ Connection) (c : ℕ) (k : Connection) (unique : Unique m)
    (there : find c m ≡ some k) where
  counts_let_go :
      (closing : Bool) (x : ℕ)
      → count (carries x) (let_go_connections c k closing m) + hit (carries x) (some k)
        ≡ count (carries x) m
  counts_let_go true x = ground (arith, there, count-erase (carries x) c m unique)
  counts_let_go false x =
      ground
        (arith, there, count-insert (carries x) c (record k { event_id = none; is_ready = true }) m)

  Unique-let_go : (closing : Bool) → Unique (let_go_connections c k closing m)
  Unique-let_go true = Unique-erase c m unique
  Unique-let_go false = Unique-insert c _ m unique

  IsIdleReady-let_go :
      (closing : Bool)
      → ((x : ℕ) (y : Connection) → find x m ≡ some y → IsIdleReady y)
      → (x : ℕ) (y : Connection) → find x (let_go_connections c k closing m) ≡ some y
      → IsIdleReady y
  IsIdleReady-let_go true h x y e = ground (arith, h x y, find-erase c x m)
  IsIdleReady-let_go false h x y e =
      ground (arith, h x y, find-insert c x (record k { event_id = none; is_ready = true }) m)

-- After `let_go` the counts are `fl'`, whatever happened to the updates.
module _ (d : Delivery) (s : IsSound d) (c : ℕ) (k : Connection)
    (there : find c d.connections ≡ some k) (closing : Bool) where
  abbrev fl' : ℕ → ℕ
  fl' x = count (carries x) (let_go_connections c k closing d.connections)

  fl'_lem : (x : ℕ) → fl' x + hit (carries x) (some k) ≡ flying d x
  fl'_lem x = counts_let_go d.connections c k s.unique_ids there closing x

  let_go-IsSound :
      (b : Actor)
      → Inv b.delivery fl'
      → b.connections ≡ d.connections
      → IsSound (let_go c k closing b).delivery
  unfolding let_go close_connection release_connection
  let_go-IsSound b v same = elim (Bool-cases closing) [
    | inl y ↦ rw y (record {
      inv =
          Inv-recount _ fl' _ (λ x. rw (y, same))
            (Inv-reconnect b.delivery fl' (erase c b.connections) b.tqueue_offset v);
      unique_ids = rw same (Unique-erase c d.connections s.unique_ids);
      idle_ready =
          rw same (IsIdleReady-let_go d.connections c k s.unique_ids there true s.idle_ready);
    })
    | inr n ↦ rw n (record {
      inv =
          Inv-recount _ fl' _ (λ x. rw (n, same))
            (Inv-reconnect b.delivery fl'
              (insert c (record k { event_id = none; is_ready = true }) b.connections)
              b.tqueue_offset v);
      unique_ids = rw same (Unique-insert c _ d.connections s.unique_ids);
      idle_ready =
          rw same (IsIdleReady-let_go d.connections c k s.unique_ids there false s.idle_ready);
    })
  ]

  module _ (e : ℕ) (carrying : k.event_id ≡ some e) where
    carried : flying d e ≢ 0
    carried h =
        ground
          (arith, carrying, beq_refl e, h, count_pos_of_find (carries e) c k d.connections there)

    freed : fl' e ≡ 0
    freed =
        ground (arith, carrying, beq_refl e, fl'_lem e, carried_once d (flying d) e s.inv carried)

    others : (x : ℕ) → x ≢ e → fl' x ≡ flying d x
    others x h = ground (arith, carrying, fl'_lem x)

-- The judgement of an answer leaves the updates, the limit and the warnings alone.
judge_keeps :
    (decimal : ℕ → Bytes) (now : ℕ) (k : Connection) (r : Option Response) (a : Actor)
    → let b = (judge decimal now k r a).actor in
      (b.delivery ≡ a.delivery)
      × (b.max_loaded_updates ≡ a.max_loaded_updates)
      × (b.last_pending_update_count ≡ a.last_pending_update_count)
unfolding judge
judge_keeps decimal now k none a = (refl, refl, refl)
judge_keeps decimal now k (some r) a = (ground arith, ground arith, ground arith)

-- What settling the update of a connection leads to.
record Settled (a : Actor) (fl' : ℕ → ℕ) (r : Option Actor) : Type 0 where
  after : Actor
  succeeds : r ≡ some after
  inv : Inv after.delivery fl'
  same_connections : after.connections ≡ a.connections
  fewer : length after.queue_updates ≤ length a.queue_updates
  same_limit : after.max_loaded_updates ≡ a.max_loaded_updates
  same_pending : after.last_pending_update_count ≡ a.last_pending_update_count

module _ (now unix_time max_timeout : ℕ) (v : Verdict) (fl fl' : ℕ → ℕ)
    (i : Inv (v.actor.delivery) fl) where
  settle-idle :
      ((x : ℕ) → fl x ≡ fl' x)
      → v.query_error ≢ none
      → Settled v.actor fl' (settle now unix_time max_timeout v none)
  unfolding settle
  settle-idle h n = go v.query_error refl
    where
      go :
          (o : Option Bytes)
          → v.query_error ≡ o
          → Settled v.actor fl' (settle now unix_time max_timeout v none)
      go none p = absurd (n p)
      go (some error) p = record {
        after = v.actor;
        succeeds = ground (arith, p);
        inv = Inv-recount _ fl fl' h i;
        same_connections = refl;
        fewer = omega arith;
        same_limit = refl;
        same_pending = refl;
      }

  settle-carried :
      (e : ℕ)
      → fl e ≢ 0
      → fl' e ≡ 0
      → ((x : ℕ) → x ≢ e → fl' x ≡ fl x)
      → Settled v.actor fl' (settle now unix_time max_timeout v (some e))
  unfolding settle
  settle-carried e h free others = go v.query_error refl
    where
      go :
          (o : Option Bytes)
          → v.query_error ≡ o
          → Settled v.actor fl' (settle now unix_time max_timeout v (some e))
      go none p =
          let x = drop_event-Dropped v.actor.delivery fl fl' e i h free others in
          record {
            after = emit (forget e) (record (v.actor) {
              delivery = x.after;
              last_update_was_successful = true;
              last_success_time = now;
            });
            succeeds = ground (arith, p, x.succeeds);
            inv = x.inv;
            same_connections = x.dropped.same_connections;
            fewer = x.dropped.fewer;
            same_limit = refl;
            same_pending = refl;
          }
      go (some error) p =
          let x =
            on_update_error-Retried v.actor.delivery fl fl' i e h free others now unix_time
              max_timeout v.retry_after in
          let b : Actor = record (v.actor) {
            delivery = x.after;
            last_update_was_successful = false;
          } in
          record {
            after = forget_if_dropped e b;
            succeeds = ground (arith, p, x.succeeds);
            inv = ground (arith, x.inv, Option-cases (find e b.update_map));
            same_connections =
                ground (arith, x.same_connections, Option-cases (find e b.update_map));
            fewer = ground (arith, x.fewer, Option-cases (find e b.update_map));
            same_limit = ground (arith, Option-cases (find e b.update_map));
            same_pending = ground (arith, Option-cases (find e b.update_map));
          }

-- What `handle` leads to.
pub record Handled (a : Actor) (c : ℕ) (r : Option (Actor × Ending)) : Type 0 where
  pub after : Actor
  pub ending : Ending
  pub succeeds : r ≡ some (after, ending)
  pub good : IsGoodActor after
  pub same_limit : after.max_loaded_updates ≡ a.max_loaded_updates
  pub settled :
      (k : Connection) (e : ℕ)
      → find c a.connections ≡ some k
      → k.event_id ≡ some e
      → flying after.delivery e ≡ 0

let_go_keeps :
    (c : ℕ) (k : Connection) (closing : Bool) (b : Actor)
    → ((let_go c k closing b).queue_updates ≡ b.queue_updates)
      × ((let_go c k closing b).max_loaded_updates ≡ b.max_loaded_updates)
      × ((let_go c k closing b).last_pending_update_count ≡ b.last_pending_update_count)
unfolding let_go close_connection release_connection
let_go_keeps c k closing b = (ground arith, ground arith, ground arith)

flying-let_go :
    (c : ℕ) (k : Connection) (closing : Bool) (b : Actor) (x : ℕ)
    → flying (let_go c k closing b).delivery x
      ≡ count (carries x) (let_go_connections c k closing b.connections)
unfolding let_go close_connection release_connection
flying-let_go c k true b x = refl
flying-let_go c k false b x = refl

module _ (decimal : ℕ → Bytes) (now unix_time max_timeout c : ℕ) (r : Option Response) (a : Actor)
    (g : IsGoodActor a)
    (asked : (k : Connection) → find c a.connections ≡ some k → k.event_id ≡ none → r ≡ none) where
  module _ (k : Connection) (there : find c a.connections ≡ some k) where
    abbrev verdict : Verdict
    verdict = judge decimal now k r a

    abbrev closing : Bool
    closing = verdict.need_close || verdict.close_connection

    kept :
        (verdict.actor.delivery ≡ a.delivery)
        × (verdict.actor.max_loaded_updates ≡ a.max_loaded_updates)
        × (verdict.actor.last_pending_update_count ≡ a.last_pending_update_count)
    kept = judge_keeps decimal now k r a

    abbrev after_counts : ℕ → ℕ
    after_counts = fl' a.delivery g.sound c k there closing

    counts : (x : ℕ) → after_counts x + hit (carries x) (some k) ≡ flying a.delivery x
    counts x = fl'_lem a.delivery g.sound c k there closing x

    judged : Inv (verdict.actor.delivery) (flying a.delivery)
    judged = subst (λ d. Inv d (flying a.delivery)) (sym kept.0) g.sound.inv

    hangup_has_error : r ≡ none → verdict.query_error ≢ none
    hangup_has_error h e = go r h e
      where
        go : (o : Option Response) → o ≡ none → (judge decimal now k o a).query_error ≢ none
        go none p q = unfold judge in cc
        go (some x) p q = cc

    settles :
        (o : Option ℕ)
        → k.event_id ≡ o
        → Settled verdict.actor after_counts (settle now unix_time max_timeout verdict o)
    settles none e =
        settle-idle now unix_time max_timeout verdict (flying a.delivery) after_counts judged
          (λ x. ground (arith, counts x, e)) (hangup_has_error (asked k there e))
    settles (some x) e =
        settle-carried now unix_time max_timeout verdict (flying a.delivery) after_counts judged x
          (carried a.delivery g.sound c k there closing x e)
          (freed a.delivery g.sound c k there closing x e)
          (others a.delivery g.sound c k there closing x e)

    answered : Handled a c (handle decimal now unix_time max_timeout c r a)
    unfolding handle
    answered =
        let t = settles k.event_id refl in
        let b = t.after in
        let same : b.connections ≡ a.connections =
          t.same_connections ∙ ap (λ (d : Delivery). d.connections) kept.0 in
        let (x, y, z) = let_go_keeps c k closing b in
        record {
          after = let_go c k closing b;
          ending = if verdict.need_close then closes else loops;
          succeeds = ground (arith, there, t.succeeds);
          good = record {
            sound = let_go-IsSound a.delivery g.sound c k there closing b t.inv same;
            within = omega (
              arith,
              ap (length {A = ℤ × List ℕ}) x,
              y,
              t.fewer,
              t.same_limit,
              kept.1,
              g.within,
              ap (λ (d : Delivery). length d.queue_updates) kept.0,
            );
            warned = omega (arith, z, t.same_pending, kept.2, g.warned);
          };
          same_limit = y ∙ t.same_limit ∙ kept.1;
          settled = λ k' e h q.
              let p : k ≡ k' = cc in
              flying-let_go c k closing b e
              ∙ ap (λ m. count (carries e) (let_go_connections c k closing m)) same
              ∙ freed a.delivery g.sound c k there closing e (ground (arith, p, q));
        }

  -- `handle` in a sound actor, where a connection that carries nothing can only hang up, fails no
  -- `CHECK`, keeps the actor sound and its limit, and leaves no connection that carries the update
  -- that the answered one carried.
  pub handle-Handled : Handled a c (handle decimal now unix_time max_timeout c r a)
  unfolding handle
  handle-Handled = elim (Option-cases (find c a.connections)) [
    | inr (k, there) ↦ answered k there
    | inl absent ↦ record {
      after = a;
      ending = ignored;
      succeeds = ground (arith, absent);
      good = g;
      same_limit = refl;
      settled = λ k e h q. absurd (ground (arith, absent, h));
    }
  ]
