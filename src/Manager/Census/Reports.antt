-- ===== src/Manager/Census/Reports.antt =====
-- What the clients report to their manager.
use core_telegram_api.Common.{
  ℕ, ◌+◌, ◌<◌, ◌≡◌, refl, ap, ◌∙◌, ◌≢◌, ◌⊎◌, inl, inr, Bool, true, false, not, ◌&&◌, ◌||◌, Option,
  none, some, arith, if◌then◌else◌, Bool-cases, ◌==◌, nat_eq, bytes_eq, int_eq, find, insert,
  find-insert, Unique-insert, tally-insert, tally_pos,
}
use core_telegram_api.Manager.{FloodLibrary, ClientInfo, Manager}
use core_telegram_api.Manager.Lives.{
  Life, is_active, Authorization, ready, logging_out, closing, report, become, World, tell,
  with_manager,
}
use core_telegram_api.Manager.Registry.{Inv, Counted, became_active, stopped, activity}
use core_telegram_api.Manager.Census.{queue_in, works, Exact, Goes, a_client}

-- What a report says of the activity of a client.
abbrev pub Fits : Authorization → Life → Option Bool → Type 0
Fits s l none = is_active (become s l) ≡ is_active l
Fits s l (some b) = (is_active (become s l) ≡ b) × (is_active l ≡ not b)

-- A client is ready only before it is logging out or closing.
abbrev pub InOrder : Authorization → Life → Type 0
InOrder ready l = (l.logging_out || l.closing) ≡ false
InOrder logging_out l = Unit
InOrder closing l = Unit

report-Fits : (s : Authorization) (l : Life) → InOrder s l → Fits s l (report s l)
unfolding report
report-Fits ready l h = elim (Bool-cases l.was_authorized) [
  | inl was ↦ rw was (ground (arith, h, was))
  | inr new ↦ rw new (ground (arith, h, new), ground (arith, h, new))
]
report-Fits logging_out l h =
    elim (Bool-cases (not l.logging_out && (l.was_authorized && not l.closing))) [
      | inl first ↦ rw first (ground (arith, first), ground (arith, first))
      | inr later ↦ rw later (ground (arith, later))
    ]
report-Fits closing l h =
    elim (Bool-cases (not l.closing && (l.was_authorized && not l.logging_out))) [
      | inl first ↦ rw first (ground (arith, first), ground (arith, first))
      | inr later ↦ rw later (ground (arith, later))
    ]

become_queue : (s : Authorization) (l : Life) → (become s l).tqueue_id ≡ l.tqueue_id
become_queue ready l = refl
become_queue logging_out l = refl
become_queue closing l = refl

nat_cases : (q p : ℕ) → (q ≡ p) ⊎ (q ≢ p)
nat_cases q p = elim (Bool-cases (q == p)) [
  | inl same ↦ inl (ground (arith, same))
  | inr other ↦ inr (λ h. ground (arith, h, other))
]

module _ (F : FloodLibrary) where
  module _ (id : ℕ) (l : Life) (x : World F) (v : Exact F x)
      (there : find id x.lives ≡ some l) where
    abbrev with_life : Manager F → Life → World F
    with_life m k = record { manager = m; lives = insert id k x.lives }

    changed-Exact :
        (m : Manager F) (k : Life)
        → Inv F m
        → m.clients ≡ x.manager.clients
        → k.tqueue_id ≡ l.tqueue_id
        → ((q : ℕ) → activity F q m + works q id l ≡ activity F q x.manager + works q id k)
        → Exact F (with_life m k)
    changed-Exact m k i same queue sums = record {
      inv = i;
      unique = Unique-insert id k x.lives v.unique;
      known = λ j.
          ground
            (arith, same, queue, there, v.known j, nat_eq.beq_iff id j, find-insert id j k x.lives);
      counted =
          λ q. ground (arith, sums q, v.counted q, there, tally-insert (works q) id k x.lives);
    }

    works_active :
        (q : ℕ) (k : Life)
        → is_active k ≡ true
        → k.tqueue_id ≡ l.tqueue_id
        → works q id k ≡ (if l.tqueue_id == q then 1 else 0)
    works_active q k h e = rw (h, e) refl

    works_idle : (q : ℕ) (k : Life) → is_active k ≡ false → works q id k ≡ 0
    works_idle q k h = rw h refl

    its_queue :
        {b : Bool} {r : Option (Manager F)} (c : Counted F id b x.manager r)
        → c.info.tqueue_id ≡ l.tqueue_id
    its_queue c =
        let (i, listed, queue) =
          a_client F (find id x.manager.clients) l.tqueue_id (v.known id ∙ ap queue_in there) in
        ground (arith, c.was_listed, listed, queue)

    module _ (k : Life) (same_queue : k.tqueue_id ≡ l.tqueue_id) where
      rises :
          {r : Option (Manager F)} (c : Counted F id true x.manager r)
          → is_active k ≡ true
          → is_active l ≡ false
          → (q : ℕ) → activity F q c.after + works q id l ≡ activity F q x.manager + works q id k
      rises c on off q =
          rw (works_active q k on same_queue, works_idle q l off)
            (elim (nat_cases q c.info.tqueue_id) [
              | inl same ↦ ground (arith, same, c.counts, its_queue c, nat_eq.beq_iff l.tqueue_id q)
              | inr other ↦
                  ground (arith, other, c.others q, its_queue c, nat_eq.beq_iff l.tqueue_id q)
            ])

      falls :
          {r : Option (Manager F)} (c : Counted F id false x.manager r)
          → is_active k ≡ false
          → is_active l ≡ true
          → (q : ℕ) → activity F q c.after + works q id l ≡ activity F q x.manager + works q id k
      falls c off on q =
          rw (works_active q l on refl, works_idle q k off)
            (elim (nat_cases q c.info.tqueue_id) [
              | inl same ↦ ground (arith, same, c.counts, its_queue c, nat_eq.beq_iff l.tqueue_id q)
              | inr other ↦
                  ground (arith, other, c.others q, its_queue c, nat_eq.beq_iff l.tqueue_id q)
            ])

    -- An active client is counted.
    is_counted : (p : ℕ) → p ≡ l.tqueue_id → is_active l ≡ true → 0 < activity F p x.manager
    is_counted p e on = ground (
      arith,
      e,
      v.counted p,
      tally_pos (works p) id l x.lives there,
      works_active p l on refl,
      nat_eq.beq_iff l.tqueue_id p,
    )

    module _ (s : Authorization) (ordered : InOrder s l) where
      -- What the client reports succeeds, and the counts stay exact.
      pub changes-Goes :
          Goes F
            (with_manager F (insert id (become s l) x.lives) (tell F id (report s l) x.manager))
      changes-Goes = go (report s l) (report-Fits s l ordered)
        where
          client :
              (i : ClientInfo) × (find id x.manager.clients ≡ some i) × (i.tqueue_id ≡ l.tqueue_id)
          client =
              a_client F (find id x.manager.clients) l.tqueue_id (v.known id ∙ ap queue_in there)

          go :
              (o : Option Bool)
              → Fits s l o
              → Goes F (with_manager F (insert id (become s l) x.lives) (tell F id o x.manager))
          go none f = record {
            after = with_life x.manager (become s l);
            succeeds = refl;
            exact =
                changed-Exact x.manager (become s l) v.inv refl (become_queue s l)
                  (λ q. rw (f, become_queue s l) refl);
          }
          go (some true) (on, off) =
              let c = became_active F id x.manager v.inv client.0 client.1 in
              record {
                after = with_life c.after (become s l);
                succeeds = ap (with_manager F (insert id (become s l) x.lives)) c.succeeds;
                exact =
                    changed-Exact c.after (become s l) c.inv c.same_clients (become_queue s l)
                      (rises (become s l) (become_queue s l) c on off);
              }
          go (some false) (off, on) =
              let c =
                stopped F id x.manager v.inv client.0 client.1
                  (is_counted client.0.tqueue_id client.2 on) in
              record {
                after = with_life c.after (become s l);
                succeeds = ap (with_manager F (insert id (become s l) x.lives)) c.succeeds;
                exact =
                    changed-Exact c.after (become s l) c.inv c.same_clients (become_queue s l)
                      (falls (become s l) (become_queue s l) c off on);
              }
