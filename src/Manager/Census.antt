-- ===== src/Manager/Census.antt =====
-- The manager counts its active clients, and knows each client until it ends.
pub mod Reports
pub mod Ends
pub mod History
use core_telegram_api.Common.{
  ℕ, ◌-◌, ◌≡◌, refl, ap, ◌∙◌, subst, inl, inr, Bool, false, ◌&&◌, Option, none, some, arith,
  if◌then◌else◌, Bool-cases, Option-cases, ◌==◌, nat_eq, bytes_eq, int_eq, ℤ, Unique, find,
  find-insert, Unique-insert, tally, tally-insert, Bytes, codes,
}
use core_telegram_api.Manager.{
  FloodLibrary, Query, ClientInfo, Answer, closing, failed, forwarded, Parsed, user, rejected,
  parse_token, client_key, get_tqueue_id, Manager, send, close, create_client, start_client,
  unless_limited, check_address, check_global,
}
use core_telegram_api.Manager.Lives.{Life, is_active, newborn, World, ask, born, step}
use core_telegram_api.Manager.Registry.{
  Inv, check_address_same, check_global_same, send-Served, activity,
}

abbrev pub queue_of : Option ClientInfo → Option ℕ
queue_of none = none
queue_of (some i) = some i.tqueue_id

abbrev pub queue_in : Option Life → Option ℕ
queue_in none = none
queue_in (some l) = some l.tqueue_id

abbrev pub works : ℕ → ℕ → Life → ℕ
works q id l = if is_active l && l.tqueue_id == q then 1 else 0

module _ (F : FloodLibrary) where
  -- The manager knows exactly the clients that live, and counts the active ones of each queue.
  pub record Exact (x : World F) : Type 0 where
    pub inv : Inv F x.manager
    pub unique : Unique x.lives
    pub known : (id : ℕ) → queue_of (find id x.manager.clients) ≡ queue_in (find id x.lives)
    pub counted : (q : ℕ) → activity F q x.manager ≡ tally (works q) x.lives

  -- A query adds at most the client `id`.
  pub record Grown (id : ℕ) (m m' : Manager F) : Type 0 where
    pub others : (j : ℕ) → (id == j) ≡ false → find j m'.clients ≡ find j m.clients
    pub counts : m'.active_client_count ≡ m.active_client_count

  same-Grown :
      (id : ℕ) (m m' : Manager F)
      → m'.clients ≡ m.clients
      → m'.active_client_count ≡ m.active_client_count
      → Grown id m m'
  same-Grown id m m' c n = record { others = λ j h. ap (find j) c; counts = n }

  module _ (now id u : ℕ) (w : Option Bytes) (q : Query) where
    create_client-Grown : (m : Manager F) → Grown id m (create_client F id w u q m).1
    unfolding create_client
    create_client-Grown m = record {
      others = λ j h. ground (
        arith,
        h,
        find-insert id j (record { token = client_key q; tqueue_id = get_tqueue_id u q.is_test_dc })
            m.clients,
      );
      counts = refl;
    }

    Grown-trans : (m m' m'' : Manager F) → Grown id m m' → Grown id m' m'' → Grown id m m''
    Grown-trans m m' m'' g h = record {
      others = λ j n. h.others j n ∙ g.others j n;
      counts = h.counts ∙ g.counts;
    }

    unless_limited-Grown :
        (o : Option ℕ) (m : Manager F) (go_on : Manager F → Answer × Manager F)
        → Grown id m (go_on m).1
        → Grown id m (unless_limited F o m go_on).1
    unless_limited-Grown none m k h = h
    unless_limited-Grown (some s) m k h = same-Grown id m m refl refl

    start_client-Grown : (m : Manager F) → Grown id m (start_client F now id w u q m).1
    unfolding start_client
    start_client-Grown m =
        let (c₁, t₁, a₁) = check_address_same F now q.ip_address m in
        let m₁ = (check_address F now q.ip_address m).1 in
        let (c₂, t₂, a₂) = check_global_same F now m₁ in
        let m₂ = (check_global F now m₁).1 in
        let x = Grown-trans m₁ m₂ _ (same-Grown id m₁ m₂ c₂ a₂) (create_client-Grown m₂) in
        let y =
          unless_limited-Grown (check_global F now m₁).0 m₂ (λ m₂. create_client F id w u q m₂)
            (create_client-Grown m₂) in
        let z =
          unless_limited-Grown (check_address F now q.ip_address m).0 m₁
            (λ m₁.
              unless_limited F (check_global F now m₁).0 (check_global F now m₁).1
                (λ m₂. create_client F id w u q m₂))
            (Grown-trans m₁ m₂ _ (same-Grown id m₁ m₂ c₂ a₂) y) in
        elim (Bool-cases (q.method == codes "close")) [
          | inl closes ↦ rw closes (same-Grown id m m refl refl)
          | inr other ↦ rw other (Grown-trans m m₁ _ (same-Grown id m m₁ c₁ a₁) z)
        ]

  module _ (to_integer_safe : Bytes → Option ℤ) (token_range : ℤ → Bool) (now id : ℕ)
      (w : Option Bytes) (q : Query) (m : Manager F) (a : Answer) (m' : Manager F) where
    abbrev target : Option (Answer × Manager F)
    target = some (a, m')

    comes : (r : Answer × Manager F) → Grown id m r.1 → some r ≡ target → Grown id m m'
    comes (b, n) g e = let same : n ≡ m' = ground (arith, e) in subst (Grown id m) same g

    -- The client that the index names.
    abbrev known_client : ℕ → Option (Answer × Manager F)
    known_client i = elim (find i m.clients) [
      | none ↦ none
      | some info ↦ some (forwarded i none, m)
    ]

    known_client-Grown : (i : ℕ) → known_client i ≡ target → Grown id m m'
    known_client-Grown i h = elim (Option-cases (find i m.clients)) [
      | inl lost ↦ absurd (ground (arith, h, lost))
      | inr (info, there) ↦
          comes (forwarded i none, m) (same-Grown id m m refl refl) (ground (arith, h, there))
    ]

    user-Grown :
        (u : ℕ) (o : Option ℕ)
        → find (client_key q) m.token_to_id ≡ o
        → m.close_flag ≡ false
        → parse_token to_integer_safe token_range q.token ≡ user u
        → send F to_integer_safe token_range now id w q m ≡ target
        → Grown id m m'
    unfolding send
    user-Grown u none absent o p h =
        comes (start_client F now id w u q m) (start_client-Grown now id u w q m)
          (ground (arith, h, absent, o, p))
    user-Grown u (some i) there o p h = known_client-Grown i (ground (arith, h, there, o, p))

    parsed-Grown :
        (p : Parsed)
        → m.close_flag ≡ false
        → parse_token to_integer_safe token_range q.token ≡ p
        → send F to_integer_safe token_range now id w q m ≡ target
        → Grown id m m'
    unfolding send
    parsed-Grown (rejected code text) o p h =
        comes (failed code text, m) (same-Grown id m m refl refl) (ground (arith, h, o, p))
    parsed-Grown (user u) o p h = user-Grown u (find (client_key q) m.token_to_id) refl o p h

    send-Grown : send F to_integer_safe token_range now id w q m ≡ target → Grown id m m'
    unfolding send
    send-Grown h = elim (Bool-cases m.close_flag) [
      | inl closed ↦ comes (closing, m) (same-Grown id m m refl refl) (ground (arith, h, closed))
      | inr open_now ↦
          parsed-Grown (parse_token to_integer_safe token_range q.token) open_now refl h
    ]

  -- A step that succeeds with all counts exact.
  pub record Goes (r : Option (World F)) : Type 0 where
    pub after : World F
    pub succeeds : r ≡ some after
    pub exact : Exact after

  pub no_client : (o : Option ClientInfo) → queue_of o ≡ none → o ≡ none
  no_client none h = refl
  no_client (some i) h = absurd (ground (arith, h))

  pub a_client :
      (o : Option ClientInfo) (p : ℕ)
      → queue_of o ≡ some p
      → (i : ClientInfo) × (o ≡ some i) × (i.tqueue_id ≡ p)
  a_client none p h = absurd (ground (arith, h))
  a_client (some i) p h = (i, refl, ground (arith, h))

  pub ask-Goes :
      (f : Bytes → Option ℤ) (r : ℤ → Bool) (now id : ℕ) (w : Option Bytes) (q : Query)
      (x : World F)
      → Exact x
      → find id x.lives ≡ none
      → Goes (step F f r (ask now id w q) x)
  unfolding step
  ask-Goes f r now id w q x v new =
      let fresh = no_client (find id x.manager.clients) (v.known id ∙ ap queue_in new) in
      let s = send-Served F f r now id w q x.manager v.inv fresh in
      let g = send-Grown f r now id w q x.manager s.answer s.after s.succeeds in
      record {
        after = record { manager = s.after; lives = born F id (find id s.after.clients) x.lives };
        succeeds = ground (arith, s.succeeds);
        exact = go s.after s.inv g (find id s.after.clients) refl;
      }
    where
      go :
          (m : Manager F)
          → Inv F m
          → Grown id x.manager m
          → (o : Option ClientInfo) → find id m.clients ≡ o
          → Exact (record { manager = m; lives = born F id o x.lives })
      go m i g none e = record {
        inv = i;
        unique = v.unique;
        known = λ j. ground (arith, e, new, g.others j, v.known j, nat_eq.beq_iff id j);
        counted = λ p. ground (arith, g.counts, v.counted p);
      }
      go m i g (some info) e = record {
        inv = i;
        unique = Unique-insert id (newborn info) x.lives v.unique;
        known = λ j. ground (
          arith,
          e,
          g.others j,
          v.known j,
          nat_eq.beq_iff id j,
          find-insert id j (newborn info) x.lives,
        );
        counted = λ p.
            ground
              (arith, g.counts, v.counted p, new, tally-insert (works p) id (newborn info) x.lives);
      }
