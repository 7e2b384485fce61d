-- ===== src/Manager/Registry.antt =====
-- Each bot has at most one client, and the index of the clients by token is exact.
use core_telegram_api.Common.{
  ℕ, ◌+◌, ◌-◌, ◌<◌, ◌≡◌, refl, ap, ◌∙◌, ◌≢◌, inl, inr, Bool, true, false, ◌&&◌, Option, none, some,
  [], ◌∷◌, ◌++◌, arith, if◌then◌else◌, Bool-cases, Option-cases, ◌==◌, nat_eq, bytes_eq, int_eq,
  beq_refl, ℤ, pos, negsuc, Map, find, insert, erase, find-insert, find-erase, Bytes, codes,
  split_at_byte,
}
use core_telegram_api.Manager.{
  FloodLibrary, Query, ClientInfo, Answer, closing, failed, forwarded, Parsed, user, rejected,
  parse_token, is_malformed, get_tqueue_id, client_key, max_user_id, Manager, check_address,
  check_global, create_client, start_client, unless_limited, send, hangup_shared, raw_event,
  no_clients, or_zero, emit, close_db,
}

-- The test environment and the main one have update queues of their own.
pub get_tqueue_id_injective :
    (u v : ℕ) (s t : Bool)
    → u < max_user_id
    → v < max_user_id
    → get_tqueue_id u s ≡ get_tqueue_id v t
    → (u ≡ v) × (s ≡ t)
unfolding get_tqueue_id
get_tqueue_id_injective u v true true h k e = (omega arith, refl)
get_tqueue_id_injective u v false false h k e = (omega arith, refl)
get_tqueue_id_injective u v true false h k e = absurd (omega arith)
get_tqueue_id_injective u v false true h k e = absurd (omega arith)

abbrev pub token_of : Option ClientInfo → Option Bytes
token_of none = none
token_of (some i) = some i.token

module _ (F : FloodLibrary) where
  pub record Inv (m : Manager F) : Type 0 where
    pub indexed :
        (t : Bytes) (id : ℕ)
        → find t m.token_to_id ≡ some id
        → token_of (find id m.clients) ≡ some t
    pub listed :
        (t : Bytes) (id : ℕ)
        → token_of (find id m.clients) ≡ some t
        → find t m.token_to_id ≡ some id
    pub queued : (id : ℕ) (i : ClientInfo) → find id m.clients ≡ some i → 0 < i.tqueue_id
    pub active : (q n : ℕ) → find q m.active_client_count ≡ some n → 0 < n

  module _ (m : Manager F) (v : Inv m) (id u : ℕ) (q : Query) (fresh : find id m.clients ≡ none)
      (absent : find (client_key q) m.token_to_id ≡ none) (positive : 0 < u)
      (w : Option Bytes) where
    create_client-Inv : Inv (create_client F id w u q m).1
    unfolding create_client get_tqueue_id
    create_client-Inv =
        let key = client_key q in
        let info : ClientInfo = record { token = key; tqueue_id = get_tqueue_id u q.is_test_dc } in
        record {
          indexed = λ t i h. ground (
            arith,
            fresh,
            v.indexed t i,
            bytes_eq.beq_iff key t,
            find-insert key t id m.token_to_id,
            find-insert id i info m.clients,
          );
          listed = λ t i h. ground (
            arith,
            absent,
            v.listed t i,
            bytes_eq.beq_iff key t,
            find-insert key t id m.token_to_id,
            find-insert id i info m.clients,
          );
          queued = λ i x h. ground (arith, positive, v.queued i x, find-insert id i info m.clients);
          active = v.active;
        }

  -- What the flood controls leave alone.
  abbrev pub SameClients : Manager F → Manager F → Type 0
  SameClients m m' =
      (m'.clients ≡ m.clients)
      × (m'.token_to_id ≡ m.token_to_id)
      × (m'.active_client_count ≡ m.active_client_count)

  pub check_address_same :
      (now : ℕ) (a : Bytes) (m : Manager F) → SameClients m (check_address F now a m).1
  unfolding check_address
  check_address_same now [] m = (refl, refl, refl)
  check_address_same now (c ∷ s) m = (ground arith, ground arith, ground arith)

  pub check_global_same : (now : ℕ) (m : Manager F) → SameClients m (check_global F now m).1
  unfolding check_global
  check_global_same now m = (ground arith, ground arith, ground arith)

  SameClients-Inv : (m m' : Manager F) → SameClients m m' → Inv m → Inv m'
  SameClients-Inv m m' (c, t, a) v = record {
    indexed = rw (c, t) v.indexed;
    listed = rw (c, t) v.listed;
    queued = rw c v.queued;
    active = rw a v.active;
  }

  -- A query that is forwarded goes to the client of its own token.
  abbrev pub GoesHome : Bytes → Answer → Manager F → Type 0
  GoesHome key (forwarded id w) m = token_of (find id m.clients) ≡ some key
  GoesHome key _ m = Unit

  pub record Served (key : Bytes) (r : Option (Answer × Manager F)) : Type 0 where
    pub answer : Answer
    pub after : Manager F
    pub succeeds : r ≡ some (answer, after)
    pub inv : Inv after
    pub home : GoesHome key answer after

  module _ (now id u : ℕ) (w : Option Bytes) (q : Query) (positive : 0 < u) where
    abbrev Starts : Manager F → Answer × Manager F → Type 0
    Starts m x = Inv x.1 × GoesHome (client_key q) x.0 x.1

    create_client-Starts :
        (m : Manager F)
        → Inv m
        → find id m.clients ≡ none
        → find (client_key q) m.token_to_id ≡ none
        → Starts m (create_client F id w u q m)
    create_client-Starts m v fresh absent = (
      create_client-Inv m v id u q fresh absent positive w,
      unfold create_client in
          ground (
            arith,
            find-insert id id
                (record { token = client_key q; tqueue_id = get_tqueue_id u q.is_test_dc })
                m.clients,
          ),
    )

    unless_limited-Starts :
        (o : Option ℕ) (m : Manager F) (go_on : Manager F → Answer × Manager F)
        → Inv m
        → Starts m (go_on m)
        → Starts m (unless_limited F o m go_on)
    unless_limited-Starts none m k v h = h
    unless_limited-Starts (some s) m k v h = (v, tt)

    start_client-Starts :
        (m : Manager F)
        → Inv m
        → find id m.clients ≡ none
        → find (client_key q) m.token_to_id ≡ none
        → Starts m (start_client F now id w u q m)
    unfolding start_client
    start_client-Starts m v fresh absent =
        let (c₁, t₁, a₁) = check_address_same now q.ip_address m in
        let m₁ = (check_address F now q.ip_address m).1 in
        let v₁ = SameClients-Inv m m₁ (c₁, t₁, a₁) v in
        let (c₂, t₂, a₂) = check_global_same now m₁ in
        let m₂ = (check_global F now m₁).1 in
        let v₂ = SameClients-Inv m₁ m₂ (c₂, t₂, a₂) v₁ in
        let x =
          create_client-Starts m₂ v₂ (ap (find id) (c₂ ∙ c₁) ∙ fresh)
            (ap (find (client_key q)) (t₂ ∙ t₁) ∙ absent) in
        elim (Bool-cases (q.method == codes "close")) [
          | inl closes ↦ rw closes (v, tt)
          | inr other ↦ rw other (
              unless_limited-Starts (check_address F now q.ip_address m).0 m₁ _ v₁
                (unless_limited-Starts (check_global F now m₁).0 m₂ _ v₂ x))
        ]

-- The user that `send` takes from a well-formed token.
pub parse_token_user :
    (to_integer_safe : Bytes → Option ℤ) (token_range : ℤ → Bool) (token : Bytes) (u : ℕ)
    → parse_token to_integer_safe token_range token ≡ user u
    → (is_malformed token ≡ false)
      × (to_integer_safe (split_at_byte b':' token).0 ≡ some (pos u))
      × (token_range (pos u) ≡ true)
      × (0 < u)
      × (u < max_user_id)
unfolding parse_token
parse_token_user f r token u h = go (f (split_at_byte b':' token).0) refl
  where
    go :
        (o : Option ℤ)
        → f (split_at_byte b':' token).0 ≡ o
        → (is_malformed token ≡ false)
          × (f (split_at_byte b':' token).0 ≡ some (pos u))
          × (r (pos u) ≡ true)
          × (0 < u)
          × (u < max_user_id)
    go none p = absurd (ground (arith, h, p))
    go (some (negsuc n)) p = absurd (ground (arith, h, p))
    go (some (pos n)) p = (
      ground (arith, h, p),
      ground (arith, h, p),
      ground (arith, h, p),
      ground (arith, h, p),
      ground (arith, h, p),
    )

module _ (F : FloodLibrary) where
  module _ (to_integer_safe : Bytes → Option ℤ) (token_range : ℤ → Bool) (now id : ℕ)
      (w : Option Bytes) (q : Query) (m : Manager F) (v : Inv F m)
      (fresh : find id m.clients ≡ none) where
    Served-user :
        (u : ℕ) (o : Option ℕ)
        → m.close_flag ≡ false
        → parse_token to_integer_safe token_range q.token ≡ user u
        → find (client_key q) m.token_to_id ≡ o
        → Served F (client_key q) (send F to_integer_safe token_range now id w q m)
    unfolding send
    Served-user u none open_now p absent =
        let positive = (parse_token_user to_integer_safe token_range q.token u p).3 in
        let x = start_client-Starts F now id u w q positive m v fresh absent in
        record {
          answer = (start_client F now id w u q m).0;
          after = (start_client F now id w u q m).1;
          succeeds = ground (arith, open_now, p, absent);
          inv = x.0;
          home = x.1;
        }
    Served-user u (some i) open_now p there = elim (Option-cases (find i m.clients)) [
      | inl lost ↦ absurd (ground (arith, v.indexed (client_key q) i there, lost))
      | inr (info, known) ↦ record {
        answer = forwarded i none;
        after = m;
        succeeds = ground (arith, open_now, p, there, known);
        inv = v;
        home = v.indexed (client_key q) i there;
      }
    ]

    Served-parsed :
        (p : Parsed)
        → m.close_flag ≡ false
        → parse_token to_integer_safe token_range q.token ≡ p
        → Served F (client_key q) (send F to_integer_safe token_range now id w q m)
    unfolding send
    Served-parsed (user u) open_now p =
        Served-user u (find (client_key q) m.token_to_id) open_now p refl
    Served-parsed (rejected code text) open_now p = record {
      answer = failed code text;
      after = m;
      succeeds = ground (arith, open_now, p);
      inv = v;
      home = tt;
    }

    -- `send` fails no `CHECK`, keeps the index of clients exact, and forwards a query only to the
    -- client of its own token.
    pub send-Served : Served F (client_key q) (send F to_integer_safe token_range now id w q m)
    unfolding send
    send-Served = elim (Bool-cases m.close_flag) [
      | inl closed ↦ record {
        answer = closing;
        after = m;
        succeeds = ground (arith, closed);
        inv = v;
        home = tt;
      }
      | inr open_now ↦ Served-parsed (parse_token to_integer_safe token_range q.token) open_now refl
    ]

  -- What the end of a client leads to.
  pub record HungUp (id : ℕ) (m : Manager F) (r : Option (Manager F)) : Type 0 where
    pub after : Manager F
    pub info : ClientInfo
    pub succeeds : r ≡ some after
    pub inv : Inv F after
    pub was_listed : find id m.clients ≡ some info
    pub gone : (j : ℕ) → find j after.clients ≡ (if id == j then none else find j m.clients)
    pub unlisted : find info.token after.token_to_id ≡ none
    pub same_counts : after.active_client_count ≡ m.active_client_count
    pub effects_are : after.effects ≡ (
        if m.close_flag && no_clients F after.clients
        then m.effects ++ close_db ∷ []
        else m.effects)

  module _ (id : ℕ) (m : Manager F) (v : Inv F m) (i : ClientInfo)
      (there : find id m.clients ≡ some i) where
    abbrev without : Manager F
    without = record m { clients = erase id m.clients; token_to_id = erase i.token m.token_to_id }

    without-Inv : Inv F without
    without-Inv = record {
      indexed = λ t j h. ground (
        arith,
        there,
        v.indexed t j,
        v.listed i.token id,
        bytes_eq.beq_iff i.token t,
        find-erase i.token t m.token_to_id,
        find-erase id j m.clients,
      );
      listed = λ t j h. ground (
        arith,
        there,
        v.listed t j,
        v.listed i.token id,
        bytes_eq.beq_iff i.token t,
        find-erase i.token t m.token_to_id,
        find-erase id j m.clients,
      );
      queued = λ j x h. ground (arith, v.queued j x, find-erase id j m.clients);
      active = v.active;
    }

    -- `hangup_shared`, given that the last client of a closing manager leaves no count behind.
    pub hangup_shared_idle :
        (m.close_flag ≡ true
          → no_clients F (erase id m.clients) ≡ true
          → m.active_client_count ≡ [])
        → HungUp id m (hangup_shared F id m)
    unfolding hangup_shared
    hangup_shared_idle idle =
        elim (Bool-cases (m.close_flag && no_clients F (erase id m.clients))) [
          | inl last ↦ record {
            after = emit F close_db without;
            info = i;
            succeeds = ground (arith, there, last, idle);
            inv = record {
              indexed = without-Inv.indexed;
              listed = without-Inv.listed;
              queued = without-Inv.queued;
              active = without-Inv.active;
            };
            was_listed = there;
            gone = λ j. find-erase id j m.clients;
            unlisted = ground (arith, find-erase i.token i.token m.token_to_id, beq_refl i.token);
            same_counts = refl;
            effects_are = ground (arith, last);
          }
          | inr others ↦ record {
            after = without;
            info = i;
            succeeds = ground (arith, there, others);
            inv = without-Inv;
            was_listed = there;
            gone = λ j. find-erase id j m.clients;
            unlisted = ground (arith, find-erase i.token i.token m.token_to_id, beq_refl i.token);
            same_counts = refl;
            effects_are = ground (arith, others);
          }
        ]

  abbrev pub activity : ℕ → Manager F → ℕ
  activity q m = or_zero F (find q m.active_client_count)

  -- What `raw_event` does to the counts.
  pub record Counted (id : ℕ) (is_active : Bool) (m : Manager F) (r : Option (Manager F))
      : Type 0 where
    pub after : Manager F
    pub info : ClientInfo
    pub succeeds : r ≡ some after
    pub inv : Inv F after
    pub was_listed : find id m.clients ≡ some info
    pub same_clients : after.clients ≡ m.clients
    pub counts :
        if is_active
        then activity info.tqueue_id after ≡ activity info.tqueue_id m + 1
        else activity info.tqueue_id after + 1 ≡ activity info.tqueue_id m
    pub others : (q : ℕ) → q ≢ info.tqueue_id → activity q after ≡ activity q m

  module _ (id : ℕ) (m : Manager F) (v : Inv F m) (i : ClientInfo)
      (there : find id m.clients ≡ some i) where
    abbrev with_count : Map ℕ ℕ → Manager F
    with_count c = record m { active_client_count = c }

    with_count-Inv : (c : Map ℕ ℕ) → ((q n : ℕ) → find q c ≡ some n → 0 < n) → Inv F (with_count c)
    with_count-Inv c h = record {
      indexed = v.indexed;
      listed = v.listed;
      queued = v.queued;
      active = h;
    }

    insert_positive :
        (k : ℕ)
        → 0 < k
        → (q n : ℕ) → find q (insert i.tqueue_id k m.active_client_count) ≡ some n
        → 0 < n
    insert_positive k h q n e =
        ground (arith, v.active q n, find-insert i.tqueue_id q k m.active_client_count)

    erase_positive : (q n : ℕ) → find q (erase i.tqueue_id m.active_client_count) ≡ some n → 0 < n
    erase_positive q n e =
        ground (arith, v.active q n, find-erase i.tqueue_id q m.active_client_count)

    abbrev k : ℕ
    k = activity i.tqueue_id m

    pub became_active : Counted id true m (raw_event F id true m)
    unfolding raw_event
    became_active = record {
      after = with_count (insert i.tqueue_id (k + 1) m.active_client_count);
      info = i;
      succeeds = ground (arith, there, v.queued id i there);
      inv = with_count-Inv _ (insert_positive (k + 1) (omega arith));
      was_listed = there;
      same_clients = refl;
      counts = ground (arith, find-insert i.tqueue_id i.tqueue_id (k + 1) m.active_client_count);
      others = λ q h. ground (arith, find-insert i.tqueue_id q (k + 1) m.active_client_count);
    }

    pub stopped : 0 < k → Counted id false m (raw_event F id false m)
    unfolding raw_event
    stopped h = elim (Bool-cases (k == 1)) [
      | inl last ↦ record {
        after = with_count (erase i.tqueue_id m.active_client_count);
        info = i;
        succeeds = ground (arith, there, v.queued id i there, last, h);
        inv = with_count-Inv _ erase_positive;
        was_listed = there;
        same_clients = refl;
        counts = ground (arith, last, find-erase i.tqueue_id i.tqueue_id m.active_client_count);
        others = λ q n. ground (arith, find-erase i.tqueue_id q m.active_client_count);
      }
      | inr more ↦ record {
        after = with_count (insert i.tqueue_id (k - 1) m.active_client_count);
        info = i;
        succeeds = ground (arith, there, v.queued id i there, more, h);
        inv = with_count-Inv _ (insert_positive (k - 1) (ground (arith, more, h)));
        was_listed = there;
        same_clients = refl;
        counts =
            ground
              (arith, more, h, find-insert i.tqueue_id i.tqueue_id (k - 1) m.active_client_count);
        others = λ q n. ground (arith, find-insert i.tqueue_id q (k - 1) m.active_client_count);
      }
    ]
