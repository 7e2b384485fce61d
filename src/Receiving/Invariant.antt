-- ===== src/Receiving/Invariant.antt =====
-- What holds of a client between two events, and what an event must keep.
use core_telegram_api.Common.{
  ℕ, ◌+◌, ◌≡◌, refl, ◌∙◌, inl, inr, Bool, true, false, Option, none, some, List, [], ◌∷◌, ◌++◌,
  arith, ltb, leb, if◌then◌else◌, Bool-cases, ◌==◌, nat_eq, bytes_eq, int_eq, Bytes, codes,
}
use core_telegram_api.Query.{arg}
use core_telegram_api.WebhookInfo.{is_empty, save_webhook}
use core_telegram_api.UpdateTypes.{default_allowed_update_types}
use core_telegram_api.Receiving.{
  Asked, Outcome, Tdlib, Receiving, is_closing, reply, get_closing_error, fail_query_closing,
  fail_query_conflict, abort_long_poll,
}

abbrev pub asked_url : Asked → Bytes
asked_url q = arg (codes "url") q.request.args

abbrev pub one : Asked → ℕ → ℕ
one q x = if q.id == x then 1 else 0

abbrev pub held_by : Option Asked → ℕ → ℕ
held_by none x = 0
held_by (some q) x = one q x

abbrev pub times : {U : Type 0} → ℕ → List (ℕ × Outcome U) → ℕ
times x [] = 0
times x ((y, o) ∷ rs) = (if y == x then 1 else 0) + times x rs

pub times-append :
    {U : Type 0} (x : ℕ) (rs : List (ℕ × Outcome U)) (y : ℕ) (o : Outcome U)
    → times x (rs ++ (y, o) ∷ []) ≡ times x rs + (if y == x then 1 else 0)
times-append x [] y o = ground arith
times-append x ((z, p) ∷ rs) y o = omega (arith, times-append x rs y o)

module _ {Q U : Type 0} where
  -- How often a query is held, and how often it was answered.
  abbrev pub holding : Receiving Q U → ℕ → ℕ
  holding s x =
      held_by s.webhook_set_query x
      + held_by s.active_webhook_set_query x
      + held_by s.long_poll_query x

  abbrev pub answered : Receiving Q U → ℕ → ℕ
  answered s x = times x s.answers

  abbrev pub ledger : Receiving Q U → ℕ → ℕ
  ledger s x = holding s x + answered s x

  -- Other answers, and another time for the next conflict.
  abbrev pub with_answers : List (ℕ × Outcome U) → ℕ → Receiving Q U → Receiving Q U
  with_answers rs time s = record s { answers = rs; next_get_updates_conflict_time = time }

  -- A result that differs in the answers alone, of which there are more.
  pub record Replied (s : Receiving Q U) (more : ℕ → ℕ) (r : Receiving Q U) : Type 0 where
    pub list : List (ℕ × Outcome U)
    pub time : ℕ
    pub same : r ≡ with_answers list time s
    pub count : (x : ℕ) → times x list ≡ times x s.answers + more x

  pub fail_query_conflict-Replied :
      (now : ℕ) (message : Bytes) (q : Asked) (s : Receiving Q U)
      → Replied s (one q) (fail_query_conflict now message q s)
  unfolding fail_query_conflict
  fail_query_conflict-Replied now message q s =
      elim (Bool-cases (leb s.next_get_updates_conflict_time now)) [
        | inl now_allowed ↦ rw now_allowed (record {
          list = _;
          time = _;
          same = refl;
          count = λ x. times-append x s.answers q.id _;
        })
        | inr later ↦ rw later (record {
          list = _;
          time = _;
          same = refl;
          count = λ x. times-append x s.answers q.id _;
        })
      ]

  pub abort_long_poll-Replied :
      (now : ℕ) (b : Bool) (s : Receiving Q U)
      → Replied
          (record s { long_poll_query = none })
          (held_by s.long_poll_query)
          (abort_long_poll now b s)
  unfolding abort_long_poll
  abort_long_poll-Replied now b s = go s.long_poll_query refl
    where
      go :
          (o : Option Asked)
          → s.long_poll_query ≡ o
          → Replied
              (record s { long_poll_query = none })
              (held_by s.long_poll_query)
              (abort_long_poll now b s)
      go none e = record {
        list = s.answers;
        time = s.next_get_updates_conflict_time;
        same = rw e refl;
        count = λ x. ground (arith, e);
      }
      go (some q) e =
          rw e (fail_query_conflict-Replied now _ q (record s { long_poll_query = none }))

  -- A closing client has an answer.
  pub get_closing_error_total :
      (now : ℕ) (s : Receiving Q U)
      → is_closing s ≡ true
      → (o : Outcome U) × (get_closing_error now s ≡ some o)
  unfolding get_closing_error
  get_closing_error_total now s h = elim (Bool-cases s.logging_out) [
    | inl logging_out ↦ elim (Bool-cases s.is_api_id_invalid) [
      | inl invalid ↦ rw (logging_out, invalid) (_, refl)
      | inr valid ↦ elim (Bool-cases (ltb 0 s.next_authorization_time)) [
        | inl waits ↦ rw (logging_out, valid, waits) (_, refl)
        | inr at_once ↦ elim (Bool-cases s.clear_tqueue) [
          | inl cleared ↦ rw (logging_out, valid, at_once, cleared) (_, refl)
          | inr left ↦ rw (logging_out, valid, at_once, left) (_, refl)
        ]
      ]
    ]
    | inr logged_in ↦
        let closing : s.closing ≡ true = ground (arith, h, logged_in) in
        rw (logged_in, closing) (_, refl)
  ]

  module _ (lib : Tdlib Q U) where
    pub record Inv (s : Receiving Q U) : Type 0 where
      pub set_has_url : (q : Asked) → s.webhook_set_query ≡ some q → is_empty s.settings.url ≡ false
      pub active_no_url :
          (q : Asked)
          → s.active_webhook_set_query ≡ some q
          → (is_empty s.settings.url ≡ true)
            × (is_empty (asked_url q) ≡ false)
            × (lib.parses_url (asked_url q) ≡ true)
      pub poll_alone :
          (q : Asked)
          → s.long_poll_query ≡ some q
          → (is_empty s.settings.url ≡ true) × (s.active_webhook_set_query ≡ none)
      pub certified :
          is_empty s.settings.url ≡ true → s.settings.has_certificate ≡ true → is_closing s ≡ true
      pub hooked : is_empty s.settings.url ≡ true → s.has_webhook ≡ false
      pub gone : s.has_td_client ≡ false → (s.has_webhook ≡ false) × (is_closing s ≡ true)
      pub saved :
          s.has_td_client ≡ true
          → is_empty s.settings.url ≡ false
          → s.webhook_set_query ≡ none
          → s.stored ≡ some (save_webhook lib.text default_allowed_update_types s.settings)

    -- What an event leads to: it fails no `CHECK`, the invariant holds, and each query is held or was
    -- answered as often as before, and `new` times more.
    pub record Kept (s : Receiving Q U) (new : ℕ → ℕ) (r : Option (Receiving Q U)) : Type 0 where
      pub after : Receiving Q U
      pub succeeds : r ≡ some after
      pub inv : Inv after
      pub conserved : (x : ℕ) → ledger after x ≡ ledger s x + new x

    -- What the invariant does not read.
    pub Inv-others :
        (s : Receiving Q U) (rs : List (ℕ × Outcome U)) (time generation allowed_time : ℕ)
        (queue : Q)
        → Inv s
        → Inv (record (with_answers rs time s) {
          webhook_generation = generation;
          next_allowed_set_webhook_time = allowed_time;
          updates = queue;
        })
    Inv-others s rs time generation allowed_time queue v = record {
      set_has_url = v.set_has_url;
      active_no_url = v.active_no_url;
      poll_alone = v.poll_alone;
      certified = v.certified;
      hooked = v.hooked;
      gone = v.gone;
      saved = v.saved;
    }

    pub reply-Kept :
        (q : Asked) (o : Outcome U) (s : Receiving Q U)
        → Inv s
        → Kept s (one q) (some (reply q o s))
    reply-Kept q o s v = record {
      after = reply q o s;
      succeeds = refl;
      inv =
          Inv-others s (reply q o s).answers s.next_get_updates_conflict_time s.webhook_generation
            s.next_allowed_set_webhook_time s.updates v;
      conserved = λ x. omega (arith, times-append x s.answers q.id o);
    }

    pub fail_query_closing-Kept :
        (now : ℕ) (q : Asked) (s : Receiving Q U)
        → Inv s
        → is_closing s ≡ true
        → Kept s (one q) (fail_query_closing now q s)
    unfolding fail_query_closing
    fail_query_closing-Kept now q s v h =
        let (o, e) = get_closing_error_total now s h in
        rw (e, fail_query_closing) (reply-Kept q o s v)

    -- From a state that owes the queries otherwise.
    pub Kept-from :
        (s t : Receiving Q U) (new more : ℕ → ℕ) (r : Option (Receiving Q U))
        → ((x : ℕ) → ledger t x + more x ≡ ledger s x + new x)
        → Kept t more r
        → Kept s new r
    Kept-from s t new more r h k = record {
      after = k.after;
      succeeds = k.succeeds;
      inv = k.inv;
      conserved = λ x. k.conserved x ∙ h x;
    }

    -- By cases on a test.
    pub Kept_if :
        {s : Receiving Q U} {new : ℕ → ℕ} (b : Bool) {x y : Option (Receiving Q U)}
        → (b ≡ true → Kept s new x)
        → (b ≡ false → Kept s new y)
        → Kept s new (if b then x else y)
    Kept_if true h k = h refl
    Kept_if false h k = k refl
