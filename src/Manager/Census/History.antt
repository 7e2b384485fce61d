-- ===== src/Manager/Census/History.antt =====
-- Whole runs of a manager: queries, the reports and ends of its clients, and its close.
use core_telegram_api.Common.{
  ℕ, ◌≡◌, refl, subst, Bool, Option, none, some, List, [], ◌∷◌, arith, nat_eq, bytes_eq, int_eq, ℤ,
  find, insert, tally, Bytes,
}
use core_telegram_api.Manager.{FloodLibrary, Manager}
use core_telegram_api.Manager.Lives.{
  Life, Authorization, ready, logging_out, closing, World, Event, ask, changes, ends, shut, step,
  May, started, become, with_manager, tell, report,
}
use core_telegram_api.Manager.Census.{Exact, Goes, ask-Goes}
use core_telegram_api.Manager.Census.Reports.{changes-Goes}
use core_telegram_api.Manager.Census.Ends.{ends-Goes, shut-Exact}

module _ (F : FloodLibrary) (to_integer_safe : Bytes → Option ℤ) (token_range : ℤ → Bool) where
  unfoldable pub run : List Event → World F → Option (World F)
  unfolding step
  run [] x = some x
  run (e ∷ es) x = elim (step F to_integer_safe token_range e x) [ none ↦ none | some y ↦ run es y ]

  -- A run in which only happens what may.
  pub data Lawful : World F → List Event → Type 0 where
    stops : {x : World F} → Lawful x []
    goes :
        {x : World F} {e : Event} {es : List Event}
        → May F e x
        → ((y : World F) → step F to_integer_safe token_range e x ≡ some y → Lawful y es)
        → Lawful x (e ∷ es)

  pub continues :
      {x : World F} {e : Event} {es : List Event} {y : World F}
      → May F e x
      → step F to_integer_safe token_range e x ≡ some y
      → Lawful y es
      → Lawful x (e ∷ es)
  continues {es = es} m p l = goes m (λ u q. subst (λ x. Lawful x es) (ground (arith, p, q)) l)

  changes_step :
      (id : ℕ) (s : Authorization) (l : Life) (x : World F)
      → find id x.lives ≡ some l
      → step F to_integer_safe token_range (changes id s) x
        ≡ with_manager F (insert id (become s l) x.lives) (tell F id (report s l) x.manager)
  unfolding step report
  changes_step id s l x there = rw (there, step) refl

  step-Goes :
      (e : Event) (x : World F)
      → Exact F x
      → May F e x
      → Goes F (step F to_integer_safe token_range e x)
  unfolding step
  step-Goes (ask now id w q) x v new = ask-Goes F to_integer_safe token_range now id w q x v new
  step-Goes (changes id ready) x v (l, there, ordered) =
      rw (changes_step id ready l x there, step) (changes-Goes F id l x v there ready ordered)
  step-Goes (changes id logging_out) x v (l, there) =
      rw (changes_step id logging_out l x there, step)
        (changes-Goes F id l x v there logging_out tt)
  step-Goes (changes id closing) x v (l, there) =
      rw (changes_step id closing l x there, step) (changes-Goes F id l x v there closing tt)
  step-Goes (ends id) x v (l, there, ended) = ends-Goes F id l x v there ended
  step-Goes (shut promise) x v m = record {
    after = _;
    succeeds = refl;
    exact = shut-Exact F promise x v;
  }

  pub run-Goes : (es : List Event) (x : World F) → Exact F x → Lawful x es → Goes F (run es x)
  unfolding run
  run-Goes [] x v l = record { after = x; succeeds = refl; exact = v }
  run-Goes (e ∷ es) x v (goes m next) =
      let s = step-Goes e x v m in
      rw (s.succeeds, run) (run-Goes es s.after s.exact (next s.after s.succeeds))

  empty-Exact :
      (m : Manager F)
      → m.clients ≡ []
      → m.token_to_id ≡ []
      → m.active_client_count ≡ []
      → Exact F (started F m)
  unfolding find tally
  empty-Exact m c t a = record {
    inv = record {
      indexed = λ k id h. absurd (ground (arith, t, h));
      listed = λ k id h. absurd (ground (arith, c, h));
      queued = λ id i h. absurd (ground (arith, c, h));
      active = λ q n h. absurd (ground (arith, a, h));
    };
    unique = tt;
    known = λ id. ground (arith, c);
    counted = λ q. ground (arith, a);
  }

  -- A run of a manager that has no clients at first, in which a new client has a free identifier, is
  -- ready only before it is logging out or closing, and ends only after that, fails no `CHECK`: not
  -- in `send`, not in `raw_event`, where a count that is decreased is positive, and not in
  -- `hangup_shared`. After it, the manager knows exactly the clients that live, and its count for
  -- each queue is the number of the active clients of the queue.
  pub run-Exact :
      (m : Manager F) (es : List Event)
      → m.clients ≡ []
      → m.token_to_id ≡ []
      → m.active_client_count ≡ []
      → Lawful (started F m) es
      → Goes F (run es (started F m))
  run-Exact m es c t a l = run-Goes es (started F m) (empty-Exact m c t a) l
