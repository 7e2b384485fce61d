-- ===== src/Manager/Census/Ends.antt =====
-- The end of a client, and the close of its manager.
use core_telegram_api.Common.{
  ℕ, ◌≡◌, refl, ap, ◌∙◌, inl, inr, true, ◌||◌, Option, none, some, [], ◌∷◌, arith, Option-cases,
  nat_eq, bytes_eq, int_eq, Map, find, erase, find-erase, Unique-erase, tally, tally-erase,
}
use core_telegram_api.Manager.{FloodLibrary, ClientInfo, Manager, close, no_clients, hangup_shared}
use core_telegram_api.Manager.Lives.{Life, World, with_manager}
use core_telegram_api.Manager.Registry.{Inv, HungUp, hangup_shared_idle, activity}
use core_telegram_api.Manager.Census.{queue_in, works, Exact, Goes, a_client}

empty_of_find : {V : Type 0} (m : Map ℕ V) → ((j : ℕ) → find j m ≡ none) → m ≡ []
unfolding find
empty_of_find [] h = refl
empty_of_find ((k, v) ∷ m) h = absurd (ground (arith, h k, nat_eq.beq_iff k k))

no_life : (o : Option Life) → queue_in o ≡ none → o ≡ none
no_life none h = refl
no_life (some l) h = absurd (ground (arith, h))

no_count :
    (F : FloodLibrary) (m : Manager F)
    → Inv F m
    → ((q : ℕ) → activity F q m ≡ 0)
    → m.active_client_count ≡ []
no_count F m i idle = empty_of_find m.active_client_count λ q.
    elim (Option-cases (find q m.active_client_count)) [
      | inl absent ↦ absent
      | inr (n, there) ↦ absurd (ground (arith, i.active q n there, idle q, there))
    ]

empty_clients : (F : FloodLibrary) (c : Map ℕ ClientInfo) → no_clients F c ≡ true → c ≡ []
empty_clients F [] h = refl
empty_clients F (x ∷ c) h = absurd (ground (arith, h))

module _ (F : FloodLibrary) (id : ℕ) (l : Life) (x : World F) (v : Exact F x)
    (there : find id x.lives ≡ some l) (ended : (l.logging_out || l.closing) ≡ true) where
  idle_life : (q : ℕ) → works q id l ≡ 0
  idle_life q = ground (arith, ended)

  -- Without the client, the lives have the same counts.
  same_tally : (q : ℕ) → activity F q x.manager ≡ tally (works q) (erase id x.lives)
  same_tally q =
      ground (arith, v.counted q, tally-erase (works q) id x.lives v.unique, there, idle_life q)

  lives_empty : no_clients F (erase id x.manager.clients) ≡ true → erase id x.lives ≡ []
  unfolding find
  lives_empty last = empty_of_find (erase id x.lives) λ j. no_life (find j (erase id x.lives)) (
      ground (
        arith,
        v.known j,
        find-erase id j x.lives,
        find-erase id j x.manager.clients,
        ap (find j) (empty_clients F (erase id x.manager.clients) last),
      ))

  counts_empty :
      no_clients F (erase id x.manager.clients) ≡ true → x.manager.active_client_count ≡ []
  unfolding tally
  counts_empty last =
      no_count F x.manager v.inv λ q. same_tally q ∙ ap (tally (works q)) (lives_empty last)

  -- When the manager knows the clients that live and counts the active ones exactly,
  -- `hangup_shared` fails no `CHECK` for a client that was logging out or closing: the client is
  -- forgotten, the counts stay, and with the last one of a closing manager the database is closed.
  pub hangup_shared-HungUp : HungUp F id x.manager (hangup_shared F id x.manager)
  hangup_shared-HungUp =
      let (i, listed, queue) =
        a_client F (find id x.manager.clients) l.tqueue_id (v.known id ∙ ap queue_in there) in
      hangup_shared_idle F id x.manager v.inv i listed (λ closed last. counts_empty last)

  pub ends-Goes : Goes F (with_manager F (erase id x.lives) (hangup_shared F id x.manager))
  ends-Goes =
      let u = hangup_shared-HungUp in
      record {
        after = record { manager = u.after; lives = erase id x.lives };
        succeeds = ap (with_manager F (erase id x.lives)) u.succeeds;
        exact = record {
          inv = u.inv;
          unique = Unique-erase id x.lives v.unique;
          known = λ j. ground (arith, u.gone j, v.known j, find-erase id j x.lives);
          counted = λ q. ground (arith, u.same_counts, same_tally q);
        };
      }

module _ (F : FloodLibrary) where
  same_close :
      (promise : ℕ) (m : Manager F)
      → ((close F promise m).clients ≡ m.clients)
        × ((close F promise m).token_to_id ≡ m.token_to_id)
        × ((close F promise m).active_client_count ≡ m.active_client_count)
  unfolding close
  same_close promise m = (ground arith, ground arith, ground arith)

  pub shut-Exact :
      (promise : ℕ) (x : World F)
      → Exact F x
      → Exact F (record { manager = close F promise x.manager; lives = x.lives })
  shut-Exact promise x v =
      let (c, t, a) = same_close promise x.manager in
      record {
        inv = record {
          indexed = rw (c, t) v.inv.indexed;
          listed = rw (c, t) v.inv.listed;
          queued = rw c v.inv.queued;
          active = rw a v.inv.active;
        };
        unique = v.unique;
        known = rw c v.known;
        counted = rw a v.counted;
      }
