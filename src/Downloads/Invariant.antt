-- ===== src/Downloads/Invariant.antt =====
-- What holds of the downloads between two events.
use core_telegram_api.Common.{
  ℕ, ◌+◌, ◌<◌, max, ◌≡◌, refl, ◌⊎◌, Bool, true, false, not, ◌&&◌, Option, none, some, List, [], ◌∷◌,
  ◌++◌, arith, ltb, if◌then◌else◌, ◌==◌, nat_eq, bytes_eq, int_eq, ℤ, Map, Unique, find, insert,
  find-insert, Unique-insert, tally, weight_at, tally-insert,
}
use core_telegram_api.Downloads.{
  File, Loaded, Downloads, answer_each, answer_all, or_empty, is_some, file_too_big, do_get_file,
  max_download_file_size,
}

abbrev pub occurs : ℕ → List ℕ → ℕ
occurs x [] = 0
occurs x (q ∷ qs) = (if q == x then 1 else 0) + occurs x qs

abbrev pub times : ℕ → List (ℕ × Loaded) → ℕ
times x [] = 0
times x ((y, r) ∷ rs) = (if y == x then 1 else 0) + times x rs

abbrev pub waiting : ℕ → ℤ → List ℕ → ℕ
waiting x f qs = occurs x qs

abbrev pub fetches : ℤ → ℕ → ℤ → ℕ
fetches f i g = if g == f then 1 else 0

-- How many requests for a file have no result yet.
abbrev pub requested : Downloads → ℤ → ℕ
requested s f = tally (fetches f) s.requests

-- How often a query waits for a file or was answered.
abbrev pub ledger : Downloads → ℕ → ℕ
ledger s x = tally (waiting x) s.listeners + times x s.answers

pub record Inv (s : Downloads) : Type 0 where
  pub unique_listeners : Unique s.listeners
  pub unique_requests : Unique s.requests
  pub awaited :
      (f : ℤ)
      → is_some (find f s.listeners) ≡ true
      → (0 < requested s f) ⊎ (is_some (find f s.started) ≡ true)

-- What an event leads to: the invariant holds, and no query is lost or answered twice.
pub record Kept (s : Downloads) (new : ℕ → ℕ) (t : Downloads) : Type 0 where
  pub inv : Inv t
  pub conserved : (x : ℕ) → ledger t x ≡ ledger s x + new x

abbrev pub nobody : ℕ → ℕ
nobody x = 0

pub times-append :
    (x : ℕ) (rs ss : List (ℕ × Loaded)) → times x (rs ++ ss) ≡ times x rs + times x ss
times-append x [] ss = omega arith
times-append x ((y, r) ∷ rs) ss = omega (arith, times-append x rs ss)

occurs-append : (x q : ℕ) (qs : List ℕ) → occurs x (qs ++ q ∷ []) ≡ occurs x qs + occurs x (q ∷ [])
occurs-append x q [] = omega arith
occurs-append x q (p ∷ qs) = omega (arith, occurs-append x q qs)

pub times-answer_each :
    (x : ℕ) (r : Loaded) (qs : List ℕ) → times x (answer_each r qs) ≡ occurs x qs
times-answer_each x r [] = refl
times-answer_each x r (q ∷ qs) = omega (arith, times-answer_each x r qs)

pub times-answer_all :
    (x : ℕ) (r : Loaded) (fs : Map ℤ (List ℕ)) → times x (answer_all r fs) ≡ tally (waiting x) fs
unfolding tally
times-answer_all x r [] = refl
times-answer_all x r ((f, qs) ∷ fs) = omega (
  arith,
  times-append x (answer_each r qs) (answer_all r fs),
  times-answer_each x r qs,
  times-answer_all x r fs,
)

-- A query is answered at once, or waits for its file.
pub do_get_file-Kept :
    (local_mode : Bool) (id : ℕ) (file : File) (query : ℕ) (s : Downloads)
    → Inv s
    → find id s.requests ≡ none
    → Kept s (λ x. occurs x (query ∷ [])) (do_get_file local_mode id file query s)
unfolding do_get_file
do_get_file-Kept local_mode id file query s v fresh =
    go (not local_mode && ltb max_download_file_size (max file.expected_size file.downloaded_size))
  where
    old : List ℕ
    old = or_empty (find file.id s.listeners)

    answered : Downloads
    answered = record s { answers = s.answers ++ (query, file_too_big) ∷ [] }

    held : Downloads
    held = record s {
      listeners = insert file.id (old ++ query ∷ []) s.listeners;
      requests = insert id file.id s.requests;
    }

    weight : (x : ℕ) (o : Option (List ℕ)) → weight_at (waiting x) file.id o ≡ occurs x (or_empty o)
    weight x none = refl
    weight x (some qs) = refl

    go : (b : Bool) → Kept s (λ x. occurs x (query ∷ [])) (if b then answered else held)
    go true = record {
      inv = record {
        unique_listeners = v.unique_listeners;
        unique_requests = v.unique_requests;
        awaited = v.awaited;
      };
      conserved = λ x. omega (arith, times-append x s.answers ((query, file_too_big) ∷ []));
    }
    go false = record {
      inv = record {
        unique_listeners = Unique-insert file.id (old ++ query ∷ []) s.listeners v.unique_listeners;
        unique_requests = Unique-insert id file.id s.requests v.unique_requests;
        awaited = λ f h. ground (
          arith,
          h,
          v.awaited f,
          find-insert file.id f (old ++ query ∷ []) s.listeners,
          tally-insert (fetches f) id file.id s.requests,
          fresh,
          int_eq.beq_iff file.id f,
        );
      };
      conserved = λ x. omega (
        arith,
        tally-insert (waiting x) file.id (old ++ query ∷ []) s.listeners,
        weight x (find file.id s.listeners),
        occurs-append x query old,
      );
    }
