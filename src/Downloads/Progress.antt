-- ===== src/Downloads/Progress.antt =====
-- The reports on downloads keep the invariant, and no query waits in vain.
use core_telegram_api.Common.{
  ℕ, ◌+◌, ◌<◌, ◌≡◌, refl, ◌⊎◌, Bool, true, false, not, ◌&&◌, Option, none, some, List, [], ◌∷◌,
  ◌++◌, arith, if◌then◌else◌, ◌==◌, nat_eq, bytes_eq, int_eq, beq_refl, ℤ, Unique, find, insert,
  erase, find-insert, find-erase, Unique-erase, tally, tally-erase,
}
use core_telegram_api.Downloads.{
  File, Loaded, Downloads, answer_each, answer_all, or_empty, is_some, closing, file_too_big,
  loaded, is_too_big, is_file_being_downloaded, on_file_download, on_update_file, Result,
  error_result, file_result, on_download_result, on_result, close_downloads,
}
use core_telegram_api.Downloads.Invariant.{
  occurs, times, waiting, fetches, requested, ledger, Inv, Kept, nobody, times-append,
  times-answer_each, times-answer_all,
}

-- The invariant for all files but one, whose request was just taken out.
record Fetched (file_id : ℤ) (s : Downloads) : Type 0 where
  unique_listeners : Unique s.listeners
  unique_requests : Unique s.requests
  others :
      (f : ℤ)
      → file_id == f ≡ false
      → is_some (find f s.listeners) ≡ true
      → (0 < requested s f) ⊎ (is_some (find f s.started) ≡ true)

fetched : (f : ℤ) (s : Downloads) → Inv s → Fetched f s
fetched f s v = record {
  unique_listeners = v.unique_listeners;
  unique_requests = v.unique_requests;
  others = λ g n. v.awaited g;
}

same-Kept : (s : Downloads) → Inv s → Kept s nobody s
same-Kept s v = record { inv = v; conserved = λ x. omega arith }

on_file_download-Kept :
    (file_id : ℤ) (r : Loaded) (s : Downloads)
    → Fetched file_id s
    → Kept s nobody (on_file_download file_id r s)
unfolding on_file_download
on_file_download-Kept file_id r s v = go (find file_id s.listeners) refl
  where
    after : List ℕ → Downloads
    after qs = record s {
      listeners = erase file_id s.listeners;
      started = erase file_id s.started;
      answers = s.answers ++ answer_each r qs;
    }

    go :
        (o : Option (List ℕ))
        → find file_id s.listeners ≡ o
        → Kept s nobody (elim o [ none ↦ s | some qs ↦ after qs ])
    go none e = same-Kept s (record {
      unique_listeners = v.unique_listeners;
      unique_requests = v.unique_requests;
      awaited = λ f h. ground (arith, e, h, int_eq.beq_iff file_id f, v.others f);
    })
    go (some qs) e = record {
      inv = record {
        unique_listeners = Unique-erase file_id s.listeners v.unique_listeners;
        unique_requests = v.unique_requests;
        awaited = λ f h. ground (
          arith,
          h,
          find-erase file_id f s.listeners,
          find-erase file_id f s.started,
          v.others f,
        );
      };
      conserved = λ x. ground (
        arith,
        e,
        times-append x s.answers (answer_each r qs),
        times-answer_each x r qs,
        tally-erase (waiting x) file_id s.listeners v.unique_listeners,
      );
    }

by_test :
    (P : Downloads → Type 0) (b : Bool) {x y : Downloads}
    → (b ≡ true → P x)
    → (b ≡ false → P y)
    → P (if b then x else y)
by_test P true h k = h refl
by_test P false h k = k refl

pub on_update_file-Kept :
    (local_mode : Bool) (file : File) (s : Downloads)
    → Inv s
    → Kept s nobody (on_update_file local_mode file s)
unfolding on_update_file
on_update_file-Kept local_mode file s v =
    let f = fetched file.id s v in
    by_test (Kept s nobody) (not (is_file_being_downloaded file.id s)) (λ h. same-Kept s v)
      (λ h.
        by_test (Kept s nobody) (is_too_big local_mode file)
          (λ g.
            let t : Downloads = record s {
              cancelled =
                  if file.is_downloading_active then s.cancelled ++ file.id ∷ [] else s.cancelled;
            } in
            let k = on_file_download-Kept file.id file_too_big t (record {
              unique_listeners = f.unique_listeners;
              unique_requests = f.unique_requests;
              others = f.others;
            }) in
            record { inv = k.inv; conserved = k.conserved })
          (λ g.
            by_test (Kept s nobody) file.is_downloading_completed
              (λ c. on_file_download-Kept file.id (loaded file) s f)
              (λ c.
                by_test (Kept s nobody)
                  (not file.is_downloading_active && is_some (find file.id s.started))
                  (λ d. on_file_download-Kept file.id _ s f) (λ d. same-Kept s v))))

on_download_result-Kept :
    (local_mode : Bool) (file_id : ℤ) (r : Result) (s : Downloads)
    → Fetched file_id s
    → Kept s nobody (on_download_result local_mode file_id r s)
unfolding on_download_result
on_download_result-Kept local_mode file_id (error_result code message) s v =
    on_file_download-Kept file_id _ s v
on_download_result-Kept local_mode file_id (file_result file) s v =
    let t : Downloads = record s {
      started =
          if is_file_being_downloaded file_id s then insert file_id true s.started else s.started;
    } in
    let k = on_update_file-Kept local_mode file t (record {
      unique_listeners = v.unique_listeners;
      unique_requests = v.unique_requests;
      awaited = λ f h.
          ground
            (arith, h, int_eq.beq_iff file_id f, find-insert file_id f true s.started, v.others f);
    }) in
    record { inv = k.inv; conserved = k.conserved }

-- The result of a request to download a file keeps the invariant, and each query waits or was
-- answered as often as before.
pub on_result-Loaded :
    (local_mode : Bool) (id : ℕ) (file_id : ℤ) (r : Result) (s : Downloads)
    → Inv s
    → find id s.requests ≡ some file_id
    → (t : Downloads) × (on_result local_mode id r s ≡ some t) × Kept s nobody t
unfolding on_result
on_result-Loaded local_mode id file_id r s v there =
    let t : Downloads = record s { requests = erase id s.requests } in
    let k = on_download_result-Kept local_mode file_id r t (record {
      unique_listeners = v.unique_listeners;
      unique_requests = Unique-erase id s.requests v.unique_requests;
      others = λ f n h. ground (
        arith,
        n,
        h,
        there,
        v.awaited f,
        tally-erase (fetches f) id s.requests v.unique_requests,
      );
    }) in
    (
      on_download_result local_mode file_id r t,
      ground (arith, there),
      record { inv = k.inv; conserved = k.conserved },
    )

-- Every query that waits for a file is answered.
pub record Settled (file_id : ℤ) (s t : Downloads) : Type 0 where
  pub none_waits : find file_id t.listeners ≡ none
  pub each_answered :
      (x : ℕ)
      → times x t.answers ≡ times x s.answers + occurs x (or_empty (find file_id s.listeners))

on_file_download-Settled :
    (file_id : ℤ) (r : Loaded) (s : Downloads) → Settled file_id s (on_file_download file_id r s)
unfolding on_file_download
on_file_download-Settled file_id r s = go (find file_id s.listeners) refl
  where
    after : List ℕ → Downloads
    after qs = record s {
      listeners = erase file_id s.listeners;
      started = erase file_id s.started;
      answers = s.answers ++ answer_each r qs;
    }

    go :
        (o : Option (List ℕ))
        → find file_id s.listeners ≡ o
        → Settled file_id s (elim o [ none ↦ s | some qs ↦ after qs ])
    go none e = record { none_waits = e; each_answered = λ x. ground (arith, e) }
    go (some qs) e = record {
      none_waits = ground (arith, find-erase file_id file_id s.listeners, beq_refl file_id);
      each_answered = λ x.
          ground (arith, e, times-append x s.answers (answer_each r qs), times-answer_each x r qs);
    }

-- When no request for a file is without its result, a report that the file is complete, or that it is
-- not being downloaded any more, answers every query that waits for it, and leaves none.
pub on_update_file-Settled :
    (local_mode : Bool) (file : File) (s : Downloads)
    → Inv s
    → requested s file.id ≡ 0
    → (file.is_downloading_completed ≡ true) ⊎ (file.is_downloading_active ≡ false)
    → Settled file.id s (on_update_file local_mode file s)
unfolding on_update_file
on_update_file-Settled local_mode file s v idle done =
    let P = Settled file.id s in
    by_test P (not (is_file_being_downloaded file.id s))
      (λ h. record {
        none_waits = nobody_waits (find file.id s.listeners) h;
        each_answered = λ x. ground (arith, nobody_waits (find file.id s.listeners) h);
      })
      (λ h.
        by_test P (is_too_big local_mode file)
          (λ g.
            let t : Downloads = record s {
              cancelled =
                  if file.is_downloading_active then s.cancelled ++ file.id ∷ [] else s.cancelled;
            } in
            let k = on_file_download-Settled file.id file_too_big t in
            record { none_waits = k.none_waits; each_answered = k.each_answered })
          (λ g.
            by_test P file.is_downloading_completed
              (λ c. on_file_download-Settled file.id (loaded file) s)
              (λ c.
                by_test P (not file.is_downloading_active && is_some (find file.id s.started))
                  (λ d. on_file_download-Settled file.id _ s)
                  (λ d. absurd (ground (arith, h, c, d, done, idle, v.awaited file.id))))))
  where
    nobody_waits : (o : Option (List ℕ)) → not (is_some o) ≡ true → o ≡ none
    nobody_waits none h = refl
    nobody_waits (some qs) h = absurd (ground (arith, h))

-- A client that is closed has answered every query that waited for a file, and none twice.
pub close_downloads-Answers :
    (s : Downloads) (x : ℕ)
    → (times x (close_downloads s).answers ≡ ledger s x)
      × (tally (waiting x) (close_downloads s).listeners ≡ 0)
unfolding close_downloads tally
close_downloads-Answers s x = (
  omega (
    arith,
    times-append x s.answers (answer_all closing s.listeners),
    times-answer_all x closing s.listeners,
  ),
  refl,
)
