-- ===== src/Formats/RoundTrip.antt =====
-- A date and time format that is read and written again.
use core_telegram_api.Common.{
  ℕ, ◌≡◌, refl, subst, Bool, true, false, ◌&&◌, ◌||◌, Option, none, some, [], ◌∷◌, arith,
  if◌then◌else◌, ◌==◌, nat_eq, bytes_eq, int_eq, Bytes, codes,
}
use core_telegram_api.Formats.{
  Precision, no_precision, short_precision, long_precision, Formatting, relative, absolute,
  get_date_time_format, read_letter, read_letters, then_some, get_date_time_formatting_type,
}

abbrev pub or_no_precision : Option Precision → Precision
or_no_precision none = no_precision
or_no_precision (some p) = p

-- The formatting with `dateTimePartPrecisionNone` in place of each null pointer.
abbrev pub filled : Formatting → Formatting
filled relative = relative
filled (absolute w d t) = absolute w (some (or_no_precision d)) (some (or_no_precision t))

-- A precision that a letter may have set.
abbrev is_plain : Option Precision → Bool
is_plain none = true
is_plain (some no_precision) = false
is_plain (some short_precision) = true
is_plain (some long_precision) = true

abbrev is_set : Option Precision → Bool
is_set none = false
is_set (some p) = true

abbrev is_unmixed : Formatting → Bool
is_unmixed relative = true
is_unmixed (absolute w d t) = is_plain d && is_plain t

abbrev shows : Formatting → Bool
shows relative = true
shows (absolute w d t) = w || (is_set d || is_set t)

abbrev ReadBack : Formatting → Type 0
ReadBack f =
    (s : Bytes) × (get_date_time_format (some (filled f)) ≡ some s)
    × (get_date_time_formatting_type s ≡ some (some f))

read-written : (f : Formatting) → is_unmixed f ≡ true → shows f ≡ true → ReadBack f
unfolding get_date_time_format get_date_time_formatting_type read_letter read_letters
read-written relative u h = (_, refl, refl)
read-written (absolute w (some no_precision) t) u h = absurd (ground (arith, u))
read-written (absolute w none (some no_precision)) u h = absurd (ground (arith, u))
read-written (absolute w (some short_precision) (some no_precision)) u h =
    absurd (ground (arith, u))
read-written (absolute w (some long_precision) (some no_precision)) u h = absurd (ground (arith, u))
read-written (absolute false none none) u h = absurd (ground (arith, h))
read-written (absolute true none none) u h = (_, refl, refl)
read-written (absolute false none (some short_precision)) u h = (_, refl, refl)
read-written (absolute true none (some short_precision)) u h = (_, refl, refl)
read-written (absolute false none (some long_precision)) u h = (_, refl, refl)
read-written (absolute true none (some long_precision)) u h = (_, refl, refl)
read-written (absolute false (some short_precision) none) u h = (_, refl, refl)
read-written (absolute true (some short_precision) none) u h = (_, refl, refl)
read-written (absolute false (some long_precision) none) u h = (_, refl, refl)
read-written (absolute true (some long_precision) none) u h = (_, refl, refl)
read-written (absolute false (some short_precision) (some short_precision)) u h = (_, refl, refl)
read-written (absolute true (some short_precision) (some short_precision)) u h = (_, refl, refl)
read-written (absolute false (some short_precision) (some long_precision)) u h = (_, refl, refl)
read-written (absolute true (some short_precision) (some long_precision)) u h = (_, refl, refl)
read-written (absolute false (some long_precision) (some short_precision)) u h = (_, refl, refl)
read-written (absolute true (some long_precision) (some short_precision)) u h = (_, refl, refl)
read-written (absolute false (some long_precision) (some long_precision)) u h = (_, refl, refl)
read-written (absolute true (some long_precision) (some long_precision)) u h = (_, refl, refl)

-- What letters make of a formatting.
abbrev Fine : Formatting → Type 0
Fine f = (is_unmixed f ≡ true) × (shows f ≡ true)

read_letter-Fine :
    (c : ℕ) (f g : Formatting) → is_unmixed f ≡ true → read_letter c f ≡ some g → Fine g
unfolding read_letter
read_letter-Fine c relative g u h = absurd (ground (arith, h))
read_letter-Fine c (absolute w d t) g u h =
    by_test (c == b't') (known (ground (arith, u)) (ground arith))
      (by_test (c == b'T') (known (ground (arith, u)) (ground arith)) (
        by_test (c == b'd') (known (ground (arith, u)) (ground arith)) (
          by_test (c == b'D') (known (ground (arith, u)) (ground arith))
            (by_test (c == b'w' || c == b'W') (known u refl) (λ e. absurd (ground (arith, e)))))))
      h
  where
    known : {x : Formatting} → is_unmixed x ≡ true → shows x ≡ true → some x ≡ some g → Fine g
    known {x} k l e = let same : x ≡ g = ground (arith, e) in subst Fine same (k, l)

    by_test :
        (b : Bool) {x y : Option Formatting}
        → (x ≡ some g → Fine g)
        → (y ≡ some g → Fine g)
        → (if b then x else y) ≡ some g
        → Fine g
    by_test true k l = k
    by_test false k l = l

read_letters-Fine : (s : Bytes) (f g : Formatting) → Fine f → read_letters s f ≡ some g → Fine g
unfolding read_letters
read_letters-Fine [] f g k h = let same : f ≡ g = ground (arith, h) in subst Fine same k
read_letters-Fine (c ∷ s) f g k h = go (λ x l. read_letters-Fine s x g l) (read_letter c f) refl h
  where
    go :
        ((x : Formatting) → Fine x → read_letters s x ≡ some g → Fine g)
        → (o : Option Formatting) → read_letter c f ≡ o
        → elim o [ none ↦ none | some x ↦ read_letters s x ] ≡ some g
        → Fine g
    go again none e r = absurd (ground (arith, r))
    go again (some x) e r = again x (read_letter-Fine c f x k.0 e) r

accepted-Fine :
    (s : Bytes) (f : Formatting) → get_date_time_formatting_type s ≡ some (some f) → Fine f
unfolding get_date_time_formatting_type read_letters
accepted-Fine [] f h = absurd (ground (arith, h))
accepted-Fine (c ∷ s) f h = go ((c ∷ s) == codes "r" || (c ∷ s) == codes "R") h
  where
    blank : Formatting
    blank = absolute false none none

    go :
        (b : Bool)
        → (if b then some (some relative) else then_some (read_letters (c ∷ s) blank))
          ≡ some (some f)
        → Fine f
    go true e = let same : relative ≡ f = ground (arith, e) in subst Fine same (refl, refl)
    go false e = first (read_letter c blank) refl e
      where
        first :
            (o : Option Formatting)
            → read_letter c blank ≡ o
            → then_some (elim o [ none ↦ none | some x ↦ read_letters s x ]) ≡ some (some f)
            → Fine f
        first none k r = absurd (ground (arith, r))
        first (some x) k r = rest (read_letters s x) refl r
          where
            rest :
                (o : Option Formatting)
                → read_letters s x ≡ o
                → then_some o ≡ some (some f)
                → Fine f
            rest none l q = absurd (ground (arith, q))
            rest (some y) l q =
                let same : y ≡ f = ground (arith, q) in
                subst Fine same (read_letters-Fine s x y (read_letter-Fine c blank x refl k) l)

-- A formatting that was read from an accepted text, in which the letters may stand in any order and
-- more than once, can be written once `dateTimePartPrecisionNone` stands for each of its null
-- pointers, and what is written is read as that same formatting, null pointers included.
pub get_date_time_format-canonical :
    (s : Bytes) (f : Formatting)
    → get_date_time_formatting_type s ≡ some (some f)
    → (r : Bytes) × (get_date_time_format (some (filled f)) ≡ some r)
      × (get_date_time_formatting_type r ≡ some (some f))
get_date_time_format-canonical s f h = let (u, k) = accepted-Fine s f h in read-written f u k
