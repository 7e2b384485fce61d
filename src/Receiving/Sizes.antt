-- ===== src/Receiving/Sizes.antt =====
-- The size of an answer with updates.
use core_telegram_api.Common.{
  ℕ, ◌+◌, ◌-◌, ◌≤◌, ◌<◌, ◌≡◌, refl, ap, subst, inl, inr, List, [], ◌∷◌, ◌++◌, arith, leb, leb→le,
  Bool-cases, nat_eq, bytes_eq, int_eq,
}
use core_telegram_api.Receiving.{Tdlib}
use core_telegram_api.Receiving.Updates.{json_updates}

module _ {Q U : Type 0} (lib : Tdlib Q U) where
  -- What `JsonUpdates` counts for updates.
  abbrev pub counted_size : List U → ℕ
  counted_size [] = 0
  counted_size (u ∷ us) = 50 + lib.data_size u + counted_size us

  -- The updates in an answer of at most `left_len` bytes are the first ones, they count for less
  -- than `left_len`, and the next one would not.
  pub json_updates_lem :
      (left_len : ℕ) (us : List U)
      → 0 < left_len
      → (rest : List U) × (us ≡ json_updates lib left_len us ++ rest)
        × (counted_size (json_updates lib left_len us) < left_len)
        × ((u : U) (others : List U)
            → rest ≡ u ∷ others
            → left_len ≤ counted_size (json_updates lib left_len us ++ u ∷ []))
  unfolding json_updates
  json_updates_lem left_len [] h = ([], refl, h, λ u others e. absurd (ground (arith, e)))
  json_updates_lem left_len (u ∷ us) h = elim (Bool-cases (leb left_len (50 + lib.data_size u))) [
    | inl full ↦ rw full (
      u ∷ us,
      refl,
      h,
      λ v others e.
          let same : u ≡ v = ground (arith, e) in
          let large : left_len ≤ 50 + lib.data_size u = leb→le _ _ full in
          subst (λ w. left_len ≤ 50 + lib.data_size w + 0) same (omega (arith, large)),
    )
    | inr fits ↦
        let small : 50 + lib.data_size u < left_len = ground (arith, fits) in
        let (rest, split, less, next) =
          json_updates_lem (left_len - (50 + lib.data_size u)) us (omega (arith, small)) in
        rw fits (
          rest,
          ap (λ xs. u ∷ xs) split,
          omega (arith, small, less),
          λ v others e. omega (arith, small, next v others e),
        )
  ]
