-- ===== src/Storage/Memory/Store/Reads.antt =====
-- internal/adapter/storage/memory/store.go: what `GetLatest` and `GetHistory` find.
use crypto_price_aggregator.Base.{
  ℕ, ◌≤◌, ◌<◌, ◌≡◌, ◌≢◌, ◌∙◌, sym, subst, refl, ◌⊎◌, inl, inr, String, List, [], ◌∷◌, ◌++◌, none,
  some, arith, eq_refl, All, All-imp, keep_if-All,
}
use crypto_price_aggregator.Base.Dict.{entries_at, append_to, entries_at-append_to}
use crypto_price_aggregator.Base.Sort.{IsSorted, IsWeakOrder, sort_slice-IsSorted, All-sort_slice}
use crypto_price_aggregator.Domain.{Price}
use crypto_price_aggregator.Storage.Key.{pair_key}
use crypto_price_aggregator.Storage.Memory.Store.{
  Prices, save, later, get_latest, get_history, in_window, received_before,
}

pub received_before-IsWeakOrder : {D F : Type 0} → IsWeakOrder (received_before {D = D} {F = F})
received_before-IsWeakOrder = record {
  asymmetric = λ a b h. ground arith;
  transitive = λ a b c h k. ground arith;
}

module _ {D F : Type 0} where
  abbrev pub NotAfter : ℕ → List (Price D F) → Type 0
  NotAfter t = All (λ e. e.received_at ≤ t)

  List-cases :
      (xs : List (Price D F))
      → (xs ≡ []) ⊎ ((x : Price D F) × (rest : List (Price D F)) × (xs ≡ x ∷ rest))
  List-cases [] = inl refl
  List-cases (x ∷ xs) = inr (x, xs, refl)

  snoc≢nil : (x : Price D F) (xs : List (Price D F)) → (xs ++ x ∷ []) ≢ []
  snoc≢nil x [] e = cc
  snoc≢nil x (y ∷ xs) e = cc

  All-last :
      (P : Price D F → Type 0) (x : Price D F) (xs : List (Price D F)) → All P (xs ++ x ∷ []) → P x
  All-last P x [] h = h.0
  All-last P x (y ∷ xs) h = All-last P x xs h.1

  later-ge : (p : Price D F) (ps : List (Price D F)) → p.received_at ≤ (later p ps).received_at
  unfolding later
  later-ge p [] = omega arith
  later-ge p (q ∷ ps) = ground (arith, later-ge p ps, later-ge q ps)

  later-NotAfter : (p : Price D F) (ps : List (Price D F)) → NotAfter (later p ps).received_at ps
  unfolding later
  later-NotAfter p [] = tt
  later-NotAfter p (q ∷ ps) =
      ground (arith, later-ge p ps, later-ge q ps, later-NotAfter p ps, later-NotAfter q ps)

  -- The latest price is one than which no price saved for the coin and currency was received later; it
  -- is missing only when none was saved.
  pub get_latest-NotAfter :
      (coin currency : String) (s : Prices D F)
      → ((get_latest coin currency s ≡ none) × (entries_at (pair_key coin currency) s ≡ []))
        ⊎ ((p : Price D F) × (get_latest coin currency s ≡ some p)
            × NotAfter p.received_at (entries_at (pair_key coin currency) s))
  unfolding get_latest
  get_latest-NotAfter coin currency s = elim (List-cases (entries_at (pair_key coin currency) s)) [
    | inl e ↦ inl (ground (arith, e), e)
    | inr (p, ps, e) ↦ inr (
      later p ps,
      ground (arith, e),
      subst (NotAfter (later p ps).received_at) (sym e) (later-ge p ps, later-NotAfter p ps),
    )
  ]

  -- A saved price can be found at once: the latest of its coin and currency is received no earlier.
  pub get_latest-save :
      (p : Price D F) (s : Prices D F)
      → (q : Price D F) × (get_latest p.coin_id p.currency (save p s) ≡ some q)
        × (p.received_at ≤ q.received_at)
  unfolding save
  get_latest-save p s =
      let key = pair_key p.coin_id p.currency in
      let added : entries_at key (append_to key p s) ≡ entries_at key s ++ p ∷ [] =
        ground (arith, entries_at-append_to key key p s, eq_refl key) in
      elim (get_latest-NotAfter p.coin_id p.currency (append_to key p s)) [
        | inl (e, n) ↦ absurd (snoc≢nil p (entries_at key s) (sym added ∙ n))
        | inr (q, e, all) ↦ (
          q,
          e,
          All-last (λ x. x.received_at ≤ q.received_at) p (entries_at key s)
              (subst (NotAfter q.received_at) added all),
        )
      ]

  -- The history lies in the half-open window and is sorted by the time of receipt.
  pub get_history-IsSorted :
      (coin currency : String) (from to : ℕ) (s : Prices D F)
      → IsSorted received_before (get_history coin currency from to s)
        × All
            (λ e. (from ≤ e.received_at) × (e.received_at < to))
            (get_history coin currency from to s)
  unfolding get_history
  get_history-IsSorted coin currency from to s = (
    sort_slice-IsSorted received_before received_before-IsWeakOrder _,
    All-sort_slice received_before _ _ (
        All-imp _ _ _ (λ e h. ground arith)
          (keep_if-All (in_window from to) (entries_at (pair_key coin currency) s))),
  )
