-- ===== src/Storage/History.antt =====
-- What GetHistory of internal/storage/boltdb.go returns, against a description by filtering.
use clipman_daemon.Prelude.{
  ℕ, zero, suc, ◌+◌, ◌≡◌, refl, ap, ◌∙◌, true, false, none, some, List, [], ◌∷◌, take, arith,
}
use clipman_daemon.Prelude.Int.{ℤ, pos, negsuc, ltb_ℤ}
use clipman_daemon.Content.{ClipboardContent, HistoryOptions}
use clipman_daemon.Storage.Cursor.{Bucket}
use clipman_daemon.Storage.Services.{Backend}
use clipman_daemon.Storage.Reads.{accept_entry, limit_reached, history_loop}

-- At most `limit` items, where the limit is positive.
abbrev pub take_limit {ℓ} : {A : Type ℓ} → ℤ → List A → List A
take_limit (pos zero) l = l
take_limit (pos (suc n)) l = take (suc n) l
take_limit (negsuc n) l = l

pub take_limit-nil : (l : ℤ) → take_limit {A = ClipboardContent} l [] ≡ []
take_limit-nil (pos zero) = refl
take_limit-nil (pos (suc n)) = refl
take_limit-nil (negsuc n) = refl

limit_last : (l : ℤ) (count : ℕ) → l ≡ pos (count + 1) → limit_reached l (count + 1) ≡ true
unfolding limit_reached
limit_last l count h = ground arith

limit_more :
    (l : ℤ) (r count : ℕ) → l ≡ pos (count + suc (suc r)) → limit_reached l (count + 1) ≡ false
unfolding limit_reached
limit_more l r count h = ground arith

no_limit : (l : ℤ) (count : ℕ) → ltb_ℤ (pos 0) l ≡ false → limit_reached l count ≡ false
unfolding limit_reached
no_limit l count h = ground arith

module _ (e : Backend) where
  -- The items that pass every test, in the order of the entries.
  unfoldable pub accepted : HistoryOptions → Bucket → List ClipboardContent
  accepted o [] = []
  accepted o (x ∷ m) = elim (accept_entry e o x) [ none ↦ accepted o m | some c ↦ c ∷ accepted o m ]

  loop_limited :
      (o : HistoryOptions) (r count : ℕ) (m : Bucket)
      → o.limit ≡ pos (count + suc r)
      → history_loop e o m count ≡ take (suc r) (accepted o m)
  unfolding history_loop accepted
  loop_limited o r count [] h = refl
  loop_limited o zero count (x ∷ m) h =
      ground (arith, loop_limited o zero count m h, limit_last o.limit count h)
  loop_limited o (suc r) count (x ∷ m) h = ground (
    arith,
    loop_limited o (suc r) count m h,
    loop_limited o r (count + 1) m (h ∙ ap pos (omega arith)),
    limit_more o.limit r count h,
  )

  loop_unlimited :
      (o : HistoryOptions) (count : ℕ) (m : Bucket)
      → ltb_ℤ (pos 0) o.limit ≡ false
      → history_loop e o m count ≡ accepted o m
  unfolding history_loop accepted
  loop_unlimited o count [] h = refl
  loop_unlimited o count (x ∷ m) h = ground (
    arith,
    loop_unlimited o count m h,
    loop_unlimited o (count + 1) m h,
    no_limit o.limit (count + 1) h,
  )

  limit_split :
      (o : HistoryOptions) (m : Bucket) (l : ℤ)
      → o.limit ≡ l
      → history_loop e o m 0 ≡ take_limit l (accepted o m)
  limit_split o m (pos zero) h = loop_unlimited o 0 m (ground arith)
  limit_split o m (pos (suc n)) h = loop_limited o n 0 m (h ∙ ap pos (omega arith))
  limit_split o m (negsuc n) h = loop_unlimited o 0 m (ground arith)

  -- The loop returns the items that pass, in the order of the entries, up to the limit.
  pub history_loop_lem :
      (o : HistoryOptions) (m : Bucket) → history_loop e o m 0 ≡ take_limit o.limit (accepted o m)
  history_loop_lem o m = limit_split o m o.limit refl
