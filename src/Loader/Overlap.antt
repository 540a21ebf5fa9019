-- ===== src/Loader/Overlap.antt =====
-- `_check_non_overlapping`: no two of the regions that are loaded overlap.
use sel4cp.Prelude.{
  ℕ, ◌+◌, ◌≤◌, ◌≡◌, ◌↔◌, ◌⊎◌, inl, inr, refl, Bool, true, not, ◌||◌, List, [], ◌∷◌, ◌++◌, arith,
  Result, ok, err, exception, raise_if, Bool-cases, ◌>>◌, >>=-eq-ok, leb, length, All, All-append,
}

-- `(base, data)`.
abbrev pub Region : Type 0
Region = ℕ × List ℕ

-- `end <= b or base >= e`.
abbrev pub is_apart : ℕ → ℕ → ℕ × ℕ → Bool
is_apart base end (b, e) = leb end b || leb e base

unfoldable pub check_region : ℕ → ℕ → List (ℕ × ℕ) → Result (Unit {0})
check_region base end [] = ok tt
check_region base end (c ∷ checked) = do
  raise_if (not (is_apart base end c)) exception
  check_region base end checked

unfoldable pub check_from : List (ℕ × ℕ) → List Region → Result (Unit {0})
check_from checked [] = ok tt
check_from checked ((base, bytes) ∷ regions) = do
  check_region base (base + length bytes) checked
  check_from (checked ++ (base, base + length bytes) ∷ []) regions

unfoldable pub check_non_overlapping : List Region → Result (Unit {0})
check_non_overlapping regions = check_from [] regions

-- One of two regions ends before the other begins.
abbrev pub Apart : Region → Region → Type 0
Apart (b, xs) (c, ys) = (b + length xs ≤ c) ⊎ (c + length ys ≤ b)

abbrev pub NonOverlapping : List Region → Type 0
NonOverlapping [] = Unit
NonOverlapping (r ∷ rs) = All (Apart r) rs × NonOverlapping rs

check_region-true :
    (base end : ℕ) (checked : List (ℕ × ℕ))
    → check_region base end checked ≡ ok tt
    → All (λ c. is_apart base end c ≡ true) checked
unfolding check_region
check_region-true base end [] h = tt
check_region-true base end (c ∷ checked) h = elim (Bool-cases (is_apart base end c)) [
  | inl e ↦ (e, check_region-true base end checked (rw (e, check_region) at h))
  | inr e ↦ absurd (raised (check_region base end checked) (rw (e, check_region) at h))
]
  where
    raised : (m : Result (Unit {0})) → (err exception >> m) ≡ ok tt → ⊥
    raised m h = cc

check_region_returns :
    (base end : ℕ) (checked : List (ℕ × ℕ))
    → All (λ c. is_apart base end c ≡ true) checked
    → check_region base end checked ≡ ok tt
unfolding check_region
check_region_returns base end [] h = refl
check_region_returns base end (c ∷ checked) h =
    rw (h.0, check_region) (check_region_returns base end checked h.1)

-- Each region is apart from every pair of bounds that was checked.
abbrev Cleared : List (ℕ × ℕ) → List Region → Type 0
Cleared checked = All (λ r. All (λ c. is_apart r.0 (r.0 + length r.1) c ≡ true) checked)

Cleared-snoc :
    (checked : List (ℕ × ℕ)) (r : Region) (rs : List Region)
    → Cleared checked rs
    → All (Apart r) rs
    → Cleared (checked ++ (r.0, r.0 + length r.1) ∷ []) rs
Cleared-snoc checked r [] h k = tt
Cleared-snoc checked r (s ∷ rs) h k =
    let test : is_apart s.0 (s.0 + length s.1) (r.0, r.0 + length r.1) ≡ true = flip k.0 in
    (All-append _ checked _ h.0 (test, tt), Cleared-snoc checked r rs h.1 k.1)
  where
    flip : Apart r s → is_apart s.0 (s.0 + length s.1) (r.0, r.0 + length r.1) ≡ true
    flip (inl e) = ground arith
    flip (inr e) = ground arith

All-split :
    (P : ℕ × ℕ → Type 0) (xs : List (ℕ × ℕ)) (y : ℕ × ℕ) → All P (xs ++ y ∷ []) → All P xs × P y
All-split P [] y h = (tt, h.0)
All-split P (x ∷ xs) y h = let (front, last) = All-split P xs y h.1 in ((h.0, front), last)

Cleared-split :
    (checked : List (ℕ × ℕ)) (r : Region) (rs : List Region)
    → Cleared (checked ++ (r.0, r.0 + length r.1) ∷ []) rs
    → Cleared checked rs × All (Apart r) rs
Cleared-split checked r [] h = (tt, tt)
Cleared-split checked r (s ∷ rs) h =
    let (front, last) = All-split _ checked (r.0, r.0 + length r.1) h.0 in
    let (fronts, lasts) = Cleared-split checked r rs h.1 in ((front, fronts), (flip last, lasts))
  where
    flip : is_apart s.0 (s.0 + length s.1) (r.0, r.0 + length r.1) ≡ true → Apart r s
    flip e = ground arith

check_from-true :
    (checked : List (ℕ × ℕ)) (rs : List Region)
    → check_from checked rs ≡ ok tt
    → Cleared checked rs × NonOverlapping rs
unfolding check_from
check_from-true checked [] h = (tt, tt)
check_from-true checked (r ∷ rs) h =
    let (_, one, more) = >>=-eq-ok (check_region r.0 (r.0 + length r.1) checked) _ h in
    let (cleared, apart) = check_from-true (checked ++ (r.0, r.0 + length r.1) ∷ []) rs more in
    let (front, last) = Cleared-split checked r rs cleared in
    ((check_region-true r.0 (r.0 + length r.1) checked one, front), (last, apart))

check_from_returns :
    (checked : List (ℕ × ℕ)) (rs : List Region)
    → Cleared checked rs
    → NonOverlapping rs
    → check_from checked rs ≡ ok tt
unfolding check_from
check_from_returns checked [] h k = refl
check_from_returns checked (r ∷ rs) h k =
    rw (check_region_returns r.0 (r.0 + length r.1) checked h.0) (
      check_from_returns (checked ++ (r.0, r.0 + length r.1) ∷ []) rs
        (Cleared-snoc checked r rs h.1 k.0) k.1)

Cleared-nil : (rs : List Region) → Cleared [] rs
Cleared-nil [] = tt
Cleared-nil (r ∷ rs) = (tt, Cleared-nil rs)

-- The check passes exactly where of every two of the regions one ends before the other begins.
pub check_non_overlapping-NonOverlapping :
    (regions : List Region) → check_non_overlapping regions ≡ ok tt ↔ NonOverlapping regions
unfolding check_non_overlapping
check_non_overlapping-NonOverlapping regions = (
  λ h. (check_from-true [] regions h).1,
  λ k. check_from_returns [] regions (Cleared-nil regions) k,
)
