-- ===== src/Words/Laws.antt =====
-- What the word helpers of src/lib.rs promise.
use zgcmaster.Prelude.{ℕ, ◌+◌, ◌-◌, ◌%◌, ◌≤◌, ◌<◌, ◌≡◌, ◌↔◌, String, some, ok, arith}
use zgcmaster.Words.{two64, aligned, width}

-- `aligned` gives exactly the least multiple of 8 that is not smaller, and gives it exactly where
-- the sum with 7 is below 2 ^ 64.
pub aligned_lem :
    (n m : ℕ) → (aligned n ≡ some m) ↔ ((m % 8 ≡ 0) × (n ≤ m) × (m < n + 8) × (n + 7 < two64))
unfolding aligned
aligned_lem n m = (λ h. ground arith, λ h. ground arith)

pub aligned-some : (n : ℕ) → n + 7 < two64 → (m : ℕ) × (aligned n ≡ some m)
unfolding aligned
aligned-some n h = (n + 7 - (n + 7) % 8, ground arith)

pub width_values : (kind : String) (w : ℕ) → width kind ≡ ok w → (1 ≤ w) × (w ≤ 8)
unfolding width
width_values kind w h = ground arith
