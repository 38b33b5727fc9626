-- ===== src/RawStrings/Population.antt =====
-- The String headers of a capture, counted offset by offset, and lists of distinct offsets.
use zgcmaster.Prelude.{
  ℕ, zero, suc, ◌+◌, ◌%◌, ◌≤◌, ◌<◌, ◌≡◌, refl, sym, ap, ◌∙◌, Bool, false, ◌&&◌, List, [], ◌∷◌, ◌++◌,
  length, slice, set, ltb, leb, ◌==◌, if◌then◌else◌, AllOf, AllOf-append, AllOf-map, Bool-cases,
  inl, inr, arith,
}
use zgcmaster.Sorting.{
  sort_by, insert_by, insert_by-AllOf, sort_by-AllOf, Adjacent, sort_by-Adjacent,
}
use zgcmaster.RawStrings.{Bindings, header_width}
use zgcmaster.RawStrings.Walk.{is_wanted}

-- A marked String header, whole and aligned, stands at the offset.
abbrev pub is_header : Bindings → List ℕ → ℕ → Bool
is_header b file offset =
    offset % 8 == 0
    && leb (offset + 32) (length file)
    && is_wanted (header_width b) (b.string_klass ∷ []) (slice offset 32 file)

-- How many of the offsets below `n` are such.
unfoldable pub headers_below : Bindings → List ℕ → ℕ → ℕ
headers_below b file zero = 0
headers_below b file (suc n) =
    let rest = headers_below b file n in if is_header b file n then rest + 1 else rest

module _ (b : Bindings) (file : List ℕ) where
  skip :
      (n : ℕ) → is_header b file n ≡ false → headers_below b file (suc n) ≡ headers_below b file n
  unfolding headers_below
  skip n e = rw e refl

  uneven : (n : ℕ) → (n % 8 == 0) ≡ false → headers_below b file (suc n) ≡ headers_below b file n
  uneven n e = skip n (rw e refl)

  -- Of eight offsets only the first is aligned.
  pub headers_below-word :
      (o : ℕ)
      → o % 8 ≡ 0
      → headers_below b file (o + 8)
        ≡ (if is_header b file o then headers_below b file o + 1 else headers_below b file o)
  unfolding headers_below
  headers_below-word o even =
      let seven : ℕ = suc (suc (suc (suc (suc (suc (suc o)))))) in
      ap (headers_below b file) (eight o)
      ∙ uneven seven (ground arith)
      ∙ uneven (suc (suc (suc (suc (suc (suc o)))))) (ground arith)
      ∙ uneven (suc (suc (suc (suc (suc o))))) (ground arith)
      ∙ uneven (suc (suc (suc (suc o)))) (ground arith)
      ∙ uneven (suc (suc (suc o))) (ground arith)
      ∙ uneven (suc (suc o)) (ground arith)
      ∙ uneven (suc o) (ground arith)
      ∙ first
    where
      first :
          headers_below b file (suc o)
          ≡ (if is_header b file o then headers_below b file o + 1 else headers_below b file o)
      first = refl

      eight : (n : ℕ) → n + 8 ≡ suc (suc (suc (suc (suc (suc (suc (suc n)))))))
      eight n = omega arith

  past : (n : ℕ) → length file < n + 32 → is_header b file n ≡ false
  past n h =
      let e : leb (n + 32) (length file) ≡ false = ground arith in
      ap
        (λ t. n % 8 == 0 && t && is_wanted (header_width b) (b.string_klass ∷ []) (slice n 32 file))
        e
      ∙ none (n % 8 == 0) _
    where
      none : (t u : Bool) → t && false && u ≡ false
      none t u = ground arith

  -- No header starts where fewer than 32 bytes are left.
  pub headers_below-past :
      (o m : ℕ) → length file < o + 32 → o ≤ m → headers_below b file m ≡ headers_below b file o
  headers_below-past o zero h le = ap (headers_below b file) (omega arith)
  headers_below-past o (suc m) h le = elim (Bool-cases (leb o m)) [
    | inl below ↦
        let le' : o ≤ m = ground arith in
        skip m (past m (omega arith)) ∙ headers_below-past o m h le'
    | inr top ↦ ap (headers_below b file) (reached top)
  ]
    where
      reached : leb o m ≡ false → suc m ≡ o
      reached top = ground arith

-- No offset stands twice in the list.
abbrev pub IsDistinct : List ℕ → Type 0
IsDistinct [] = Unit
IsDistinct (x ∷ xs) = AllOf (λ y. ¬ x ≡ y) xs × IsDistinct xs

pub IsDistinct-append :
    (xs : List ℕ) (o : ℕ) → AllOf (λ x. x < o) xs → IsDistinct xs → IsDistinct (xs ++ o ∷ [])
IsDistinct-append [] o small h = (tt, tt)
IsDistinct-append (x ∷ xs) o small h =
    (AllOf-append _ xs o h.0 (λ e. omega (arith, e, small.0)), IsDistinct-append xs o small.1 h.1)

pub set-AllOf : (P : ℕ → Type 0) (xs : List ℕ) (i v : ℕ) → P v → AllOf P xs → AllOf P (set xs i v)
set-AllOf P [] i v h hs = tt
set-AllOf P (x ∷ xs) zero v h hs = (h, hs.1)
set-AllOf P (x ∷ xs) (suc i) v h hs = (hs.0, set-AllOf P xs i v h hs.1)

pub set-IsDistinct :
    (xs : List ℕ) (i o : ℕ) → AllOf (λ x. x < o) xs → IsDistinct xs → IsDistinct (set xs i o)
set-IsDistinct [] i o small h = tt
set-IsDistinct (x ∷ xs) zero o small h = (AllOf-map xs (λ y l e. omega (arith, e, l)) small.1, h.1)
set-IsDistinct (x ∷ xs) (suc i) o small h =
    (set-AllOf _ xs i o (λ e. omega (arith, e, small.0)) h.0, set-IsDistinct xs i o small.1 h.1)

insert_by-IsDistinct :
    (before : ℕ → ℕ → Bool) (x : ℕ) (ys : List ℕ)
    → AllOf (λ y. ¬ x ≡ y) ys
    → IsDistinct ys
    → IsDistinct (insert_by before x ys)
unfolding insert_by
insert_by-IsDistinct before x [] new h = (tt, tt)
insert_by-IsDistinct before x (y ∷ ys) new h = elim (Bool-cases (before y x)) [
  | inl first ↦ rw first (
    insert_by-AllOf _ before x ys (λ e. new.0 (sym e)) h.0,
    insert_by-IsDistinct before x ys new.1 h.1,
  )
  | inr later ↦ rw later (new, h)
]

sort_by-IsDistinct :
    (before : ℕ → ℕ → Bool) (xs : List ℕ) → IsDistinct xs → IsDistinct (sort_by before xs)
unfolding sort_by
sort_by-IsDistinct before [] h = tt
sort_by-IsDistinct before (x ∷ xs) h =
    insert_by-IsDistinct before x (sort_by before xs) (sort_by-AllOf _ before xs h.0)
      (sort_by-IsDistinct before xs h.1)

-- Distinct offsets in order go up.
pub sort_by-up : (xs : List ℕ) → IsDistinct xs → Adjacent (λ x y. x < y) (sort_by ltb xs)
unfolding Adjacent
sort_by-up xs h =
    strict (sort_by ltb xs)
      (sort_by-Adjacent ltb (λ x y. x ≤ y) (λ x y less. ground arith) (λ x y less. ground arith) xs)
      (sort_by-IsDistinct ltb xs h)
  where
    strict : (ys : List ℕ) → Adjacent (λ x y. x ≤ y) ys → IsDistinct ys → Adjacent (λ x y. x < y) ys
    strict [] up differ = tt
    strict (x ∷ []) up differ = tt
    strict (x ∷ y ∷ ys) up differ = (omega (arith, up.0, differ.0.0), strict (y ∷ ys) up.1 differ.1)
