-- ===== src/Sorting.antt =====
-- `sort_by` and `sort_by_key` of the standard library, which are stable, and what sorting keeps.
use Prim.Native.String.{compare}
use Prim.Native.Nat.{Ordering}
use zgcmaster.Prelude.{
  String, suc, Bool, true, false, List, [], ◌∷◌, length, filter, AllOf, if◌then◌else◌, ◌≡◌, refl,
  ap, ◌∙◌, Bool-cases, inl, inr,
}

abbrev pub text_less : String → String → Bool
text_less s t = elim (compare s t) [ Ordering.lt ↦ true | _ ↦ false ]

-- `sort_by`, which keeps the order of equals: `x` goes before the first that comes after it.
unfoldable pub insert_by {ℓ} : {A : Type ℓ} → (A → A → Bool) → A → List A → List A
insert_by before x [] = x ∷ []
insert_by before x (y ∷ ys) =
    let after = insert_by before x ys in if before y x then y ∷ after else x ∷ y ∷ ys

unfoldable pub sort_by {ℓ} : {A : Type ℓ} → (A → A → Bool) → List A → List A
unfolding insert_by
sort_by before [] = []
sort_by before (x ∷ xs) = insert_by before x (sort_by before xs)

pub insert_by-AllOf {ℓ} :
    {A : Type ℓ} (P : A → Type 0) (before : A → A → Bool) (x : A) (ys : List A)
    → P x
    → AllOf P ys
    → AllOf P (insert_by before x ys)
unfolding insert_by
insert_by-AllOf P before x [] h hs = (h, tt)
insert_by-AllOf P before x (y ∷ ys) h hs = elim (Bool-cases (before y x)) [
  | inl first ↦ rw first (hs.0, insert_by-AllOf P before x ys h hs.1)
  | inr later ↦ rw later (h, hs)
]

pub sort_by-AllOf {ℓ} :
    {A : Type ℓ} (P : A → Type 0) (before : A → A → Bool) (xs : List A)
    → AllOf P xs
    → AllOf P (sort_by before xs)
unfolding sort_by
sort_by-AllOf P before [] h = tt
sort_by-AllOf P before (x ∷ xs) h =
    insert_by-AllOf P before x (sort_by before xs) h.0 (sort_by-AllOf P before xs h.1)

length-insert_by {ℓ} :
    {A : Type ℓ} (before : A → A → Bool) (x : A) (ys : List A)
    → length (insert_by before x ys) ≡ suc (length ys)
unfolding insert_by
length-insert_by before x [] = refl
length-insert_by before x (y ∷ ys) = elim (Bool-cases (before y x)) [
  | inl first ↦ rw first (ap suc (length-insert_by before x ys))
  | inr later ↦ rw later refl
]

pub length-sort_by {ℓ} :
    {A : Type ℓ} (before : A → A → Bool) (xs : List A) → length (sort_by before xs) ≡ length xs
unfolding sort_by
length-sort_by before [] = refl
length-sort_by before (x ∷ xs) =
    length-insert_by before x (sort_by before xs) ∙ ap suc (length-sort_by before xs)

count-insert_by {ℓ} :
    {A : Type ℓ} (p : A → Bool) (before : A → A → Bool) (x : A) (ys : List A)
    → length (filter p (insert_by before x ys)) ≡ length (filter p (x ∷ ys))
unfolding insert_by
count-insert_by p before x [] = refl
count-insert_by p before x (y ∷ ys) = elim (Bool-cases (before y x)) [
  | inl first ↦ rw first (swap (p x) (p y) (count-insert_by p before x ys))
  | inr later ↦ rw later refl
]
  where
    swap :
        (a b : Bool)
        → length (filter p (insert_by before x ys))
          ≡ length (elim a [ true ↦ x ∷ filter p ys | false ↦ filter p ys ])
        → length (elim b [
          | true ↦ y ∷ filter p (insert_by before x ys)
          | false ↦ filter p (insert_by before x ys)
        ])
          ≡ length (elim a [
            | true ↦ x ∷ elim b [ true ↦ y ∷ filter p ys | false ↦ filter p ys ]
            | false ↦ elim b [ true ↦ y ∷ filter p ys | false ↦ filter p ys ]
          ])
    swap true true e = ap suc e
    swap true false e = e
    swap false true e = ap suc e
    swap false false e = e

-- Sorting keeps how many elements pass a test.
pub count-sort_by {ℓ} :
    {A : Type ℓ} (p : A → Bool) (before : A → A → Bool) (xs : List A)
    → length (filter p (sort_by before xs)) ≡ length (filter p xs)
unfolding sort_by
count-sort_by p before [] = refl
count-sort_by p before (x ∷ xs) =
    count-insert_by p before x (sort_by before xs) ∙ kept (p x) (count-sort_by p before xs)
  where
    kept :
        (a : Bool)
        → length (filter p (sort_by before xs)) ≡ length (filter p xs)
        → length (elim a [
          | true ↦ x ∷ filter p (sort_by before xs)
          | false ↦ filter p (sort_by before xs)
        ])
          ≡ length (elim a [ true ↦ x ∷ filter p xs | false ↦ filter p xs ])
    kept true e = ap suc e
    kept false e = e

-- A relation between each element and the next.
unfoldable pub Adjacent {ℓ} : {A : Type ℓ} → (A → A → Type 0) → List A → Type 0
Adjacent R [] = Unit
Adjacent R (x ∷ []) = Unit
Adjacent R (x ∷ y ∷ ys) = R x y × Adjacent R (y ∷ ys)

module _ {ℓ} {A : Type ℓ} (before : A → A → Bool) (R : A → A → Type 0)
    (placed : (x y : A) → before x y ≡ true → R x y)
    (kept : (x y : A) → before y x ≡ false → R x y) where
  insert_by-Adjacent : (x : A) (ys : List A) → Adjacent R ys → Adjacent R (insert_by before x ys)
  unfolding insert_by Adjacent
  insert_by-Adjacent x [] h = tt
  insert_by-Adjacent x (y ∷ []) h = elim (Bool-cases (before y x)) [
    | inl first ↦ rw first (placed y x first, tt)
    | inr later ↦ rw later (kept x y later, tt)
  ]
  insert_by-Adjacent x (y ∷ z ∷ zs) h = elim (Bool-cases (before y x)) [
    | inr later ↦ rw later (kept x y later, h)
    | inl first ↦ elim (Bool-cases (before z x)) [
      | inr here ↦ rw (first, here) (placed y x first, (kept x z here, h.1))
      | inl past ↦ rw (first, past) (h.0, rw past at (insert_by-Adjacent x (z ∷ zs) h.1))
    ]
  ]

  -- A sorted list is in the order of the relation that the comparison decides.
  pub sort_by-Adjacent : (xs : List A) → Adjacent R (sort_by before xs)
  unfolding sort_by Adjacent
  sort_by-Adjacent [] = tt
  sort_by-Adjacent (x ∷ xs) = insert_by-Adjacent x (sort_by before xs) (sort_by-Adjacent xs)
