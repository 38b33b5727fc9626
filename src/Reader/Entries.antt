-- ===== src/Reader/Entries.antt =====
-- The table of a layout, and the readings that `validate_object` (src/lib.rs) makes.
use zgcmaster.Prelude.{
  ℕ, suc, ◌+◌, ◌≤◌, ◌≡◌, true, false, Option, none, some, List, [], ◌∷◌, slice, get_elem?, ltb, leb,
  ◌==◌, ok, >>=-eq-ok, and_then, ok-injective, arith, Bool-cases, Option-cases, inl, inr, ap, sym,
  subst, ◌∙◌, ==_iff, leb→le, some_eq, ==_refl,
}
use zgcmaster.Words.{
  two64, chunk_size, max_file, i32_max, checked_add, checked_mul, aligned, number,
}
use zgcmaster.Layout.{Class}
use zgcmaster.Scan.{Bound, Object, bind_classes, lookup, within, array_size}
use zgcmaster.Reader.{Reader, bytes, validate_array_size, is_length}

-- An entry of the table comes from the class at its place in the layout.
pub record IsEntry (classes : List Class) (b : Bound) : Type 0 where
  pub at_place : get_elem? classes b.id ≡ some b.class
  pub identity : number b.class.klass ≡ ok b.klass

abbrev pub AllBounds : (Bound → Type 0) → List Bound → Type 0
AllBounds P [] = Unit
AllBounds P (b ∷ bs) = P b × AllBounds P bs

pub none-ne-some {ℓ} : {A : Type ℓ} {a : A} → ◌≡◌ {A = Option A} none (some a) → ⊥
none-ne-some e = cc

pub bind_classes-AllBounds :
    (all : List Class) (id : ℕ) (table : List Bound) (classes : List Class) {out : List Bound}
    → ((i : ℕ) → get_elem? classes i ≡ get_elem? all (id + i))
    → AllBounds (IsEntry all) table
    → bind_classes id table classes ≡ ok out
    → AllBounds (IsEntry all) out
unfolding bind_classes
bind_classes-AllBounds all id table [] place h e =
    subst (AllBounds (IsEntry all)) (ok-injective e) h
bind_classes-AllBounds all id table (c ∷ cs) place h e =
    let (klass, read, rest) = >>=-eq-ok (number c.klass) _ e in
    bind_classes-AllBounds all (suc id) (record { klass = klass; id = id; class = c } ∷ table) cs
      (λ i. place (suc i) ∙ ap (get_elem? all) (omega arith))
      (record { at_place = ap (get_elem? all) (omega arith) ∙ sym (place 0); identity = read }, h)
      rest

pub lookup-IsEntry :
    (classes : List Class) (table : List Bound) (klass : ℕ) (b : Bound)
    → AllBounds (IsEntry classes) table
    → lookup table klass ≡ some b
    → IsEntry classes b × (b.klass ≡ klass)
unfolding lookup
lookup-IsEntry classes [] klass b h e = absurd (none-ne-some e)
lookup-IsEntry classes (x ∷ xs) klass b h e = elim (Bool-cases (x.klass == klass)) [
  | inl here ↦
      let f : x ≡ b = some_eq (rw (here, lookup) at e) in
      (
        subst (IsEntry classes) f h.0,
        subst (λ (y : Bound). y.klass ≡ klass) f ((==_iff x.klass klass).0 here),
      )
  | inr later ↦ lookup-IsEntry classes xs klass b h.1 (rw (later, lookup) at e)
]

pub bytes-ok :
    (r : Reader) (offset count : ℕ)
    → count ≤ chunk_size
    → offset + count ≤ r.index.heap_bytes
    → r.index.heap_bytes ≤ max_file
    → bytes r offset count ≡ ok (slice offset count r.file)
unfolding bytes
bytes-ok r offset count few fits small =
    let a : ltb chunk_size count ≡ false = ground arith in
    let b : ltb (offset + count) two64 ≡ true = ground arith in
    let c : ltb r.index.heap_bytes (offset + count) ≡ false = ground arith in rw (a, b, c)

pub within-eq : (size offset n : ℕ) (o : Option ℕ) → within size offset o ≡ some n → o ≡ some n
unfolding within
within-eq size offset n none h = h
within-eq size offset n (some m) h = ground arith

array_size-eq :
    (class : Class) (w n : ℕ)
    → array_size class w ≡ some n
    → (w ≤ i32_max)
      × ((t : ℕ) × ((and_then (checked_mul w class.scale) λ m. checked_add m class.base) ≡ some t)
          × (aligned t ≡ some n))
unfolding array_size
array_size-eq class w n h = elim (Bool-cases (leb w i32_max)) [
  | inr big ↦ absurd (none-ne-some (rw big at h))
  | inl small ↦ (leb→le _ _ small, parts (checked_mul w class.scale) (rw small at h))
]
  where
    parts :
        (o : Option ℕ)
        → (and_then o λ m. and_then (checked_add m class.base) aligned) ≡ some n
        → (t : ℕ) × ((and_then o λ m. checked_add m class.base) ≡ some t) × (aligned t ≡ some n)
    parts none e = absurd (none-ne-some e)
    parts (some m) e = elim (Option-cases (checked_add m class.base)) [
      | inl over ↦ absurd (none-ne-some (rw over at e))
      | inr (t, f) ↦ (t, f, rw f at e)
    ]

pub validate_array_size-ok :
    (class : Class) (o : Object) (w n : ℕ)
    → o.length ≡ some w
    → array_size class w ≡ some n
    → validate_array_size class o w ≡ ok n
unfolding validate_array_size
validate_array_size-ok class o w n e h =
    let (small, (t, sum, up)) = array_size-eq class w n h in
    let low : ltb i32_max w ≡ false = ground arith in
    let same : is_length o.length w ≡ true = ap (λ l. is_length l w) e ∙ ==_refl w in
    rw (low, same, sum, up)

pub within-fits :
    (size offset n : ℕ) (o : Option ℕ)
    → size ≤ max_file
    → within size offset o ≡ some n
    → offset + n ≤ size
unfolding within
within-fits size offset n none small h = absurd (none-ne-some h)
within-fits size offset n (some m) small h = ground arith
