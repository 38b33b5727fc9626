-- ===== src/Profiles/Laws.antt =====
-- The templates of src/profiles.rs against `validate_layout` of src/lib.rs.
use zgcmaster.Prelude.{
  ℕ, ◌+◌, ◌%◌, ◌≤◌, ◌<◌, ◌≡◌, refl, sym, ap, subst, Bool, true, false, not, String, List, [], ◌∷◌,
  length, filter, ltb, contains, if◌then◌else◌, ok, >>-eq-ok, refuse_if, ok-injective, arith,
}
use zgcmaster.Dict.{Dict}
use zgcmaster.Words.{width}
use zgcmaster.Layout.{Field, Class, Layout, supported, compressed, length_offset}
use zgcmaster.Layout.Laws.{IsKind, IsField, AllFields, array, instance_of}
use zgcmaster.Profiles.{
  boot, boot_layout, templates, instance_template, array_template, is_bound, is_narrow,
}

abbrev pub AllClasses : (Class → Type 0) → List Class → Type 0
AllClasses P [] = Unit
AllClasses P (c ∷ cs) = P c × AllClasses P cs

filter-AllClasses :
    (P : Class → Type 0) (p : Class → Bool) (cs : List Class)
    → AllClasses P cs
    → AllClasses (λ c. P c × (p c ≡ true)) (filter p cs)
filter-AllClasses P p [] h = tt
filter-AllClasses P p (c ∷ cs) (h, hs) = at_head (filter-AllClasses P p cs hs) (p c) refl
  where
    at_head :
        AllClasses (λ x. P x × (p x ≡ true)) (filter p cs)
        → (b : Bool) → p c ≡ b
        → AllClasses
            (λ x. P x × (p x ≡ true))
            (elim b [ true ↦ c ∷ filter p cs | false ↦ filter p cs ])
    at_head rest true kept = ((h, kept), rest)
    at_head rest false dropped = rest

array_template-IsKind :
    (layout : Layout) (bindings : Dict String) (name element : String) (scale : ℕ)
    → width element ≡ ok scale
    → IsKind layout (array_template bindings (compressed layout) name element scale)
unfolding array_template length_offset
array_template-IsKind layout bindings name element scale h =
    array refl (record { length_place = refl; base_place = refl; element_width = h })

made-IsField :
    (layout : Layout) (class : Class) (name : String) (offset w : ℕ) (type : String)
    → width type ≡ ok w
    → (if compressed layout then 12 else 16) ≤ offset
    → offset + w ≤ class.size
    → IsField layout class (record { name = name; offset = offset; type = type })
made-IsField layout class name offset w type h low high = record {
  bytes = w;
  typed = h;
  after_header = low;
  inside = high;
}

instance_template-IsKind :
    (layout : Layout) (bindings : Dict String) (name : String) (size : ℕ) (fields : List Field)
    → 16 ≤ size
    → size ≤ 48
    → size % 8 ≡ 0
    → AllFields (IsField layout (instance_template bindings name size fields)) fields
    → IsKind layout (instance_template bindings name size fields)
unfolding instance_template
instance_template-IsKind layout bindings name size fields least most even h =
    instance_of refl refl (record { least = least; most = omega arith; aligned = even; fields = h })

templates-IsKind :
    (layout : Layout) (bindings : Dict String) (n : Bool)
    → compressed layout ≡ n
    → AllClasses (IsKind layout) (templates bindings n)
unfolding templates width instance_template
templates-IsKind layout bindings true e =
    let low : (if compressed layout then 12 else 16) ≤ 12 = ground (arith, e) in
    (
      instance_template-IsKind layout bindings _ 32 _ (omega arith) (omega arith) refl (
        made-IsField layout _ _ _ 4 _ refl (omega (arith, low)) (omega arith),
        (
          made-IsField layout _ _ _ 1 _ refl (omega (arith, low)) (omega arith),
          (
            made-IsField layout _ _ _ 1 _ refl (omega (arith, low)) (omega arith),
            (made-IsField layout _ _ _ 8 _ refl (omega (arith, low)) (omega arith), tt),
          ),
        ),
      ),
      (
        instance_template-IsKind layout bindings _ 32 _ (omega arith) (omega arith) refl (
          made-IsField layout _ _ _ 4 _ refl (omega (arith, low)) (omega arith),
          (
            made-IsField layout _ _ _ 4 _ refl (omega (arith, low)) (omega arith),
            (made-IsField layout _ _ _ 8 _ refl (omega (arith, low)) (omega arith), tt),
          ),
        ),
        (
          instance_template-IsKind layout bindings _ 40 _ (omega arith) (omega arith) refl (
            made-IsField layout _ _ _ 4 _ refl (omega (arith, low)) (omega arith),
            (
              made-IsField layout _ _ _ 8 _ refl (omega (arith, low)) (omega arith),
              (
                made-IsField layout _ _ _ 8 _ refl (omega (arith, low)) (omega arith),
                (made-IsField layout _ _ _ 8 _ refl (omega (arith, low)) (omega arith), tt),
              ),
            ),
          ),
          (
            of_width "[B" "byte" 1 refl,
            (of_width "[I" "int" 4 refl, (of_width "[J" "long" 8 refl, tt)),
          ),
        ),
      ),
    )
  where
    of_width :
        (name element : String) (scale : ℕ)
        → width element ≡ ok scale
        → IsKind layout (array_template bindings true name element scale)
    of_width name element scale h =
        subst (λ k. IsKind layout (array_template bindings k name element scale)) e
          (array_template-IsKind layout bindings name element scale h)
templates-IsKind layout bindings false e =
    let low : (if compressed layout then 12 else 16) ≤ 16 = ground (arith, e) in
    (
      instance_template-IsKind layout bindings _ 32 _ (omega arith) (omega arith) refl (
        made-IsField layout _ _ _ 4 _ refl (omega (arith, low)) (omega arith),
        (
          made-IsField layout _ _ _ 1 _ refl (omega (arith, low)) (omega arith),
          (
            made-IsField layout _ _ _ 1 _ refl (omega (arith, low)) (omega arith),
            (made-IsField layout _ _ _ 8 _ refl (omega (arith, low)) (omega arith), tt),
          ),
        ),
      ),
      (
        instance_template-IsKind layout bindings _ 32 _ (omega arith) (omega arith) refl (
          made-IsField layout _ _ _ 4 _ refl (omega (arith, low)) (omega arith),
          (
            made-IsField layout _ _ _ 4 _ refl (omega (arith, low)) (omega arith),
            (made-IsField layout _ _ _ 8 _ refl (omega (arith, low)) (omega arith), tt),
          ),
        ),
        (
          instance_template-IsKind layout bindings _ 48 _ (omega arith) (omega arith) refl (
            made-IsField layout _ _ _ 4 _ refl (omega (arith, low)) (omega arith),
            (
              made-IsField layout _ _ _ 8 _ refl (omega (arith, low)) (omega arith),
              (
                made-IsField layout _ _ _ 8 _ refl (omega (arith, low)) (omega arith),
                (made-IsField layout _ _ _ 8 _ refl (omega (arith, low)) (omega arith), tt),
              ),
            ),
          ),
          (
            of_width "[B" "byte" 1 refl,
            (of_width "[I" "int" 4 refl, (of_width "[J" "long" 8 refl, tt)),
          ),
        ),
      ),
    )
  where
    of_width :
        (name element : String) (scale : ℕ)
        → width element ≡ ok scale
        → IsKind layout (array_template bindings false name element scale)
    of_width name element scale h =
        subst (λ k. IsKind layout (array_template bindings k name element scale)) e
          (array_template-IsKind layout bindings name element scale h)

-- Where `boot` succeeds on some bindings, every class of its layout is laid out the way that
-- `validate_layout` asks of its profile, and has an identity among the bindings.
pub boot-IsKind :
    (profile : String) (bindings : Dict String) (layout : Layout)
    → 0 < length bindings
    → boot profile bindings ≡ ok layout
    → AllClasses (λ c. IsKind layout c × (is_bound bindings c ≡ true)) layout.classes
unfolding boot compressed
boot-IsKind profile bindings layout some_binding h =
    let (known, h₁) = >>-eq-ok (refuse_if (not (contains supported profile)) _) _ h in
    let (checked, made) = >>-eq-ok _ (ok (boot_layout profile bindings)) h₁ in
    let e : boot_layout profile bindings ≡ layout = ok-injective made in
    let nonempty : ltb 0 (length bindings) ≡ true = ground arith in
    subst (λ (l : Layout). AllClasses (λ c. IsKind l c × (is_bound bindings c ≡ true)) l.classes) e
      (subst
        (λ cs.
          AllClasses (λ c. IsKind (boot_layout profile bindings) c × (is_bound bindings c ≡ true))
            cs)
        (ap
          (λ b.
            if b
            then filter (is_bound bindings) (templates bindings (is_narrow profile))
            else templates bindings (is_narrow profile))
          (sym nonempty))
        (filter-AllClasses (IsKind (boot_layout profile bindings)) (is_bound bindings)
          (templates bindings (is_narrow profile))
          (templates-IsKind (boot_layout profile bindings) bindings (is_narrow profile) refl)))
