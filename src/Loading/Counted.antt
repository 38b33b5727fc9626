-- ===== src/Loading/Counted.antt =====
-- The class counts of a scan that keeps its objects are those that `load_index` (src/lib.rs) makes of
-- the objects.
use zgcmaster.Prelude.{
  ℕ, zero, suc, ◌+◌, ◌*◌, ◌≤◌, min, true, false, String, Option, none, some, List, [], ◌∷◌, ◌++◌,
  map, length, get_elem?, contains, ==_refl, ◌is◌, eq_iff, AllOf, ok, ◌≡◌, refl, sym, ap, ◌∙◌,
  subst, arith, Bool-cases, inl, inr, some_eq,
}
use zgcmaster.Dict.{Counts, plus, add_to, bump, total}
use zgcmaster.Dict.Laws.{total-bump}
use zgcmaster.Dict.Order.{IsSorted, upsert-AllOf, upsert-IsSorted}
use zgcmaster.Layout.{Class, Layout, klass_width, length_offset}
use zgcmaster.Walk.{single_pass}
use zgcmaster.Walk.SinglePass.{single_pass_inv}
use zgcmaster.Scan.{
  Object, Config, Bound, Header, State, Index, bind_classes, lookup, visit, read_header,
  start_state,
}
use zgcmaster.Scan.Visit.{Visited, passed, kept, streamed, new_object, visit-Visited}
use zgcmaster.Reader.{class_name, class_of_layout}
use zgcmaster.Reader.Entries.{IsEntry, lookup-IsEntry, bind_classes-AllBounds}
use zgcmaster.Loading.{count_objects, same_counts}

pub same_counts_refl : (m : Counts) → same_counts m m ≡ true
unfolding same_counts
same_counts_refl [] = refl
same_counts_refl ((k, n) ∷ m) = rw ((eq_iff k k).1 refl, ==_refl n, same_counts_refl m)

count_objects-append :
    (index : Index) (m : Counts) (os : List Object) (o : Object)
    → count_objects index m (os ++ o ∷ []) ≡ bump (class_name index o) (count_objects index m os)
unfolding count_objects
count_objects-append index m [] o = refl
count_objects-append index m (p ∷ os) o =
    count_objects-append index (bump (class_name index p) m) os o

abbrev pub names_of : List Class → List String
names_of classes = map (λ (c : Class). c.name) classes

contains-name :
    (classes : List Class) (i : ℕ) (c : Class)
    → get_elem? classes i ≡ some c
    → contains (names_of classes) c.name ≡ true
contains-name [] i c h = cc
contains-name (x ∷ xs) zero c h =
    let e : (x.name is c.name) ≡ true = (eq_iff _ _).1 (ap (λ (d : Class). d.name) (some_eq h)) in
    rw e
contains-name (x ∷ xs) (suc i) c h = elim (Bool-cases (x.name is c.name)) [
  | inl here ↦ rw here
  | inr later ↦ rw later (contains-name xs i c h)
]

module _ (index : Index) (layout : Layout) (with_layout : index.layout ≡ some layout) (c : Config)
    (bound : bind_classes 0 [] layout.classes ≡ ok c.table) (off : c.streaming ≡ false) where
  -- The counts are those of the objects, under names of the layout, and each object takes 8 bytes
  -- before the limit.
  pub record IsCounted (limit : ℕ) (s : State) : Type 0 where
    pub counted : s.class_counts ≡ count_objects index [] s.objects
    pub spaced : 8 * total s.class_counts ≤ limit
    pub sorted : IsSorted s.class_counts
    pub named : AllOf (λ e. contains (names_of layout.classes) e.0 ≡ true) s.class_counts

  bumped :
      (name : String) (m : Counts)
      → contains (names_of layout.classes) name ≡ true
      → IsSorted m
      → AllOf (λ e. contains (names_of layout.classes) e.0 ≡ true) m
      → IsSorted (bump name m)
        × AllOf (λ e. contains (names_of layout.classes) e.0 ≡ true) (bump name m)
  unfolding bump add_to
  bumped name m known sorted named = (
    upsert-IsSorted name (plus 1) m sorted,
    upsert-AllOf (λ e. contains (names_of layout.classes) e.0 ≡ true) name (plus 1) m (λ o. known)
        named,
  )

  entry : (klass : ℕ) (b : Bound) → lookup c.table klass ≡ some b → IsEntry layout.classes b
  entry klass b found =
      (lookup-IsEntry layout.classes c.table klass b
        (bind_classes-AllBounds layout.classes 0 [] layout.classes
          (λ i. ap (get_elem? layout.classes) (omega arith)) tt bound)
        found).0

  class_name-new_object :
      (offset n : ℕ) (b : Bound) (h : Header)
      → IsEntry layout.classes b
      → class_name index (new_object b offset h n) ≡ b.class.name
  unfolding class_name class_of_layout
  class_name-new_object offset n b h i =
      ap (λ l. name_or (class_of_layout l b.id)) with_layout ∙ ap name_or i.at_place
    where
      name_or : Option Class → String
      name_or none = "unknown"
      name_or (some class) = class.name

  Visited-IsCounted :
      (size offset : ℕ) (h : Header) (s s' : State)
      → IsCounted (min offset size) s
      → offset + 16 ≤ size
      → Visited c offset h s s'
      → IsCounted (min (offset + 8) size) s'
  Visited-IsCounted size offset h s s' i room (passed eo ec er) = record {
    counted = ec ∙ i.counted ∙ ap (count_objects index []) (sym eo);
    spaced = omega (arith, ap total ec, i.spaced, room);
    sorted = subst IsSorted (sym ec) i.sorted;
    named = subst (AllOf (λ e. contains (names_of layout.classes) e.0 ≡ true)) (sym ec) i.named;
  }
  Visited-IsCounted size offset h s s' i room (kept b n a still few eo ec er) =
      let at_entry = entry h.klass b a.bound in
      let (sorted, named) =
        bumped b.class.name s.class_counts
          (contains-name layout.classes b.id b.class at_entry.at_place) i.sorted i.named in
      record {
        counted =
            ec
            ∙ ap (bump b.class.name) i.counted
            ∙ ap (λ k. bump k (count_objects index [] s.objects))
                (sym (class_name-new_object offset n b h at_entry))
            ∙ sym (count_objects-append index [] s.objects (new_object b offset h n))
            ∙ ap (count_objects index []) (sym eo);
        spaced = omega (arith, ap total ec, total-bump b.class.name s.class_counts, i.spaced, room);
        sorted = subst IsSorted (sym ec) sorted;
        named = subst (AllOf (λ e. contains (names_of layout.classes) e.0 ≡ true)) (sym ec) named;
      }
  Visited-IsCounted size offset h s s' i room (streamed b n a on eo ec er) = absurd (clash on)
    where
      clash : c.streaming ≡ true → ⊥
      clash on = cc (on, off)

  weaken : (n n' : ℕ) (s : State) → n ≤ n' → IsCounted n s → IsCounted n' s
  weaken n n' s le i = record {
    counted = i.counted;
    spaced = omega (arith, i.spaced);
    sorted = i.sorted;
    named = i.named;
  }

  pub pass-IsCounted :
      (heap : List ℕ) (rounds : ℕ) (s : State)
      → single_pass 16
          (read_header (klass_width layout) (length_offset layout))
          (visit c)
          heap
          (length heap)
          rounds
          0
          start_state
        ≡ ok s
      → IsCounted (length heap) s
  pass-IsCounted heap rounds s pass = weaken _ (length heap) s (omega arith) (
      single_pass_inv 16 (read_header (klass_width layout) (length_offset layout)) (visit c) heap
        (length heap) (λ o t. IsCounted (min o (length heap)) t)
        (λ o o' t le why i. weaken _ _ t (omega arith) i)
        (λ o t t' i even room e.
          Visited-IsCounted (length heap) o _ t t' i room (visit-Visited c o _ t t' e))
        rounds 0 start_state s refl
        (record {
          counted = unfold count_objects in refl;
          spaced = unfold total in omega arith;
          sorted = tt;
          named = tt;
        })
        pass)
