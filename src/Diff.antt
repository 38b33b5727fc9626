-- ===== src/Diff.antt =====
-- `diff` of src/analysis.rs: the class counts of two indexes that can be compared.
use zgcmaster.Prelude.{
  ℕ, ◌+◌, ◌-◌, ◌<◌, leb, inl, inr, Bool-cases, arith, some_eq, ap, ◌≡◌, refl, sym, ◌∙◌, subst, Bool,
  true, false, ◌&&◌, ◌||◌, not, String, Option, none, some, List, [], ◌∷◌, ◌is◌, is_some,
  if◌then◌else◌, Result, ok, ◌>>=◌, ◌>>◌, refuse_if, ok_or, >>=-eq-ok, >>-eq-ok, refuse_if-eq-ok,
  ok-injective, eq_iff, ok_or-eq-ok,
}
use zgcmaster.Dict.{Dict, Counts, get, insert, insert_all}
use zgcmaster.Dict.Laws.{get-insert_all}
use zgcmaster.Layout.{Class, Layout}
use zgcmaster.Layout.Same.{same_class, and_both, not-not}
use zgcmaster.Scan.{Index}
use zgcmaster.Corpus.Diff.{Delta, up, down, delta}
use zgcmaster.Summary.{summary}

pub record ClassDelta : Type 0 where
  pub before : ℕ
  pub after : ℕ
  pub delta : Delta

pub record DiffReport : Type 0 where
  pub before_sha256 : String
  pub after_sha256 : String
  pub class_counts : Dict ClassDelta

-- The classes by their names, each less its identity.
unfoldable pub schemas : List Class → Dict Class → Dict Class
unfolding insert
schemas [] m = m
schemas (c ∷ cs) m = schemas cs (insert c.name (record c { klass = "" }) m)

unfoldable pub same_schemas : Dict Class → Dict Class → Bool
unfolding same_class
same_schemas [] [] = true
same_schemas ((j, c) ∷ cs) ((k, e) ∷ es) = j is k && same_class c e && same_schemas cs es
same_schemas _ _ = false

unfoldable pub same_names : List String → List String → Bool
same_names [] [] = true
same_names (s ∷ ss) (t ∷ ts) = s is t && same_names ss ts
same_names _ _ = false

abbrev pub same_flag : Bool → Bool → Bool
same_flag true b = b
same_flag false b = not b

abbrev pub is_comparable : Layout → Layout → Index → Index → Bool
is_comparable a b before after =
    a.profile is b.profile
    && a.java is b.java
    && a.architecture is b.architecture
    && same_names before.only after.only
    && same_flag before.identity_mapping after.identity_mapping
    && before.mode is after.mode

abbrev pub or_zero : Option ℕ → ℕ
or_zero none = 0
or_zero (some n) = n

-- The entry of a name.
unfoldable pub class_delta : Counts → Counts → String → ClassDelta
unfolding get
class_delta left right name =
    let old = or_zero (get name left) in
    let new = or_zero (get name right) in
    record { before = old; after = new; delta = delta old new }

-- The entries of the names of both.
unfoldable pub class_deltas : Counts → Counts → Dict ClassDelta
unfolding insert_all class_delta
class_deltas left right =
    insert_all (class_delta left right) right (insert_all (class_delta left right) left [])

-- `diff`.
unfoldable pub diff : Index → Index → Result DiffReport
unfolding schemas same_schemas same_names class_deltas summary
diff before after = do
  a ← ok_or before.layout "Diff requires typed indexes"
  b ← ok_or after.layout "Diff requires typed indexes"
  refuse_if (not (is_comparable a b before after))
      "Diff requires matching profile, JDK, architecture, mode and --only selection"
  refuse_if (not (same_schemas (schemas a.classes []) (schemas b.classes [])))
      "Class schemas differ; counts are not comparable"
  ok (record {
    before_sha256 = before.heap_sha256;
    after_sha256 = after.heap_sha256;
    class_counts = class_deltas (summary before).class_counts (summary after).class_counts;
  })

-- Two indexes that can be compared.
pub record AreComparable (before after : Index) : Type 0 where
  pub first : Layout
  pub second : Layout
  pub has_first : before.layout ≡ some first
  pub has_second : after.layout ≡ some second
  pub profile : first.profile ≡ second.profile
  pub java : first.java ≡ second.java
  pub architecture : first.architecture ≡ second.architecture
  pub only : before.only ≡ after.only
  pub identity_mapping : before.identity_mapping ≡ after.identity_mapping
  pub mode : before.mode ≡ after.mode

-- The count of a name, 0 where it is missing.
abbrev pub counted : String → Counts → ℕ
counted name counts = elim (get name counts) [ none ↦ 0 | some n ↦ n ]

-- A signed difference.
pub data IsDifference (old new : ℕ) : Delta → Type 0 where
  grown : (n : ℕ) → new ≡ old + n → IsDifference old new (up n)
  shrunk : (n : ℕ) → 0 < n → old ≡ new + n → IsDifference old new (down n)

-- The entry of a name has both of its counts and their difference.
pub record IsEntry (left right : Counts) (name : String) (c : ClassDelta) : Type 0 where
  pub before : c.before ≡ counted name left
  pub after : c.after ≡ counted name right
  pub difference : IsDifference c.before c.after c.delta

-- What a report says of the counts of two summaries.
pub record IsDiff (before after : Index) (r : DiffReport) : Type 0 where
  pub comparable : AreComparable before after
  pub hashes : (r.before_sha256 ≡ before.heap_sha256) × (r.after_sha256 ≡ after.heap_sha256)
  pub listed :
      (name : String)
      → is_some (get name r.class_counts)
        ≡ is_some (get name (summary before).class_counts)
          || is_some (get name (summary after).class_counts)
  pub entries :
      (name : String) (c : ClassDelta)
      → get name r.class_counts ≡ some c
      → IsEntry (summary before).class_counts (summary after).class_counts name c

delta-IsDifference : (old new : ℕ) → IsDifference old new (delta old new)
delta-IsDifference old new = elim (Bool-cases (leb old new)) [
  | inl more ↦ rw more (grown (new - old) (ground arith))
  | inr less ↦ rw less (shrunk (old - new) (ground arith) (ground arith))
]

class_delta-IsEntry :
    (left right : Counts) (name : String) → IsEntry left right name (class_delta left right name)
unfolding class_delta
class_delta-IsEntry left right name = record {
  before = same (get name left);
  after = same (get name right);
  difference = delta-IsDifference _ _;
}
  where
    same : (o : Option ℕ) → or_zero o ≡ elim o [ none ↦ 0 | some n ↦ n ]
    same none = refl
    same (some n) = refl

class_deltas-entry :
    (left right : Counts) (name : String)
    → get name (class_deltas left right) ≡ (
        if is_some (get name left) || is_some (get name right)
        then some (class_delta left right name)
        else none)
unfolding class_deltas
class_deltas-entry left right name =
    let f = class_delta left right in
    get-insert_all f name right (insert_all f left [])
    ∙ either (is_some (get name left)) (is_some (get name right)) (get name (insert_all f left []))
        (get-insert_all f name left [] ∙ empty)
  where
    empty :
        (if is_some (get name left) then some (class_delta left right name) else get name [])
        ≡ (if is_some (get name left) then some (class_delta left right name) else none)
    empty = unfold get in refl

    either :
        (l r : Bool) (o : Option ClassDelta)
        → o ≡ (if l then some (class_delta left right name) else none)
        → (if r then some (class_delta left right name) else o)
          ≡ (if l || r then some (class_delta left right name) else none)
    either true true o e = refl
    either true false o e = e
    either false true o e = refl
    either false false o e = e

class_deltas-listed :
    (left right : Counts) (name : String)
    → is_some (get name (class_deltas left right))
      ≡ is_some (get name left) || is_some (get name right)
class_deltas-listed left right name =
    ap is_some (class_deltas-entry left right name)
    ∙ either (is_some (get name left) || is_some (get name right))
  where
    either : (b : Bool) → is_some (if b then some (class_delta left right name) else none) ≡ b
    either true = refl
    either false = refl

class_deltas-IsEntry :
    (left right : Counts) (name : String) (c : ClassDelta)
    → get name (class_deltas left right) ≡ some c
    → IsEntry left right name c
class_deltas-IsEntry left right name c h =
    one_of (is_some (get name left) || is_some (get name right))
      (sym (class_deltas-entry left right name) ∙ h)
  where
    one_of :
        (b : Bool)
        → (if b then some (class_delta left right name) else none) ≡ some c
        → IsEntry left right name c
    one_of true e =
        subst (IsEntry left right name) (some_eq e) (class_delta-IsEntry left right name)
    one_of false e = cc

same_names-eq : (ss ts : List String) → same_names ss ts ≡ true → ss ≡ ts
unfolding same_names
same_names-eq [] [] h = refl
same_names-eq [] (t ∷ ts) h = cc
same_names-eq (s ∷ ss) [] h = cc
same_names-eq (s ∷ ss) (t ∷ ts) h =
    let (first, rest) = and_both (s is t) (same_names ss ts) h in
    cc ((eq_iff s t).0 first, same_names-eq ss ts rest)

same_flag-eq : (a b : Bool) → same_flag a b ≡ true → a ≡ b
same_flag-eq true b h = sym h
same_flag-eq false true h = cc
same_flag-eq false false h = refl

-- A diff is made of two typed indexes of the same profile, JDK, architecture, mode, mapping and
-- selection of classes, and names their hashes. It has an entry for a name exactly when one of the
-- two summaries counts it, with both counts, where a missing one is 0, and their difference.
pub diff-IsDiff :
    (before after : Index) (r : DiffReport) → diff before after ≡ ok r → IsDiff before after r
unfolding diff
diff-IsDiff before after r h =
    let (a, typed, h₁) = >>=-eq-ok (ok_or before.layout _) _ h in
    let (b, typed', h₂) = >>=-eq-ok (ok_or after.layout _) _ h₁ in
    let (same, h₃) = >>-eq-ok (refuse_if (not (is_comparable a b before after)) _) _ h₂ in
    let (shapes, h₄) =
      >>-eq-ok (refuse_if (not (same_schemas (schemas a.classes []) (schemas b.classes []))) _) _
        h₃ in
    let (s₅, mode) =
      and_both _ (before.mode is after.mode) (not-not _ (refuse_if-eq-ok _ _ same)) in
    let (s₄, identity) = and_both _ (same_flag before.identity_mapping after.identity_mapping) s₅ in
    let (s₃, only) = and_both _ (same_names before.only after.only) s₄ in
    let (s₂, architecture) = and_both _ (a.architecture is b.architecture) s₃ in
    let (profile, java) = and_both (a.profile is b.profile) (a.java is b.java) s₂ in
    subst (IsDiff before after) (ok-injective h₄) (record {
      comparable = record {
        first = a;
        second = b;
        has_first = ok_or-eq-ok before.layout _ typed;
        has_second = ok_or-eq-ok after.layout _ typed';
        profile = (eq_iff _ _).0 profile;
        java = (eq_iff _ _).0 java;
        architecture = (eq_iff _ _).0 architecture;
        only = same_names-eq before.only after.only only;
        identity_mapping = same_flag-eq before.identity_mapping after.identity_mapping identity;
        mode = (eq_iff _ _).0 mode;
      };
      hashes = (refl, refl);
      listed = class_deltas-listed (summary before).class_counts (summary after).class_counts;
      entries = class_deltas-IsEntry (summary before).class_counts (summary after).class_counts;
    })
