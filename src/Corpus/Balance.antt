-- ===== src/Corpus/Balance.antt =====
-- The report of `diff_captures` (src/corpus.rs) as the difference of two sets of texts.
use zgcmaster.Prelude.{
  ℕ, ◌+◌, ◌≡◌, refl, sym, ap, ◌∙◌, subst, Bool, true, false, ◌&&◌, ◌||◌, not, String, Option, List,
  [], ◌∷◌, ◌++◌, length, length-append, any, filter, ◌is◌, Bool-cases, inl, inr, arith,
}
use zgcmaster.Patterns.{Pack}
use zgcmaster.Corpus.Texts.{Strings, same_text, find_text, has_text}
use zgcmaster.Corpus.Sets.{AreDistinct, has_text-cons, same_text-eq, common, common_comm}
use zgcmaster.Corpus.Snapshots.{Snapshot}
use zgcmaster.Corpus.Diff.{Change, Report, only_in, changes, report_of}

-- A row of the kind for the text.
abbrev pub lists : String → List ℕ → List Change → Bool
lists kind text rows = any (λ (c : Change). c.kind is kind && same_text text c.text) rows

any-append : (p : Change → Bool) (xs ys : List Change) → any p (xs ++ ys) ≡ any p xs || any p ys
any-append p [] ys = refl
any-append p (x ∷ xs) ys =
    ap (λ t. p x || t) (any-append p xs ys) ∙ regroup (p x) (any p xs) (any p ys)
  where
    regroup : (a b c : Bool) → a || (b || c) ≡ (a || b) || c
    regroup a b c = ground arith

lists-changes :
    (pack : Option Pack) (kind : String) (t : List ℕ) (from other : Strings)
    → kind is kind ≡ true
    → lists kind t (changes pack kind from other) ≡ has_text t from && not (has_text t other)
unfolding changes only_in find_text
lists-changes pack kind t [] other same = refl
lists-changes pack kind t ((key, e) ∷ from) other same =
    let rest = lists-changes pack kind t from other same in
    let cons = has_text-cons t key e from in
    elim (Bool-cases (has_text key other)) [
      | inl known ↦
          rw (filter, known, cons, rest)
            (kept_out (same_text t key) (has_text t from) (has_text t other)
              λ eq. subst (λ k. has_text k other ≡ true) (sym (same_text-eq t key eq)) known)
      | inr fresh ↦
          rw (filter, fresh, same, cons, rest)
            (taken_in (same_text t key) (has_text t from) (has_text t other)
              λ eq. subst (λ k. has_text k other ≡ false) (sym (same_text-eq t key eq)) fresh)
    ]
  where
    kept_out : (s f o : Bool) → (s ≡ true → o ≡ true) → f && not o ≡ (s || f) && not o
    kept_out true f o h = rw (h refl) (none_of f)
      where
        none_of : (f : Bool) → f && false ≡ false
        none_of true = refl
        none_of false = refl
    kept_out false f o h = refl

    taken_in : (s f o : Bool) → (s ≡ true → o ≡ false) → s || (f && not o) ≡ (s || f) && not o
    taken_in true f o h = rw (h refl) refl
    taken_in false f o h = refl

-- Rows of one kind are no rows of another.
lists_other :
    (pack : Option Pack) (kind kind' : String) (t : List ℕ) (from other : Strings)
    → kind is kind' ≡ false
    → lists kind' t (changes pack kind from other) ≡ false
unfolding changes only_in
lists_other pack kind kind' t [] other differ = refl
lists_other pack kind kind' t ((key, e) ∷ from) other differ =
    elim (Bool-cases (has_text key other)) [
      | inl known ↦ rw (filter, known) (lists_other pack kind kind' t from other differ)
      | inr fresh ↦ rw (filter, fresh, differ) (lists_other pack kind kind' t from other differ)
    ]

-- The rows of one kind and the texts in common make up a set.
length-changes :
    (pack : Option Pack) (kind : String) (from other : Strings)
    → length (changes pack kind from other) + common from other ≡ length from
unfolding changes only_in common
length-changes pack kind [] other = refl
length-changes pack kind ((key, e) ∷ from) other =
    let rest = length-changes pack kind from other in
    elim (Bool-cases (has_text key other)) [
      | inl known ↦ rw (filter, known) (omega (arith, rest))
      | inr fresh ↦ rw (filter, fresh) (omega (arith, rest))
    ]

-- What a report says of the texts of two snapshots.
pub record IsDifference (before after : Strings) (r : Report) : Type 0 where
  pub new : (t : List ℕ) → lists "new" t r.rows ≡ has_text t after && not (has_text t before)
  pub gone : (t : List ℕ) → lists "gone" t r.rows ≡ has_text t before && not (has_text t after)
  pub counted : length r.rows ≡ r.new_strings + r.gone_strings
  pub unchanged : r.unchanged_strings ≡ common before after
  pub after_split : r.new_strings + r.unchanged_strings ≡ length after
  pub before_split : r.gone_strings + r.unchanged_strings ≡ length before

pub report_of-IsDifference :
    (pack : Option Pack) (before after : Snapshot)
    → AreDistinct before.progress.strings
    → AreDistinct after.progress.strings
    → IsDifference before.progress.strings after.progress.strings (report_of pack before after)
unfolding report_of
report_of-IsDifference pack before after d f =
    let b : Strings = before.progress.strings in
    let a : Strings = after.progress.strings in
    let new : List Change = changes pack "new" a b in
    let gone : List Change = changes pack "gone" b a in
    let more = length-changes pack "new" a b in
    let fewer = length-changes pack "gone" b a in
    let both = common_comm a b f d in
    record {
      new = λ t.
          any-append _ new gone
          ∙ rw (lists-changes pack "new" t a b refl, lists_other pack "gone" "new" t b a refl)
              (or_false (has_text t a && not (has_text t b)));
      gone = λ t.
          any-append _ new gone
          ∙ rw (lists-changes pack "gone" t b a refl, lists_other pack "new" "gone" t a b refl)
              refl;
      counted = length-append new gone;
      unchanged = omega (arith, more, both);
      after_split = omega (arith, more);
      before_split = omega (arith, more, fewer, both);
    }
  where
    or_false : (b : Bool) → b || false ≡ b
    or_false true = refl
    or_false false = refl
