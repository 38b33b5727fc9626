-- ===== src/Corpus/Sets.antt =====
-- The maps of Corpus.Texts as sets of texts.
use zgcmaster.Prelude.{
  ℕ, ◌+◌, ◌≡◌, refl, sym, ap, ◌∙◌, subst, Bool, true, false, ◌&&◌, ◌||◌, List, [], ◌∷◌, ◌==◌,
  ==_iff, ==_refl, if◌then◌else◌, Bool-cases, inl, inr, arith,
}
use zgcmaster.Corpus.Texts.{
  Entry, Strings, same_text, text_before, find_text, insert_text, count_text, has_text,
}

pub same_text-eq : (s t : List ℕ) → same_text s t ≡ true → s ≡ t
unfolding same_text
same_text-eq [] [] h = refl
same_text-eq [] (d ∷ t) h = cc
same_text-eq (c ∷ s) [] h = cc
same_text-eq (c ∷ s) (d ∷ t) h =
    let (here, rest) = both (c == d) (same_text s t) h in
    rw (same_text-eq s t rest, (==_iff c d).0 here) refl
  where
    both : (a b : Bool) → a && b ≡ true → (a ≡ true) × (b ≡ true)
    both a b e = ground arith

pub same_text_refl : (s : List ℕ) → same_text s s ≡ true
unfolding same_text
same_text_refl [] = refl
same_text_refl (c ∷ s) = rw (==_refl c, same_text_refl s) refl

-- `same_text` decides, so that what it says of two texts it says in both orders.
same_text_comm : (s t : List ℕ) → same_text s t ≡ same_text t s
same_text_comm s t = elim (Bool-cases (same_text s t)) [
  | inl same ↦ rw (same_text-eq s t same) refl
  | inr other ↦ elim (Bool-cases (same_text t s)) [
    | inl same ↦ rw (same_text-eq t s same) refl
    | inr differ ↦ rw (other, differ) refl
  ]
]

pub has_text-cons :
    (k key : List ℕ) (e : Entry) (m : Strings)
    → has_text k ((key, e) ∷ m) ≡ same_text k key || has_text k m
unfolding find_text
has_text-cons k key e m = elim (Bool-cases (same_text k key)) [
  | inl same ↦ rw same refl
  | inr other ↦ rw other refl
]

pub has_text-insert_text :
    (k t : List ℕ) (e : Entry) (m : Strings)
    → has_text k (insert_text t e m) ≡ same_text k t || has_text k m
unfolding insert_text
has_text-insert_text k t e [] = has_text-cons k t e []
has_text-insert_text k t e ((key, old) ∷ m) = elim (Bool-cases (text_before t key)) [
  | inl before ↦ rw before (has_text-cons k t e ((key, old) ∷ m))
  | inr after ↦ rw after (
      has_text-cons k key old (insert_text t e m)
      ∙ ap (λ b. same_text k key || b) (has_text-insert_text k t e m)
      ∙ swap (same_text k key) (same_text k t) (has_text k m)
      ∙ ap (λ b. same_text k t || b) (sym (has_text-cons k key old m)))
]
  where
    swap : (a b c : Bool) → a || (b || c) ≡ b || (a || c)
    swap a b c = ground arith

pub has_text-count_text : (k t : List ℕ) (m : Strings) → has_text k (count_text t m) ≡ has_text k m
unfolding count_text
has_text-count_text k t [] = refl
has_text-count_text k t ((key, e) ∷ m) = elim (Bool-cases (same_text t key)) [
  | inl same ↦
      rw same
        (has_text-cons k key (record e { count = e.count + 1 }) m ∙ sym (has_text-cons k key e m))
  | inr other ↦ rw other (
      has_text-cons k key e (count_text t m)
      ∙ ap (λ b. same_text k key || b) (has_text-count_text k t m)
      ∙ sym (has_text-cons k key e m))
]

-- No text stands twice.
abbrev pub AreDistinct : Strings → Type 0
AreDistinct [] = Unit
AreDistinct ((key, e) ∷ m) = (has_text key m ≡ false) × AreDistinct m

pub insert_text-AreDistinct :
    (t : List ℕ) (e : Entry) (m : Strings)
    → has_text t m ≡ false
    → AreDistinct m
    → AreDistinct (insert_text t e m)
unfolding insert_text find_text
insert_text-AreDistinct t e [] fresh d = (refl, tt)
insert_text-AreDistinct t e ((key, old) ∷ m) fresh d =
    let (other, absent) = neither _ _ (sym (has_text-cons t key old m) ∙ fresh) in
    elim (Bool-cases (text_before t key)) [
      | inl before ↦ rw before (fresh, d)
      | inr after ↦ rw after (
        has_text-insert_text key t e m ∙ absent_both _ _ (same_text_comm key t ∙ other) d.0,
        insert_text-AreDistinct t e m absent d.1,
      )
    ]
  where
    neither : (a b : Bool) → a || b ≡ false → (a ≡ false) × (b ≡ false)
    neither a b h = ground arith

    absent_both : (a b : Bool) → a ≡ false → b ≡ false → a || b ≡ false
    absent_both a b h k = ground arith

pub count_text-AreDistinct :
    (t : List ℕ) (m : Strings) → AreDistinct m → AreDistinct (count_text t m)
unfolding count_text
count_text-AreDistinct t [] d = tt
count_text-AreDistinct t ((key, e) ∷ m) d = elim (Bool-cases (same_text t key)) [
  | inl same ↦ rw same d
  | inr other ↦ rw other (has_text-count_text key t m ∙ d.0, count_text-AreDistinct t m d.1)
]

abbrev pub bit : Bool → ℕ
bit b = if b then 1 else 0

-- How many texts of the first map are in the second.
unfoldable pub common : Strings → Strings → ℕ
unfolding find_text
common [] other = 0
common ((key, e) ∷ m) other = bit (has_text key other) + common m other

common_nil : (m : Strings) → common m [] ≡ 0
unfolding common find_text
common_nil [] = refl
common_nil ((key, e) ∷ m) = omega (arith, common_nil m)

-- A text that is added to the second map is counted once, if the first has it.
common-cons :
    (a : Strings) (key : List ℕ) (e : Entry) (b : Strings)
    → AreDistinct a
    → has_text key b ≡ false
    → common a ((key, e) ∷ b) ≡ bit (has_text key a) + common a b
unfolding common
common-cons [] key e b d fresh = unfold find_text in refl
common-cons ((k, f) ∷ a) key e b d fresh =
    let inside = has_text-cons k key e b in
    let here = has_text-cons key k f a ∙ ap (λ t. t || has_text key a) (same_text_comm key k) in
    rw (inside, here, common-cons a key e b d.1 fresh)
      (exchange (same_text k key) (has_text k b) (has_text key a) (common a b)
        (λ same. subst (λ t. has_text t b ≡ false) (sym (same_text-eq k key same)) fresh)
        (λ same. subst (λ t. has_text t a ≡ false) (same_text-eq k key same) d.0))
  where
    exchange :
        (s x y : Bool) (n : ℕ)
        → (s ≡ true → x ≡ false)
        → (s ≡ true → y ≡ false)
        → bit (s || x) + (bit y + n) ≡ bit (s || y) + (bit x + n)
    exchange true x y n no_x no_y = rw (no_x refl, no_y refl) refl
    exchange false x y n no_x no_y = omega arith

-- As many texts of one map are in the other as of the other are in the one.
pub common_comm : (a b : Strings) → AreDistinct a → AreDistinct b → common a b ≡ common b a
unfolding common
common_comm [] b d f = sym (common_nil b)
common_comm ((k, e) ∷ a) b d f =
    ap (λ n. bit (has_text k b) + n) (common_comm a b d.1 f) ∙ sym (common-cons b k e a f d.0)
