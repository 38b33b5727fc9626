-- ===== src/Patterns/Laws.antt =====
-- What a pack that `Pack::parse` (src/patterns.rs) accepts is like.
use zgcmaster.Prelude.{
  ℕ, suc, ◌*◌, ◌≤◌, ◌≡◌, refl, ap, subst, Bool, true, false, ◌||◌, not, String, Option, some, List,
  [], ◌∷◌, map, length, all, contains, codes, ltb, ◌==◌, Result, ok, ok_or, refuse_if, AllOf,
  >>=-eq-ok, >>-eq-ok, ok_or-eq-ok, refuse_if-eq-ok, ok-injective, arith,
}
use zgcmaster.Utf8.{utf8_length}
use zgcmaster.Patterns.{
  Pattern, Definition, RegexSet, Pack, is_name_byte, bad_name, bad_pattern, check_patterns, parse,
}

pub record IsName (name : String) : Type 0 where
  pub not_empty : 1 ≤ length (codes name)
  pub short : utf8_length (codes name) ≤ 64
  pub ascii : all is_name_byte (codes name) ≡ true

-- Names that differ from each other and from those in `seen`.
abbrev pub AreDistinct : List String → List String → Type 0
AreDistinct seen [] = Unit
AreDistinct seen (name ∷ names) = (contains seen name ≡ false) × AreDistinct (name ∷ seen) names

pub record IsPattern (p : Pattern) : Type 0 where
  pub name : IsName p.name
  pub not_empty : 1 ≤ length (codes p.regex)
  pub short : utf8_length (codes p.regex) ≤ 2048

bad_pattern-IsPattern :
    (seen : List String) (p : Pattern)
    → bad_pattern seen p ≡ false
    → IsPattern p × (contains seen p.name ≡ false)
bad_pattern-IsPattern seen p h =
    let (name, fresh, regex, short) = parts (bad_name p.name) _ _ _ h in
    let (empty, long, ascii) =
      name_parts (length (codes p.name) == 0) _ (all is_name_byte (codes p.name)) name in
    (
      record {
        name = record { not_empty = ground arith; short = ground arith; ascii = ascii };
        not_empty = ground arith;
        short = ground arith;
      },
      fresh,
    )
  where
    parts :
        (a b c d : Bool)
        → a || b || c || d ≡ false
        → (a ≡ false) × (b ≡ false) × (c ≡ false) × (d ≡ false)
    parts a b c d e = ground arith

    name_parts : (a b c : Bool) → a || b || not c ≡ false → (a ≡ false) × (b ≡ false) × (c ≡ true)
    name_parts a b c e = ground arith

check_patterns-AreDistinct :
    (seen : List String) (ps : List Pattern)
    → check_patterns seen ps ≡ ok tt
    → AllOf IsPattern ps × AreDistinct seen (map (λ (p : Pattern). p.name) ps)
unfolding check_patterns
check_patterns-AreDistinct seen [] h = (tt, tt)
check_patterns-AreDistinct seen (p ∷ ps) h =
    let (here, rest) = >>-eq-ok (refuse_if (bad_pattern seen p) _) _ h in
    let (good, fresh) = bad_pattern-IsPattern seen p (refuse_if-eq-ok _ _ here) in
    let (all_good, distinct) = check_patterns-AreDistinct (p.name ∷ seen) ps rest in
    ((good, all_good), (fresh, distinct))

AllOf-names :
    (ps : List Pattern) → AllOf IsPattern ps → AllOf IsName (map (λ (p : Pattern). p.name) ps)
AllOf-names [] h = tt
AllOf-names (p ∷ ps) h = let q : IsPattern p = h.0 in (q.name, AllOf-names ps h.1)

length-names : (ps : List Pattern) → length (map (λ (p : Pattern). p.name) ps) ≡ length ps
length-names [] = refl
length-names (p ∷ ps) = ap (λ n. suc n) (length-names ps)

-- The pack of a definition that was accepted.
pub record IsPack (definition : Definition) (compile : List String → Option RegexSet) (pack : Pack)
    : Type 0 where
  pub version : definition.version ≡ 1
  pub some_given : 1 ≤ length pack.names
  pub few : length pack.names ≤ 64
  pub names : AllOf IsName pack.names
  pub distinct : AreDistinct [] pack.names
  pub patterns : AllOf IsPattern definition.patterns
  pub in_order : pack.names ≡ map (λ (p : Pattern). p.name) definition.patterns
  pub compiled :
      compile (map (λ (p : Pattern). p.regex) definition.patterns) ≡ some pack.expressions

-- A pack that is accepted has between 1 and 64 names, in the order of the patterns of its
-- definition: ASCII identifiers of at most 64 bytes, no two the same; its expressions are those
-- that the definition's compile to, each of at most 2048 bytes.
pub parse-IsPack :
    (parse_definition : List ℕ → Result Definition) (compile : List String → Option RegexSet)
    (sha256 : List ℕ → String) (bytes : List ℕ) (pack : Pack)
    → parse parse_definition compile sha256 bytes ≡ ok pack
    → (definition : Definition) × (parse_definition bytes ≡ ok definition)
      × IsPack definition compile pack
unfolding parse
parse-IsPack parse_definition compile sha256 bytes pack h =
    let (bounded, h₁) = >>-eq-ok (refuse_if (ltb (64 * 1024) (length bytes)) _) _ h in
    let (definition, parsed, h₂) = >>=-eq-ok (parse_definition bytes) _ h₁ in
    let (counted, h₃) =
      >>-eq-ok
        (refuse_if
          (not (definition.version == 1)
            || length definition.patterns == 0
            || ltb 64 (length definition.patterns))
          _)
        _ h₂ in
    let (checked, h₄) = >>-eq-ok (check_patterns [] definition.patterns) _ h₃ in
    let (expressions, compiled, made) =
      >>=-eq-ok (ok_or (compile (map (λ (p : Pattern). p.regex) definition.patterns)) _) _ h₄ in
    let (good, distinct) = check_patterns-AreDistinct [] definition.patterns checked in
    let (version, given, few) =
      parts (definition.version == 1) (length definition.patterns == 0) _
        (refuse_if-eq-ok _ _ counted) in
    (
      definition,
      parsed,
      subst (IsPack definition compile) (ok-injective made) (record {
        version = ground (arith, version);
        some_given = omega (arith, length-names definition.patterns, positive _ given);
        few = omega (arith, length-names definition.patterns, at_most _ few);
        names = AllOf-names definition.patterns good;
        distinct = distinct;
        patterns = good;
        in_order = refl;
        compiled = ok_or-eq-ok _ _ compiled;
      }),
    )
  where
    parts : (a b c : Bool) → not a || b || c ≡ false → (a ≡ true) × (b ≡ false) × (c ≡ false)
    parts a b c e = ground arith

    positive : (n : ℕ) → n == 0 ≡ false → 1 ≤ n
    positive n e = ground arith

    at_most : (n : ℕ) → ltb 64 n ≡ false → n ≤ 64
    at_most n e = ground arith
