-- ===== src/Patterns.antt =====
-- src/patterns.rs: packs of named regular expressions. The parser of JSON and the engine of the
-- expressions are other libraries': `parse_definition` and `compile` are parameters.
pub mod Laws
use zgcmaster.Prelude.{
  ℕ, ◌*◌, Bool, true, false, ◌&&◌, ◌||◌, not, String, Option, none, some, List, [], ◌∷◌, ◌++◌, map,
  length, get_or, any, all, contains, codes, ltb, leb, ◌==◌, ◌is◌, Result, ok, err, invalid, ◌>>=◌,
  ◌>>◌, refuse_if, ok_or,
}
use zgcmaster.Utf8.{utf8_length}
use zgcmaster.Checksums.{read_bounded}

pub record Pattern : Type 0 where
  pub name : String
  pub regex : String

pub record Definition : Type 0 where
  pub version : ℕ
  pub patterns : List Pattern

-- A compiled set tells which of its expressions match a text, by their places in ascending order.
abbrev pub RegexSet : Type 0
RegexSet = List ℕ → List ℕ

pub record Pack : Type 0 where
  pub names : List String
  pub expressions : RegexSet
  pub sha256 : String

-- `is_ascii_alphanumeric() || b"_.-".contains(&b)`.
abbrev pub is_name_byte : ℕ → Bool
is_name_byte b =
    (leb b'0' b && leb b b'9')
    || (leb b'a' b && leb b b'z')
    || (leb b'A' b && leb b b'Z')
    || b == b'_'
    || b == b'.'
    || b == b'-'

abbrev pub bad_name : String → Bool
bad_name name =
    length (codes name) == 0
    || ltb 64 (utf8_length (codes name))
    || not (all is_name_byte (codes name))

-- The tests on a pattern, after the names in `seen`.
abbrev pub bad_pattern : List String → Pattern → Bool
bad_pattern seen p =
    bad_name p.name
    || contains seen p.name
    || length (codes p.regex) == 0
    || ltb 2048 (utf8_length (codes p.regex))

unfoldable pub check_patterns : List String → List Pattern → Result (Unit {0})
check_patterns seen [] = ok tt
check_patterns seen (p ∷ ps) =
    refuse_if (bad_pattern seen p)
      "Pattern names must be unique ASCII identifiers (1..64 bytes); regexes 1..2048 bytes"
    >> check_patterns (p.name ∷ seen) ps

module _ (parse_definition : List ℕ → Result Definition) (compile : List String → Option RegexSet)
    (sha256 : List ℕ → String) where
  -- `Pack::parse`.
  unfoldable pub parse : List ℕ → Result Pack
  unfolding check_patterns
  parse bytes = do
    refuse_if (ltb (64 * 1024) (length bytes)) "Regex pack exceeds 64 KiB"
    definition ← parse_definition bytes
    refuse_if
        (not (definition.version == 1)
          || length definition.patterns == 0
          || ltb 64 (length definition.patterns))
        "Regex pack needs version 1 and 1..64 patterns"
    check_patterns [] definition.patterns
    expressions ←
        ok_or (compile (map (λ (p : Pattern). p.regex) definition.patterns))
          "Invalid or over-complex regex pack (Rust regex syntax; no lookaround/backreferences)"
    ok (record {
      names = map (λ (p : Pattern). p.name) definition.patterns;
      expressions = expressions;
      sha256 = sha256 bytes;
    })

  -- `Pack::load`, on a file that can be read.
  unfoldable pub load : List ℕ → Result Pack
  unfolding read_bounded parse
  load file = read_bounded (64 * 1024) file >>= parse

-- `Pack::matches`: the names at the places that the set reports.
unfoldable pub matches : Pack → List ℕ → List String
matches pack text = map (λ i. get_or pack.names i "") (pack.expressions text)
