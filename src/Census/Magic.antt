-- ===== src/Census/Magic.antt =====
-- The magic numbers that `magic` (src/census.rs) knows: the signatures, and that of PDF.
use zgcmaster.Prelude.{
  ℕ, ◌≡◌, refl, sym, ap, subst, String, Option, none, some, List, ◌∷◌, codes, starts_with,
  Bool-cases, inl, inr, some_eq, if◌then◌else◌,
}
use zgcmaster.Census.{magic, sniff, media_name}
use zgcmaster.Census.Signatures.{
  HasSignature, sniff-HasSignature, HasSignature-sniff, starts_with-split, sniff-pdf,
}

-- The bytes begin with a signature or with "%PDF-".
pub data HasMagic (bytes : List ℕ) (kind : String) : Type 0 where
  signature : (s : String) → HasSignature bytes s → kind ≡ media_name s → HasMagic bytes kind
  pdf :
      (rest : List ℕ)
      → bytes ≡ 0x25 ∷ 0x50 ∷ 0x44 ∷ 0x46 ∷ 0x2d ∷ rest
      → kind ≡ "pdf"
      → HasMagic bytes kind

pub magic-HasMagic :
    (bytes : List ℕ) (kind : String) → magic bytes ≡ some kind → HasMagic bytes kind
unfolding magic
magic-HasMagic bytes kind h = of_sniff (sniff bytes) refl h
  where
    of_sniff :
        (o : Option String)
        → sniff bytes ≡ o
        → elim o [
          | some s ↦ some (media_name s)
          | none ↦ if starts_with (codes "%PDF-") bytes then some "pdf" else none
        ]
          ≡ some kind
        → HasMagic bytes kind
    of_sniff (some s) e h = signature s (sniff-HasSignature bytes s e) (sym (some_eq h))
    of_sniff none e h = elim (Bool-cases (starts_with (codes "%PDF-") bytes)) [
      | inl found ↦
          let (rest, made) = starts_with-split (codes "%PDF-") bytes found in
          pdf rest made (sym (some_eq (rw found at h)))
      | inr other ↦ let e : none ≡ some kind = rw other at h in cc
    ]

pub HasMagic-magic :
    (bytes : List ℕ) (kind : String) → HasMagic bytes kind → magic bytes ≡ some kind
unfolding magic
HasMagic-magic bytes kind (signature s h e) =
    rw (magic, HasSignature-sniff bytes s h) (ap some (sym e))
HasMagic-magic bytes kind (pdf rest e k) =
    subst (λ p. magic p ≡ some kind) (sym e) (rw (magic, sniff-pdf rest) (ap some (sym k)))
