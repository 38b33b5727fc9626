-- ===== src/Census/Signatures.antt =====
-- The signatures that `sniff` (src/analysis.rs) knows, byte by byte.
use zgcmaster.Prelude.{
  ℕ, suc, ◌/◌, ◌≤◌, ◌<◌, ◌≡◌, refl, sym, ap, subst, ◌⊎◌, inl, inr, Bool, true, false, ◌&&◌, String,
  Option, none, some, List, [], ◌∷◌, ◌++◌, length, codes, starts_with, get_or, leb, ◌==◌,
  Bool-cases, some_eq, arith, ==_iff,
}
use zgcmaster.Census.{sniff, is_gzip, is_jpeg, is_png, is_gif, is_zip}

-- The bytes begin with a signature of the kind, and are long enough for it.
pub data HasSignature (bytes : List ℕ) (kind : String) : Type 0 where
  gzip :
      (flags : ℕ) (rest : List ℕ)
      → bytes ≡ 0x1f ∷ 0x8b ∷ 8 ∷ flags ∷ rest
      → flags < 32
      → 6 ≤ length rest
      → kind ≡ "gz"
      → HasSignature bytes kind
  jpeg :
      (marker : ℕ) (rest : List ℕ)
      → bytes ≡ 0xff ∷ 0xd8 ∷ 0xff ∷ marker ∷ rest
      → 0xc0 ≤ marker
      → marker ≤ 0xfe
      → kind ≡ "jpg"
      → HasSignature bytes kind
  png :
      (rest : List ℕ)
      → bytes
        ≡ 0x89 ∷ 0x50 ∷ 0x4e ∷ 0x47 ∷ 0x0d ∷ 0x0a ∷ 0x1a ∷ 0x0a ∷ 0 ∷ 0 ∷ 0 ∷ 0x0d ∷ 0x49 ∷ 0x48
          ∷ 0x44 ∷ 0x52 ∷ rest
      → 8 ≤ length rest
      → kind ≡ "png"
      → HasSignature bytes kind
  gif :
      (digit : ℕ) (rest : List ℕ)
      → bytes ≡ 0x47 ∷ 0x49 ∷ 0x46 ∷ 0x38 ∷ digit ∷ 0x61 ∷ rest
      → (digit ≡ 0x37) ⊎ (digit ≡ 0x39)
      → 4 ≤ length rest
      → kind ≡ "gif"
      → HasSignature bytes kind
  zip :
      (rest : List ℕ)
      → bytes ≡ 0x50 ∷ 0x4b ∷ 3 ∷ 4 ∷ rest
      → 26 ≤ length rest
      → kind ≡ "zip"
      → HasSignature bytes kind

pub starts_with-split :
    (sig bytes : List ℕ) → starts_with sig bytes ≡ true → (rest : List ℕ) × (bytes ≡ sig ++ rest)
starts_with-split [] bytes h = (bytes, refl)
starts_with-split (c ∷ sig) [] h = cc
starts_with-split (c ∷ sig) (d ∷ bytes) h = elim (Bool-cases (c == d)) [
  | inl same ↦
      let (rest, e) = starts_with-split sig bytes (rw (same, starts_with) at h) in
      (rest, cc ((==_iff c d).0 same, e))
  | inr other ↦ absurd (differ (rw (other, starts_with) at h))
]
  where
    differ : false ≡ true → ⊥
    differ e = cc

is_gzip-HasSignature : (p : List ℕ) → is_gzip p ≡ true → HasSignature p "gz"
is_gzip-HasSignature p h =
    let (rest, e) = starts_with-split (0x1f ∷ 0x8b ∷ 8 ∷ []) p (begins _ _ _ h) in
    next rest e (
      subst
        (λ q.
          leb 10 (length q) && starts_with (0x1f ∷ 0x8b ∷ 8 ∷ []) q && get_or q 3 0 / 32 == 0
          ≡ true)
        e h)
  where
    begins : (a b c : Bool) → a && b && c ≡ true → b ≡ true
    begins a b c t = ground arith

    next :
        (rest : List ℕ)
        → p ≡ 0x1f ∷ 0x8b ∷ 8 ∷ rest
        → is_gzip (0x1f ∷ 0x8b ∷ 8 ∷ rest) ≡ true
        → HasSignature p "gz"
    next [] e t = cc
    next (flags ∷ rest) e t = gzip flags rest e (ground (arith, t)) (ground (arith, t)) refl

is_jpeg-HasSignature : (p : List ℕ) → is_jpeg p ≡ true → HasSignature p "jpg"
is_jpeg-HasSignature p h =
    let (rest, e) = starts_with-split (0xff ∷ 0xd8 ∷ 0xff ∷ []) p (begins _ _ _ h) in
    next rest e (subst (λ q. is_jpeg q ≡ true) e h)
  where
    begins : (a b c : Bool) → a && b && c ≡ true → b ≡ true
    begins a b c t = ground arith

    next :
        (rest : List ℕ)
        → p ≡ 0xff ∷ 0xd8 ∷ 0xff ∷ rest
        → is_jpeg (0xff ∷ 0xd8 ∷ 0xff ∷ rest) ≡ true
        → HasSignature p "jpg"
    next [] e t = cc
    next (marker ∷ rest) e t = jpeg marker rest e (ground (arith, t)) (ground (arith, t)) refl

both : (a b : Bool) → a && b ≡ true → (a ≡ true) × (b ≡ true)
both a b t = (ground arith, ground arith)

is_png-HasSignature : (p : List ℕ) → is_png p ≡ true → HasSignature p "png"
is_png-HasSignature p h =
    let (long, begins) = both (leb 24 (length p)) _ h in
    let (rest, e) =
      starts_with-split
        (0x89 ∷ 0x50 ∷ 0x4e ∷ 0x47 ∷ 0x0d ∷ 0x0a ∷ 0x1a ∷ 0x0a ∷ 0 ∷ 0 ∷ 0 ∷ 0x0d ∷ codes "IHDR") p
        begins in
    png rest e (ground (arith, long, ap length e)) refl

is_zip-HasSignature : (p : List ℕ) → is_zip p ≡ true → HasSignature p "zip"
is_zip-HasSignature p h =
    let (long, begins) = both (leb 30 (length p)) _ h in
    let (rest, e) = starts_with-split (0x50 ∷ 0x4b ∷ 3 ∷ 4 ∷ []) p begins in
    zip rest e (ground (arith, long, ap length e)) refl

is_gif-HasSignature : (p : List ℕ) → is_gif p ≡ true → HasSignature p "gif"
is_gif-HasSignature p h =
    let (long, begins) = both (leb 10 (length p)) _ h in
    elim (Bool-cases (starts_with (codes "GIF87a") p)) [
      | inl first ↦
          let (rest, e) = starts_with-split (codes "GIF87a") p first in
          gif 0x37 rest e (inl refl) (ground (arith, long, ap length e)) refl
      | inr other ↦
          let (rest, e) = starts_with-split (codes "GIF89a") p (rw other at begins) in
          gif 0x39 rest e (inr refl) (ground (arith, long, ap length e)) refl
    ]

-- What is sniffed has the signature of its kind.
pub sniff-HasSignature : (p : List ℕ) (kind : String) → sniff p ≡ some kind → HasSignature p kind
unfolding sniff
sniff-HasSignature p kind h = elim (Bool-cases (is_gzip p)) [
  | inl gz ↦ named (rw (sniff, gz) at h) (is_gzip-HasSignature p gz)
  | inr a ↦ elim (Bool-cases (is_jpeg p)) [
    | inl jpg ↦ named (rw (sniff, a, jpg) at h) (is_jpeg-HasSignature p jpg)
    | inr b ↦ elim (Bool-cases (is_png p)) [
      | inl image ↦ named (rw (sniff, a, b, image) at h) (is_png-HasSignature p image)
      | inr c ↦ elim (Bool-cases (is_gif p)) [
        | inl moving ↦ named (rw (sniff, a, b, c, moving) at h) (is_gif-HasSignature p moving)
        | inr d ↦ elim (Bool-cases (is_zip p)) [
          | inl archive ↦
              named (rw (sniff, a, b, c, d, archive) at h) (is_zip-HasSignature p archive)
          | inr e ↦ absurd (nothing (rw (sniff, a, b, c, d, e) at h))
        ]
      ]
    ]
  ]
]
  where
    named : {k : String} → some k ≡ some kind → HasSignature p k → HasSignature p kind
    named e s = subst (HasSignature p) (some_eq e) s

    nothing : ◌≡◌ {A = Option String} none (some kind) → ⊥
    nothing e = cc

-- A test that its second part refuses.
refused : (a b : Bool) → a && false && b ≡ false
refused a b = ground arith

refused_last : (a : Bool) → a && false ≡ false
refused_last a = ground arith

-- What has a signature is sniffed as its kind.
pub HasSignature-sniff : (p : List ℕ) (kind : String) → HasSignature p kind → sniff p ≡ some kind
unfolding sniff
HasSignature-sniff p kind (gzip flags rest e small long k) =
    let l : leb 10 (suc (suc (suc (suc (length rest))))) ≡ true = ground arith in
    let f : (flags / 32 == 0) ≡ true = ground arith in
    subst (λ q. sniff q ≡ some kind) (sym e) (rw (l, f, k))
HasSignature-sniff p kind (jpeg marker rest e low high k) =
    let bytes : List ℕ = 0xff ∷ 0xd8 ∷ 0xff ∷ marker ∷ rest in
    let not_gzip : is_gzip bytes ≡ false = refused (leb 10 (length bytes)) _ in
    let is : is_jpeg bytes ≡ true = ground (arith, low, high) in
    subst (λ q. sniff q ≡ some kind) (sym e) (rw (not_gzip, is, k))
HasSignature-sniff p kind (png rest e long k) =
    let bytes : List ℕ =
      0x89 ∷ 0x50 ∷ 0x4e ∷ 0x47 ∷ 0x0d ∷ 0x0a ∷ 0x1a ∷ 0x0a ∷ 0 ∷ 0 ∷ 0 ∷ 0x0d ∷ 0x49 ∷ 0x48 ∷ 0x44
      ∷ 0x52 ∷ rest in
    let not_gzip : is_gzip bytes ≡ false = refused (leb 10 (length bytes)) _ in
    let not_jpeg : is_jpeg bytes ≡ false = refused (leb 4 (length bytes)) _ in
    let is : is_png bytes ≡ true = ground (arith, long) in
    subst (λ q. sniff q ≡ some kind) (sym e) (rw (not_gzip, not_jpeg, is, k))
HasSignature-sniff p kind (gif digit rest e which long k) =
    let bytes : List ℕ = 0x47 ∷ 0x49 ∷ 0x46 ∷ 0x38 ∷ digit ∷ 0x61 ∷ rest in
    let not_gzip : is_gzip bytes ≡ false = refused (leb 10 (length bytes)) _ in
    let not_jpeg : is_jpeg bytes ≡ false = refused (leb 4 (length bytes)) _ in
    let not_png : is_png bytes ≡ false = refused_last (leb 24 (length bytes)) in
    let is : is_gif bytes ≡ true = of_digit digit rest which (ground (arith, long)) in
    subst (λ q. sniff q ≡ some kind) (sym e) (rw (not_gzip, not_jpeg, not_png, is, k))
  where
    of_digit :
        (digit : ℕ) (rest : List ℕ)
        → (digit ≡ 0x37) ⊎ (digit ≡ 0x39)
        → leb 10 (suc (suc (suc (suc (suc (suc (length rest))))))) ≡ true
        → is_gif (0x47 ∷ 0x49 ∷ 0x46 ∷ 0x38 ∷ digit ∷ 0x61 ∷ rest) ≡ true
    of_digit digit rest (inl seven) l = rw (seven, l)
    of_digit digit rest (inr nine) l = rw (nine, l)
HasSignature-sniff p kind (zip rest e long k) =
    let bytes : List ℕ = 0x50 ∷ 0x4b ∷ 3 ∷ 4 ∷ rest in
    let not_gzip : is_gzip bytes ≡ false = refused (leb 10 (length bytes)) _ in
    let not_jpeg : is_jpeg bytes ≡ false = refused (leb 4 (length bytes)) _ in
    let not_png : is_png bytes ≡ false = refused_last (leb 24 (length bytes)) in
    let not_gif : is_gif bytes ≡ false = refused_last (leb 10 (length bytes)) in
    let is : is_zip bytes ≡ true = ground (arith, long) in
    subst (λ q. sniff q ≡ some kind) (sym e) (rw (not_gzip, not_jpeg, not_png, not_gif, is, k))

pub sniff-pdf : (rest : List ℕ) → sniff (0x25 ∷ 0x50 ∷ 0x44 ∷ 0x46 ∷ 0x2d ∷ rest) ≡ none
unfolding sniff
sniff-pdf rest =
    let bytes : List ℕ = 0x25 ∷ 0x50 ∷ 0x44 ∷ 0x46 ∷ 0x2d ∷ rest in
    let not_gzip : is_gzip bytes ≡ false = refused (leb 10 (length bytes)) _ in
    let not_jpeg : is_jpeg bytes ≡ false = refused (leb 4 (length bytes)) _ in
    let not_png : is_png bytes ≡ false = refused_last (leb 24 (length bytes)) in
    let not_gif : is_gif bytes ≡ false = refused_last (leb 10 (length bytes)) in
    let not_zip : is_zip bytes ≡ false = refused_last (leb 30 (length bytes)) in
    rw (not_gzip, not_jpeg, not_png, not_gif, not_zip) refl
