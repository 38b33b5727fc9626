-- ===== src/Census/Kinds.antt =====
-- What the classes of `classify` (src/census.rs) say of a payload.
use zgcmaster.Prelude.{
  ℕ, ◌*◌, ◌≡◌, refl, sym, ap, subst, ◌∙◌, ◌⊎◌, Bool, true, false, ◌&&◌, not, String, Option, none,
  some, List, [], ◌∷◌, length, filter, leb, ltb, ◌is◌, is_some, starts_with, codes, if◌then◌else◌,
  ◌++◌, AllOf, Bool-cases, inl, inr, arith,
}
use zgcmaster.Utf8.{from_utf8, lossy}
use zgcmaster.Utf8.Laws.{IsScalar, encode_all, lossy-encode_all, encode}
use zgcmaster.Census.{magic, sniff, media_name, is_gzip, is_jpeg, is_png, is_gif, is_zip}
use zgcmaster.Census.Magic.{HasMagic, magic-HasMagic, HasMagic-magic}
use zgcmaster.Census.Classify.{
  Classification, classify, classify_text, kind_of, trim_start, opens_json, band_of, verdict_name,
  whole_json, is_printable,
}

abbrev anomalous : String
anomalous = "text-like-invalid-utf8"

abbrev IsOther : Option String → Type 0
IsOther none = Unit
IsOther (some kind) = kind is anomalous ≡ false

abbrev IsOtherMedia : Option String → Type 0
IsOtherMedia none = Unit
IsOtherMedia (some kind) = media_name kind is anomalous ≡ false

sniff-IsOtherMedia : (bytes : List ℕ) → IsOtherMedia (sniff bytes)
unfolding sniff
sniff-IsOtherMedia bytes =
    of_tests (is_gzip bytes) (is_jpeg bytes) (is_png bytes) (is_gif bytes) (is_zip bytes)
  where
    of_tests :
        (gzip jpeg png gif zip : Bool)
        → IsOtherMedia (
            if gzip
            then some "gz"
            else if jpeg
            then some "jpg"
            else if png
            then some "png"
            else if gif
            then some "gif"
            else if zip
            then some "zip"
            else none)
    of_tests true jpeg png gif zip = refl
    of_tests false true png gif zip = refl
    of_tests false false true gif zip = refl
    of_tests false false false true zip = refl
    of_tests false false false false true = refl
    of_tests false false false false false = tt

-- No magic number has that name.
magic-IsOther : (bytes : List ℕ) → IsOther (magic bytes)
unfolding magic
magic-IsOther bytes = of_sniff (sniff bytes) (sniff-IsOtherMedia bytes)
  where
    of_sniff :
        (o : Option String)
        → IsOtherMedia o
        → IsOther (elim o [
          | some s ↦ some (media_name s)
          | none ↦ if starts_with (codes "%PDF-") bytes then some "pdf" else none
        ])
    of_sniff (some kind) h = h
    of_sniff none h = pdf_or_none (starts_with (codes "%PDF-") bytes)
      where
        pdf_or_none : (test : Bool) → IsOther (if test then some "pdf" else none)
        pdf_or_none true = refl
        pdf_or_none false = tt

kind_of-anomaly :
    (o : Option String) (json is_valid high medium : Bool)
    → IsOther o
    → (json ≡ true → is_valid ≡ true)
    → not (is_some o) && not is_valid && medium ≡ kind_of o json is_valid high medium is anomalous
unfolding kind_of
kind_of-anomaly (some kind) json is_valid high medium h j = sym h
kind_of-anomaly none true true high medium h j = refl
kind_of-anomaly none true false high medium h j = absurd (differ (j refl))
  where
    differ : false ≡ true → ⊥
    differ e = cc
kind_of-anomaly none false true true medium h j = refl
kind_of-anomaly none false true false true h j = refl
kind_of-anomaly none false true false false h j = refl
kind_of-anomaly none false false high true h j = refl
kind_of-anomaly none false false high false h j = refl

-- A payload counts as an anomaly exactly when its kind says so: text-like, of no known format, and
-- not valid UTF-8.
pub anomaly_lem :
    (is_json : List ℕ → Bool) (payload : List ℕ)
    → (classify is_json payload).text_like_anomaly
      ≡ (classify is_json payload).kind is "text-like-invalid-utf8"
unfolding classify classify_text
anomaly_lem is_json [] = refl
anomaly_lem is_json (b ∷ bs) =
    kind_of-anomaly (magic (b ∷ bs)) (whole_json is_json is_valid text) is_valid _ _
      (magic-IsOther (b ∷ bs)) (json_valid is_valid)
  where
    text : List ℕ
    text = lossy (b ∷ bs)

    is_valid : Bool
    is_valid = verdict_name (from_utf8 (b ∷ bs)) is "valid"

    json_valid : (v : Bool) → whole_json is_json v text ≡ true → v ≡ true
    json_valid true h = refl
    json_valid false h = h

-- The kind of a text: of its magic number, JSON, or text.
pub data IsTextKind (is_json : List ℕ → Bool) (cs : List ℕ) (kind : String) : Type 0 where
  of_magic : HasMagic (encode_all cs) kind → IsTextKind is_json cs kind
  json :
      ((k : String) → HasMagic (encode_all cs) k → ⊥)
      → (first : ℕ) (rest : List ℕ) → trim_start cs ≡ first ∷ rest
      → (first ≡ b'{') ⊎ (first ≡ b'[')
      → is_json (first ∷ rest) ≡ true
      → kind ≡ "json"
      → IsTextKind is_json cs kind
  plain :
      ((k : String) → HasMagic (encode_all cs) k → ⊥)
      → (opens_json (trim_start cs) ≡ false) ⊎ (is_json (trim_start cs) ≡ false)
      → kind ≡ "text"
      → IsTextKind is_json cs kind

-- What a text of printable characters is classified as.
pub record IsText (is_json : List ℕ → Bool) (cs : List ℕ) (c : Classification) : Type 0 where
  pub utf8 : c.utf8 ≡ "valid"
  pub band : c.band ≡ "95-100%"
  pub no_anomaly : c.text_like_anomaly ≡ false
  pub kind : IsTextKind is_json cs c.kind

kind_of-IsTextKind :
    (is_json : List ℕ → Bool) (cs : List ℕ)
    → IsTextKind is_json cs
        (kind_of (magic (encode_all cs)) (whole_json is_json true cs) true true true)
unfolding kind_of
kind_of-IsTextKind is_json cs =
    of_option (magic (encode_all cs)) refl (Bool-cases (opens_json (trim_start cs)))
      (Bool-cases (is_json (trim_start cs)))
  where
    no_magic : magic (encode_all cs) ≡ none → (k : String) → HasMagic (encode_all cs) k → ⊥
    no_magic e k h = cc (HasMagic-magic (encode_all cs) k h, e)

    opening :
        (t : List ℕ)
        → opens_json t ≡ true
        → (first : ℕ) × (rest : List ℕ) × (t ≡ first ∷ rest) × ((first ≡ b'{') ⊎ (first ≡ b'['))
    opening [] h = cc
    opening (c ∷ rest) h = (c, rest, refl, ground (arith, h))

    of_option :
        (o : Option String)
        → magic (encode_all cs) ≡ o
        → (opens_json (trim_start cs) ≡ true) ⊎ (opens_json (trim_start cs) ≡ false)
        → (is_json (trim_start cs) ≡ true) ⊎ (is_json (trim_start cs) ≡ false)
        → IsTextKind is_json cs (kind_of o (whole_json is_json true cs) true true true)
    of_option (some k) e opens parses = of_magic (magic-HasMagic (encode_all cs) k e)
    of_option none e (inr closed) parses = rw closed (plain (no_magic e) (inl closed) refl)
    of_option none e (inl opens) (inr other) =
        rw (opens, other) (plain (no_magic e) (inr other) refl)
    of_option none e (inl opens) (inl parses) =
        let (first, rest, made, which) = opening (trim_start cs) opens in
        rw (opens, parses)
          (json (no_magic e) first rest made which (ap is_json (sym made) ∙ parses) refl)

filter_all : (cs : List ℕ) → AllOf (λ c. is_printable c ≡ true) cs → filter is_printable cs ≡ cs
filter_all [] h = refl
filter_all (c ∷ cs) h = rw (filter, h.0) (ap (λ ds. c ∷ ds) (filter_all cs h.1))

band_of_all : (n : ℕ) → band_of n n ≡ "95-100%"
unfolding band_of
band_of_all n = let e : leb (n * 95) (n * 100) ≡ true = ground arith in rw e refl

classify_text-IsText :
    (is_json : List ℕ → Bool) (cs : List ℕ)
    → AllOf IsScalar cs
    → AllOf (λ c. is_printable c ≡ true) cs
    → IsText is_json cs (classify_text is_json (encode_all cs) (lossy (encode_all cs)))
unfolding classify_text verdict_name
classify_text-IsText is_json cs scalars printable =
    let (text, verdict) = lossy-encode_all cs scalars in
    let n : ℕ = length cs in
    let high : leb (n * 95) (n * 100) ≡ true = ground arith in
    let medium : leb (n * 80) (n * 100) ≡ true = ground arith in
    rw (text, verdict, filter_all cs printable)
      (record {
        utf8 = refl;
        band = band_of_all n;
        no_anomaly = no_anomaly (is_some (magic (encode_all cs))) _;
        kind = rw (high, medium) (kind_of-IsTextKind is_json cs);
      })
  where
    no_anomaly : (m t : Bool) → not m && not true && t ≡ false
    no_anomaly m t = ground arith

encode-cons : (c : ℕ) → (b : ℕ) × (bs : List ℕ) × (encode c ≡ b ∷ bs)
unfolding encode
encode-cons c = elim (Bool-cases (ltb c 0x80)) [
  | inl one ↦ rw one (c, [], refl)
  | inr past_one ↦ rw past_one (elim (Bool-cases (ltb c 0x800)) [
    | inl two ↦ rw two (_, _, refl)
    | inr past_two ↦ rw past_two (elim (Bool-cases (ltb c 0x10000)) [
      | inl three ↦ rw three (_, _, refl)
      | inr four ↦ rw four (_, _, refl)
    ])
  ])
]

-- The UTF-8 encoding of a text of printable characters, at least one of them and none a replacement
-- character, is classified as valid UTF-8 in the highest band and as no anomaly. Its kind is that of
-- the magic number it starts with; with none, "json" when what follows the white space opens with a
-- brace or a bracket and is JSON, and else "text".
pub classify-encode_all :
    (is_json : List ℕ → Bool) (c : ℕ) (cs : List ℕ)
    → AllOf IsScalar (c ∷ cs)
    → AllOf (λ d. is_printable d ≡ true) (c ∷ cs)
    → IsText is_json (c ∷ cs) (classify is_json (encode_all (c ∷ cs)))
unfolding encode_all classify
classify-encode_all is_json c cs scalars printable =
    let (b, bs, e) = encode-cons c in
    subst (IsText is_json (c ∷ cs))
      (sym (not_empty (encode c ++ encode_all cs) b (bs ++ encode_all cs) (rw e refl)))
      (classify_text-IsText is_json (c ∷ cs) scalars printable)
  where
    not_empty :
        (bytes : List ℕ) (b : ℕ) (bs : List ℕ)
        → bytes ≡ b ∷ bs
        → classify is_json bytes ≡ classify_text is_json bytes (lossy bytes)
    not_empty [] b bs h = absurd (empty_case h)
      where
        empty_case : ◌≡◌ {A = List ℕ} [] (b ∷ bs) → ⊥
        empty_case e = cc
    not_empty (d ∷ ds) b bs h = refl
