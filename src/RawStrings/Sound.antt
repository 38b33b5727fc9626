-- ===== src/RawStrings/Sound.antt =====
-- What `Bindings::decode_header` (src/raw_strings.rs) says of the bytes of a capture.
use zgcmaster.Prelude.{
  ℕ, ◌+◌, ◌%◌, ◌^◌, ◌≤◌, ◌<◌, ◌≡◌, refl, sym, ap, ◌∙◌, subst, ◌⊎◌, inl, inr, Bool, true, false,
  ◌&&◌, ◌||◌, not, String, Option, none, some, List, length, slice, length-slice, ltb, ◌==◌,
  if◌then◌else◌, Result, ok, ok_or, >>=-eq-ok, ok_or-eq-ok, Bool-cases, some_eq, arith,
}
use zgcmaster.Words.{two64, i32_max, checked_add, word, aligned}
use zgcmaster.Address.{target}
use zgcmaster.RawStrings.{
  Bindings, Fields, Pair, Decoded, pair, rejected, max_bytes, array_base, header_width, read_at,
  mark_ok, java_hash, status_of, read_fields, aligned_target, bad_extent, made_pair, decode_payload,
  decode_array, decode_fields, is_string_header, decode_header, decode_at,
}

-- The bytes of a class word, and where the payload of an array starts.
abbrev pub klass_size : Bindings → ℕ
klass_size b = if b.narrow then 4 else 8

abbrev pub payload_start : Bindings → ℕ
payload_start b = if b.narrow then 16 else 24

-- What the cached hash of a String and its flag say of the hash of its payload.
pub data IsVerdict (cached zero_flag computed : ℕ) (status : String) : Type 0 where
  not_cached :
      cached ≡ 0
      → zero_flag ≡ 0
      → status ≡ "not-cached"
      → IsVerdict cached zero_flag computed status
  mismatch :
      (0 < cached) ⊎ (0 < zero_flag)
      → ¬ (cached ≡ computed)
      → status ≡ "mismatch"
      → IsVerdict cached zero_flag computed status
  zero_match :
      cached ≡ 0
      → 0 < zero_flag
      → computed ≡ 0
      → status ≡ "zero-hash-match"
      → IsVerdict cached zero_flag computed status
  match :
      0 < cached → cached ≡ computed → status ≡ "match" → IsVerdict cached zero_flag computed status

-- The pair is what the bytes of the file hold: a marked String header of the bound class with its
-- coder, its hash and its reference, an array of the bound class at the place that the hypothesis
-- gives for the reference, whose payload of the length in its header lies inside the capture and apart
-- from the String, the hash of that payload, and how it compares with the cached one.
pub record IsDecoded (b : Bindings) (file : List ℕ) (size offset : ℕ) (header : List ℕ) (p : Pair)
    : Type 0 where
  pub at_offset : p.offset ≡ offset
  pub even : offset % 8 ≡ 0
  pub marked : mark_ok header ≡ true
  pub string_class : word (slice 8 (klass_size b) header) ≡ b.string_klass
  pub reference : p.raw ≡ word (slice 24 8 header)
  pub coder : p.coder ≡ word (slice (12 + klass_size b) 1 header)
  pub coder_small : p.coder ≤ 1
  pub cached : p.cached ≡ word (slice (8 + klass_size b) 4 header)
  pub resolved : target b.model p.raw ≡ some p.target
  pub target_even : p.target % 8 ≡ 0
  pub array_header : mark_ok (slice p.target (payload_start b) file) ≡ true
  pub array_class :
      word (slice 8 (klass_size b) (slice p.target (payload_start b) file)) ≡ b.array_klass
  pub array_length :
      length p.payload ≡ word (slice (8 + klass_size b) 4 (slice p.target (payload_start b) file))
  pub whole_units : p.coder ≡ 1 → length p.payload % 2 ≡ 0
  pub content : p.payload ≡ slice (p.target + payload_start b) (length p.payload) file
  pub inside : p.target + payload_start b + length p.payload ≤ size
  pub apart : (p.target + payload_start b + length p.payload ≤ offset) ⊎ (offset + 32 ≤ p.target)
  pub bounded : length p.payload ≤ b.max_bytes
  pub hash : p.computed ≡ java_hash p.payload p.coder
  pub verdict : IsVerdict p.cached (word (slice (13 + klass_size b) 1 header)) p.computed p.status

status_of-IsVerdict :
    (f : Fields) (computed : ℕ) → IsVerdict f.cached f.zero_flag computed (status_of f computed)
unfolding status_of
status_of-IsVerdict f computed = elim (Bool-cases (f.cached == 0 && f.zero_flag == 0)) [
  | inl none_kept ↦ rw none_kept (not_cached (ground arith) (ground arith) refl)
  | inr kept ↦ rw kept (elim (Bool-cases (not (f.cached == computed))) [
    | inl differ ↦
        rw differ
          (mismatch (some_kept f.cached f.zero_flag kept) (unequal f.cached computed differ) refl)
    | inr same ↦ rw same (elim (Bool-cases (f.cached == 0)) [
      | inl zero ↦ rw zero (zero_match (ground arith) (ground arith) (ground arith) refl)
      | inr some_hash ↦ rw some_hash (match (ground arith) (ground arith) refl)
    ])
  ])
]
  where
    some_kept : (m n : ℕ) → m == 0 && n == 0 ≡ false → (0 < m) ⊎ (0 < n)
    some_kept m n e = ground arith

    unequal : (m n : ℕ) → not (m == n) ≡ true → ¬ (m ≡ n)
    unequal m n e same = ground (arith, e, same)

no_some {ℓ} : {A : Type ℓ} {a : A} → ◌≡◌ {A = Option A} none (some a) → ⊥
no_some e = cc

pub skip :
    (test : Bool) (reason : String) (rest : Result Decoded) {p : Pair}
    → (if test then ok (rejected reason) else rest) ≡ ok (pair p)
    → (test ≡ false) × (rest ≡ ok (pair p))
skip true reason rest h = cc
skip false reason rest h = (refl, h)

pub pass {ℓ} :
    {A : Type ℓ} (o : Option A) (reason : String) (rest : A → Result Decoded) {p : Pair}
    → (elim o [ none ↦ ok (rejected reason) | some a ↦ rest a ]) ≡ ok (pair p)
    → (a : A) × (o ≡ some a) × (rest a ≡ ok (pair p))
pass none reason rest h = cc
pass (some a) reason rest h = (a, refl, h)

pair_eq : {p q : Pair} → ◌≡◌ {A = Result Decoded} (ok (pair p)) (ok (pair q)) → p ≡ q
pair_eq h = cc

pub read_at-eq :
    (file : List ℕ) (size offset count : ℕ) (bytes : List ℕ)
    → read_at file size offset count ≡ some bytes
    → (bytes ≡ slice offset count file) × (offset + count ≤ size)
unfolding read_at
read_at-eq file size offset count bytes h =
    elim (Bool-cases (
      ltb max_bytes count
      || (elim (checked_add offset count) [ none ↦ true | some end ↦ ltb size end ]))) [
        | inl bad ↦ absurd (no_some (rw bad at h))
        | inr good ↦ (sym (some_eq (rw good at h)), ground arith)
      ]

pub read_at-fits :
    (file : List ℕ) (size offset count : ℕ)
    → count ≤ max_bytes
    → offset + count ≤ size
    → size ≤ 2 ^ 36
    → read_at file size offset count ≡ some (slice offset count file)
unfolding read_at
read_at-fits file size offset count few fits small =
    let a : ltb max_bytes count ≡ false = ground arith in
    let c : ltb (offset + count) two64 ≡ true = ground arith in
    let e : ltb size (offset + count) ≡ false = ground arith in rw (a, c, e)

pub bad_extent-ok :
    (size offset start bytes : ℕ)
    → bad_extent size offset start bytes ≡ false
    → (start + bytes ≤ size) × ((start + bytes ≤ offset) ⊎ (offset + 32 ≤ start))
unfolding bad_extent aligned
bad_extent-ok size offset start bytes h = ground arith

pub aligned_target-eq :
    (b : Bindings) (raw start : ℕ)
    → aligned_target b.model raw ≡ some start
    → (target b.model raw ≡ some start) × (start % 8 ≡ 0)
unfolding aligned_target
aligned_target-eq b raw start h = ground arith

decode_payload-eq :
    (b : Bindings) (file : List ℕ) (size offset start : ℕ) (f : Fields) (len : ℕ) (p : Pair)
    → decode_payload b file size offset start f len ≡ ok (pair p)
    → (start + (array_base b + len) ≤ size)
      × ((start + (array_base b + len) ≤ offset) ⊎ (offset + 32 ≤ start))
      × (len ≤ b.max_bytes)
      × (p ≡ made_pair offset start f (slice (start + array_base b) len file))
unfolding decode_payload
decode_payload-eq b file size offset start f len p h =
    let (extent, h₁) = skip (bad_extent size offset start (array_base b + len)) _ _ h in
    let (few, h₂) = skip (ltb b.max_bytes len) _ _ h₁ in
    let (payload, read, made) =
      >>=-eq-ok (ok_or (read_at file size (start + array_base b) len) _)
        (λ payload. ok (pair (made_pair offset start f payload))) h₂ in
    let (inside, apart) = bad_extent-ok size offset start (array_base b + len) extent in
    let content = (read_at-eq file size _ _ payload (ok_or-eq-ok _ _ read)).0 in
    (inside, apart, ground arith, sym (pair_eq made) ∙ ap (made_pair offset start f) content)

decode_array-eq :
    (b : Bindings) (file : List ℕ) (size offset start : ℕ) (f : Fields) (p : Pair)
    → decode_array b file size offset start f ≡ ok (pair p)
    → let array : List ℕ = slice start (array_base b) file in
      let len : ℕ = word (slice (8 + header_width b) 4 array) in
      (mark_ok array ≡ true)
      × (word (slice 8 (header_width b) array) ≡ b.array_klass)
      × (f.coder ≡ 1 → len % 2 ≡ 0)
      × (decode_payload b file size offset start f len ≡ ok (pair p))
unfolding decode_array
decode_array-eq b file size offset start f p h =
    let (array, read, h₁) =
      pass (read_at file size start (array_base b)) _
        (λ array.
          let len = word (slice (8 + header_width b) 4 array) in
          if not (mark_ok array) || not (word (slice 8 (header_width b) array) == b.array_klass)
          then ok (rejected "array-header-mismatch")
          else if ltb i32_max len || (f.coder == 1 && not (len % 2 == 0))
          then ok (rejected "invalid-array-length")
          else decode_payload b file size offset start f len)
        h in
    let len : ℕ = word (slice (8 + header_width b) 4 array) in
    let (header, h₂) =
      skip (not (mark_ok array) || not (word (slice 8 (header_width b) array) == b.array_klass)) _ _
        h₁ in
    let (counted, h₃) =
      skip (ltb i32_max len || (f.coder == 1 && not (len % 2 == 0))) _
        (decode_payload b file size offset start f len) h₂ in
    let content = (read_at-eq file size _ _ array read).0 in
    subst
      (λ a.
        (mark_ok a ≡ true)
        × (word (slice 8 (header_width b) a) ≡ b.array_klass)
        × (f.coder ≡ 1 → word (slice (8 + header_width b) 4 a) % 2 ≡ 0)
        × (decode_payload b file size offset start f (word (slice (8 + header_width b) 4 a))
            ≡ ok (pair p)))
      content
      (is_marked _ _ header, of_class _ _ _ header, λ wide. whole f.coder len _ counted wide, h₃)
  where
    is_marked : (m k : Bool) → not m || not k ≡ false → m ≡ true
    is_marked m k e = ground arith

    of_class : (m : Bool) (k n : ℕ) → not m || not (k == n) ≡ false → k ≡ n
    of_class m k n e = ground arith

    whole : (c n : ℕ) (t : Bool) → t || (c == 1 && not (n % 2 == 0)) ≡ false → c ≡ 1 → n % 2 ≡ 0
    whole c n t e wide = ground (arith, e, wide)

-- Every pair that the decoder returns for a String header is what the bytes of the file hold.
pub decode_header-IsDecoded :
    (b : Bindings) (file : List ℕ) (size offset : ℕ) (header : List ℕ) (p : Pair)
    → length file ≡ size
    → decode_header b file size offset header ≡ ok (pair p)
    → IsDecoded b file size offset header p
unfolding decode_header decode_fields decode_array read_fields
decode_header-IsDecoded b file size offset header p whole h =
    let f : Fields = read_fields b header in
    let (shape, h₁) =
      skip (not (offset % 8 == 0) || not (is_string_header b header)) _
        (decode_fields b file size offset f) h in
    let (valid, h₂) =
      skip (ltb 1 f.coder || ltb 1 f.zero_flag || (f.zero_flag == 1 && not (f.cached == 0))) _ _
        h₁ in
    let (start, resolves, h₃) =
      pass (aligned_target b.model f.raw) _ (λ start. decode_array b file size offset start f) h₂ in
    let len : ℕ = word (slice (8 + header_width b) 4 (slice start (array_base b) file)) in
    let (array_marked, array_class, whole_units, h₄) =
      decode_array-eq b file size offset start f p h₃ in
    let (inside, apart, few, made) = decode_payload-eq b file size offset start f len p h₄ in
    let (resolved, even) = aligned_target-eq b f.raw start resolves in
    let payload_length : length (slice (start + array_base b) len file) ≡ len =
      length-slice _ len file (omega (arith, whole, inside)) in
    subst (IsDecoded b file size offset header) (sym made) (record {
      at_offset = refl;
      even = ground arith;
      marked = ground arith;
      string_class = named _ _ _ _ shape;
      reference = refl;
      coder = place (8 + header_width b + 4) (12 + header_width b) (omega arith);
      coder_small = coder_small f.coder f.zero_flag _ valid;
      cached = refl;
      resolved = resolved;
      target_even = even;
      array_header = array_marked;
      array_class = array_class;
      array_length = payload_length;
      whole_units = λ wide. ap (λ n. n % 2) payload_length ∙ whole_units wide;
      content = ap (λ n. slice (start + array_base b) n file) (sym payload_length);
      inside = omega (arith, payload_length, inside);
      apart = apart_of (array_base b) start payload_length apart;
      bounded = omega (arith, payload_length, few);
      hash = refl;
      verdict =
          subst
            (λ z.
              IsVerdict f.cached z
                (made_pair offset start f (slice (start + array_base b) len file)).computed
                (made_pair offset start f (slice (start + array_base b) len file)).status)
            (place (8 + header_width b + 5) (13 + header_width b) (omega arith))
            (status_of-IsVerdict f (java_hash (slice (start + array_base b) len file) f.coder));
    })
  where
    place : (i j : ℕ) → i ≡ j → word (slice i 1 header) ≡ word (slice j 1 header)
    place i j e = ap (λ k. word (slice k 1 header)) e

    named : (o : Bool) (m : Bool) (k n : ℕ) → not o || not (m && k == n) ≡ false → k ≡ n
    named o m k n e = ground arith

    coder_small : (c z : ℕ) (t : Bool) → ltb 1 c || ltb 1 z || t ≡ false → c ≤ 1
    coder_small c z t e = ground arith

    apart_of :
        {n len : ℕ} (base start : ℕ)
        → n ≡ len
        → (start + (base + len) ≤ offset) ⊎ (offset + 32 ≤ start)
        → (start + base + n ≤ offset) ⊎ (offset + 32 ≤ start)
    apart_of base start e (inl before) = inl (omega (arith, e, before))
    apart_of base start e (inr after) = inr after

pub decode_at-IsDecoded :
    (b : Bindings) (file : List ℕ) (size offset : ℕ) (p : Pair)
    → length file ≡ size
    → decode_at b file size offset ≡ ok (pair p)
    → IsDecoded b file size offset (slice offset 32 file) p
unfolding decode_at
decode_at-IsDecoded b file size offset p whole h =
    let (header, read, e) =
      pass (read_at file size offset 32) _ (decode_header b file size offset) h in
    let bytes = (read_at-eq file size offset 32 header read).0 in
    decode_header-IsDecoded b file size offset (slice offset 32 file) p whole
      (subst (λ x. decode_header b file size offset x ≡ ok (pair p)) bytes e)
