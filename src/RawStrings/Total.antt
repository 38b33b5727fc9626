-- ===== src/RawStrings/Total.antt =====
-- `decode_header` (src/raw_strings.rs) fails on no header: what it cannot decode, it skips or rejects.
use zgcmaster.Prelude.{
  ℕ, ◌+◌, ◌%◌, ◌≤◌, ◌≡◌, refl, Bool, true, false, ◌&&◌, ◌||◌, not, String, Option, none, some, List,
  slice, ltb, ◌==◌, if◌then◌else◌, Result, ok, arith,
}
use zgcmaster.Words.{max_file, i32_max, word}
use zgcmaster.RawStrings.Sound.{bad_extent-ok, read_at-fits}
use zgcmaster.RawStrings.{
  Bindings, Fields, Decoded, pair, rejected, max_bytes, array_base, header_width, read_at, mark_ok,
  read_fields, aligned_target, bad_extent, made_pair, decode_payload, decode_array, decode_fields,
  is_string_header, decode_header,
}

abbrev Returns : Result Decoded → Type 0
Returns r = (decoded : Decoded) × (r ≡ ok decoded)

skip-Returns :
    (test : Bool) (reason : String) (rest : Result Decoded)
    → (test ≡ false → Returns rest)
    → Returns (if test then ok (rejected reason) else rest)
skip-Returns true reason rest h = (rejected reason, refl)
skip-Returns false reason rest h = h refl

pass-Returns {ℓ} :
    {A : Type ℓ} (o : Option A) (reason : String) (rest : A → Result Decoded)
    → ((a : A) → Returns (rest a))
    → Returns (elim o [ none ↦ ok (rejected reason) | some a ↦ rest a ])
pass-Returns none reason rest h = (rejected reason, refl)
pass-Returns (some a) reason rest h = h a

decode_payload-Returns :
    (b : Bindings) (file : List ℕ) (size offset start : ℕ) (f : Fields) (len : ℕ)
    → b.max_bytes ≤ max_bytes
    → size ≤ max_file
    → Returns (decode_payload b file size offset start f len)
unfolding decode_payload
decode_payload-Returns b file size offset start f len few small =
    skip-Returns (bad_extent size offset start (array_base b + len)) _ _ λ extent.
      skip-Returns (ltb b.max_bytes len) _ _ λ fits.
        let inside = (bad_extent-ok size offset start (array_base b + len) extent).0 in
        let read =
          read_at-fits file size (start + array_base b) len (ground arith) (omega (arith, inside))
            small in
        (pair (made_pair offset start f (slice (start + array_base b) len file)), rw read)

decode_array-Returns :
    (b : Bindings) (file : List ℕ) (size offset start : ℕ) (f : Fields)
    → b.max_bytes ≤ max_bytes
    → size ≤ max_file
    → Returns (decode_array b file size offset start f)
unfolding decode_array
decode_array-Returns b file size offset start f few small =
    pass-Returns (read_at file size start (array_base b)) "array-out-of-bounds" _ λ array.
      let len : ℕ = word (slice (8 + header_width b) 4 array) in
      let last : Result Decoded = decode_payload b file size offset start f len in
      let counted : Bool = ltb i32_max len || (f.coder == 1 && not (len % 2 == 0)) in
      skip-Returns
        (not (mark_ok array) || not (word (slice 8 (header_width b) array) == b.array_klass))
        "array-header-mismatch" (if counted then ok (rejected "invalid-array-length") else last)
        λ marked.
          skip-Returns counted "invalid-array-length" last
            λ few_units. decode_payload-Returns b file size offset start f len few small

-- With a payload limit of at most 1 MiB and a capture of at most 64 GiB the decoder never fails:
-- whatever the header says, it returns a pair or the reason of a rejection.
pub decode_header_total :
    (b : Bindings) (file : List ℕ) (size offset : ℕ) (header : List ℕ)
    → b.max_bytes ≤ max_bytes
    → size ≤ max_file
    → (decoded : Decoded) × (decode_header b file size offset header ≡ ok decoded)
unfolding decode_header decode_fields
decode_header_total b file size offset header few small =
    let f : Fields = read_fields b header in
    skip-Returns (not (offset % 8 == 0) || not (is_string_header b header)) "string-header-mismatch"
      (decode_fields b file size offset f)
      λ shape.
        skip-Returns
          (ltb 1 f.coder || ltb 1 f.zero_flag || (f.zero_flag == 1 && not (f.cached == 0)))
          "invalid-string-fields"
          (elim (aligned_target b.model f.raw) [
            | none ↦ ok (rejected "unresolved-reference")
            | some start ↦ decode_array b file size offset start f
          ])
          λ valid.
            pass-Returns (aligned_target b.model f.raw) "unresolved-reference"
              (λ start. decode_array b file size offset start f)
              λ start. decode_array-Returns b file size offset start f few small
