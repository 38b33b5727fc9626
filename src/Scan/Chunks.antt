-- ===== src/Scan/Chunks.antt =====
-- The chunked scan of src/lib.rs against a scan of the whole capture in one pass.
use zgcmaster.Prelude.{
  ℕ, ◌+◌, ◌-◌, ◌*◌, ◌/◌, ◌≤◌, ◌<◌, List, [], ◌∷◌, ◌++◌, length, slice, slice-slice, ltb,
  if◌then◌else◌, true, false, ok, ◌>>=◌, ◌≡◌, refl, ap, ◌∙◌, ◌⊎◌, inl, inr, arith, Bool-cases, some,
  none, lt→ltb,
}
use zgcmaster.Words.{word}
use zgcmaster.Digest.{Digest}
use zgcmaster.Walk.{chunks, single_pass}
use zgcmaster.Walk.SinglePass.{IsLocal, chunks-eq-single_pass}
use zgcmaster.Scan.{Config, start_state, read_header, visit, zeros_in, tally, scan_loop}

read_header-IsLocal :
    (kw lo : ℕ) (heap : List ℕ) → kw ≤ 8 → lo ≤ 16 → IsLocal 16 24 (read_header kw lo) heap
unfolding read_header
read_header-IsLocal kw lo heap hk hl base n pos fits inside room = λ i. record {
  mark = word (slice-slice pos 8 base n heap (omega arith) i);
  full = word ((slice-slice (pos + 8) 8 base n heap (omega arith) ∙ moved 8 8) i);
  klass = word ((slice-slice (pos + 8) kw base n heap (omega arith) ∙ moved 8 kw) i);
  length_word = absent (Bool-cases (ltb n (pos + lo + 4))) i;
}
  where
    moved : (k m : ℕ) → slice (base + (pos + k)) m heap ≡ slice (base + pos + k) m heap
    moved k m = let e : base + (pos + k) ≡ base + pos + k = omega arith in rw e refl

    absent :
        (ltb n (pos + lo + 4) ≡ true) ⊎ (ltb n (pos + lo + 4) ≡ false)
        → (if ltb n (pos + lo + 4)
            then none
            else some (word (slice (pos + lo) 4 (slice base n heap))))
          ≡ (if ltb (length heap) (base + pos + lo + 4)
              then none
              else some (word (slice (base + pos + lo) 4 heap)))
    absent (inl over) = rw (over, lt→ltb (length heap) (base + pos + lo + 4) (ground arith)) refl
    absent (inr more) =
        let e : ltb (length heap) (base + pos + lo + 4) ≡ false = ground arith in
        rw (more, e)
          (ap (λ l. some (word l))
            (slice-slice (pos + lo) 4 base n heap (ground arith) ∙ moved lo 4))

zeros_in-append : (a b : List ℕ) → zeros_in (a ++ b) ≡ zeros_in a + zeros_in b
unfolding zeros_in
zeros_in-append [] b = omega arith
zeros_in-append (x ∷ a) b = omega (arith, zeros_in-append a b)

module _ (d : Digest) where
  tally_nil : (x : ℕ × d.State) → tally d x [] ≡ x
  unfolding tally zeros_in
  tally_nil (z, h) = λ i. ((let e : z + 0 ≡ z = omega arith in e) i, d.update_nil h i)

  tally-append : (x : ℕ × d.State) (a b : List ℕ) → tally d (tally d x a) b ≡ tally d x (a ++ b)
  unfolding tally
  tally-append (z, h) a b = λ i. (
    (let e : z + zeros_in a + zeros_in b ≡ z + zeros_in (a ++ b) =
            omega (arith, zeros_in-append a b) in
          e)
        i,
    d.update-append h a b i,
  )

  -- For an identity of at most 8 bytes, a length at offset 16 at most and a configuration with the
  -- size of the capture: with any chunk that is a positive multiple of 8, scanning the capture chunk
  -- by chunk gives what one pass over the whole capture gives, the same state or the same error,
  -- with the number of zero bytes of the capture and the hash fed with exactly its bytes.
  pub scan_loop-eq-single_pass :
      (eighths : ℕ) (c : Config) (kw lo : ℕ) (heap : List ℕ)
      → 0 < eighths
      → kw ≤ 8
      → lo ≤ 16
      → c.size ≡ length heap
      → scan_loop d (8 * eighths) c kw lo heap ≡ (
          single_pass 16
            (read_header kw lo)
            (visit c)
            heap
            (length heap)
            ((length heap + 7) / 8)
            0
            start_state
          >>= λ s. ok ((zeros_in heap, d.update d.start heap), s))
  unfolding scan_loop
  scan_loop-eq-single_pass eighths c kw lo heap pos hk hl size =
      ap
        (λ k.
          chunks 16 (read_header kw lo) (visit c) (tally d) (8 * eighths) 24 heap k (k + 1) 0
            ((0, d.start), start_state))
        size
      ∙ chunks-eq-single_pass 16 (read_header kw lo) (visit c) 24 heap (omega arith)
          (read_header-IsLocal kw lo heap hk hl) (tally d) tally_nil tally-append eighths
          (length heap + 1) 0 (0, d.start) start_state pos (omega arith) (omega arith)
      ∙ (let e : length heap - 0 ≡ length heap = omega arith in
          rw e (unfold tally in let z : 0 + zeros_in heap ≡ zeros_in heap = omega arith in rw z))
