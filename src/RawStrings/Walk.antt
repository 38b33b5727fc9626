-- ===== src/RawStrings/Walk.antt =====
-- `walk_klass` of src/raw_strings.rs: the visit of every marked header that carries one of the given
-- identities, over the whole capture.
use zgcmaster.Prelude.{
  ℕ, ◌+◌, ◌-◌, ◌*◌, ◌/◌, ◌<◌, ◌≡◌, sym, ap, ◌∙◌, Bool, ◌&&◌, not, String, List, length, slice,
  slice-slice, any, leb, ◌==◌, if◌then◌else◌, Result, ok, ◌>>=◌, ◌>>◌, refuse_if, arith, bind_assoc,
  >>-eq-ok, >>=-eq-ok,
}
use zgcmaster.Words.{chunk_size, max_file, word}
use zgcmaster.Digest.{Digest, hash_of, verify_digest, verify_digest-eq-ok}
use zgcmaster.Walk.{chunks, single_pass}
use zgcmaster.Walk.SinglePass.{IsLocal, chunks-eq-single_pass}
use zgcmaster.Scan.{has_foreign_signature}
use zgcmaster.RawStrings.{mark_ok}

pub record Walked (S : Type 0) : Type 0 where
  pub size : ℕ
  pub hash : String
  pub count : ℕ
  pub state : S

abbrev pub take_header : ℕ → List ℕ → ℕ → ℕ → List ℕ
take_header header_bytes buffer n pos = slice pos header_bytes buffer

abbrev pub is_wanted : ℕ → List ℕ → List ℕ → Bool
is_wanted kw klasses header = any (λ k. k == word (slice 8 kw header)) klasses && mark_ok header

abbrev pub check_file : List ℕ → Result (Unit {0})
check_file file =
    refuse_if (not (leb 32 (length file) && leb (length file) max_file))
      "Expected a regular raw file of 32 bytes..64 GiB"
    >> refuse_if (has_foreign_signature file) "Expected raw ZGC bytes, not HPROF, gzip or ELF"

-- `recheck`, on what the file holds after the walk.
unfoldable pub recheck : Digest → List ℕ → ℕ → String → Result (Unit {0})
unfolding verify_digest
recheck d file size hash =
    refuse_if (not (length file == size)) "Capture size changed"
    >> verify_digest (hash_of d file) hash

module _ {S : Type 0} (kw : ℕ) (klasses : List ℕ) (size : ℕ)
    (visit : ℕ → List ℕ → ℕ → S → Result S) where
  -- The body of the loop: a wanted header is counted and visited.
  unfoldable pub walk_header : ℕ → List ℕ → ℕ × S → Result (ℕ × S)
  walk_header offset header (count, s) =
      if is_wanted kw klasses header
      then (visit offset header size s >>= λ s'. ok (count + 1, s'))
      else ok (count, s)

module _ (d : Digest) {S : Type 0} (kw : ℕ) (klasses : List ℕ) (header_bytes : ℕ)
    (visit : ℕ → List ℕ → ℕ → S → Result S) (file : List ℕ) (s : S) where
  abbrev pub finish_walk : d.State × (ℕ × S) → Result (Walked S)
  finish_walk (hash, (count, state)) =
      ok (record { size = length file; hash = d.finalize hash; count = count; state = state })

  unfoldable pub walk_chunks : ℕ → Result (Walked S)
  unfolding walk_header chunks
  walk_chunks chunk =
      chunks header_bytes (take_header header_bytes) (walk_header kw klasses (length file) visit)
        d.update chunk header_bytes file (length file) (length file + 1) 0 (d.start, (0, s))
      >>= finish_walk

  -- `walk_klass`.
  unfoldable pub walk_klass : Result (Walked S)
  unfolding walk_chunks
  walk_klass = check_file file >> walk_chunks chunk_size

  take_header-IsLocal : IsLocal header_bytes header_bytes (take_header header_bytes) file
  take_header-IsLocal base n pos fits inside room =
      slice-slice pos header_bytes base n file (omega arith)

  -- The walk in chunks is one pass over the whole capture at every eighth byte, with the hash of the
  -- whole capture, for every chunk that is a positive multiple of 8.
  pub walk_chunks-eq-single_pass :
      (eighths : ℕ)
      → 0 < eighths
      → walk_chunks (8 * eighths) ≡ (
          single_pass header_bytes
            (take_header header_bytes)
            (walk_header kw klasses (length file) visit)
            file
            (length file)
            ((length file + 7) / 8)
            0
            (0, s)
          >>= λ p. finish_walk (d.update d.start file, p))
  unfolding walk_chunks
  walk_chunks-eq-single_pass eighths pos =
      ap (λ r. r >>= finish_walk)
        (chunks-eq-single_pass header_bytes (take_header header_bytes)
          (walk_header kw klasses (length file) visit) header_bytes file (omega arith)
          take_header-IsLocal d.update d.update_nil d.update-append eighths (length file + 1) 0
          d.start (0, s) pos (omega arith) (omega arith))
      ∙ (let z : length file - 0 ≡ length file = omega arith in
          rw z (
            bind_assoc
              (single_pass header_bytes (take_header header_bytes)
                (walk_header kw klasses (length file) visit) file (length file)
                ((length file + 7) / 8) 0 (0, s))
              (λ p. ok (d.update d.start file, p)) finish_walk))

  -- What a walk that succeeds has done.
  pub walk_klass-eq-ok :
      (w : Walked S)
      → walk_klass ≡ ok w
      → (p : ℕ × S) × (single_pass header_bytes
            (take_header header_bytes)
            (walk_header kw klasses (length file) visit)
            file
            (length file)
            ((length file + 7) / 8)
            0
            (0, s)
          ≡ ok p)
        × (finish_walk (d.update d.start file, p) ≡ ok w)
  unfolding walk_klass
  walk_klass-eq-ok w h =
      let (checked, h₁) = >>-eq-ok (check_file file) (walk_chunks chunk_size) h in
      >>=-eq-ok
        (single_pass header_bytes (take_header header_bytes)
          (walk_header kw klasses (length file) visit) file (length file) ((length file + 7) / 8) 0
          (0, s))
        (λ p. finish_walk (d.update d.start file, p))
        (sym (walk_chunks-eq-single_pass 131072 (omega arith)) ∙ h₁)

pub recheck-eq-ok :
    (d : Digest) (file : List ℕ) (size : ℕ) (hash : String)
    → recheck d file size hash ≡ ok tt
    → hash_of d file ≡ hash
unfolding recheck
recheck-eq-ok d file size hash h =
    let (sized, same) = >>-eq-ok (refuse_if (not (length file == size)) _) _ h in
    verify_digest-eq-ok (hash_of d file) hash same
