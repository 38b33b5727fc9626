-- ===== src/Walk.antt =====
-- The loop that src/lib.rs (`scan_with`) and src/raw_strings.rs (`walk_klass`) run over a capture:
-- chunks of `chunk` bytes, each read with `extra` bytes of what follows, visited at every eighth
-- byte. A capture is the list of its bytes, and does not change during a run.
pub mod SinglePass
use zgcmaster.Prelude.{
  ℕ, zero, suc, ◌+◌, ◌-◌, ◌/◌, ◌≤◌, ◌<◌, min, Bool, true, false, List, take, slice, ltb,
  if◌then◌else◌, Result, ok, err, io, ◌>>=◌,
}

-- `read buffer n pos` takes what the visit needs from the `n` bytes of the buffer, and `need` is
-- the least size of a header.
module _ {ℓ κ} {H : Type ℓ} {S : Type κ} (need : ℕ) (read : List ℕ → ℕ → ℕ → H)
    (visit : ℕ → H → S → Result S) where
  -- `for pos in (0..main).step_by(8)`, with the rounds left.
  unfoldable pub positions : List ℕ → ℕ → ℕ → ℕ → ℕ → S → Result S
  positions buffer n base zero pos s = ok s
  positions buffer n base (suc rounds) pos s =
      if ltb n (pos + need)
      then ok s
      else (visit (base + pos) (read buffer n pos) s >>= λ s'.
          positions buffer n base rounds (pos + 8) s')

  -- The reference: one pass over the whole capture at the offsets `offset`, `offset + 8`, ….
  unfoldable pub single_pass : List ℕ → ℕ → ℕ → ℕ → S → Result S
  single_pass heap size zero offset s = ok s
  single_pass heap size (suc rounds) offset s =
      if ltb size (offset + need)
      then ok s
      else (visit offset (read heap size offset) s >>= λ s'.
          single_pass heap size rounds (offset + 8) s')

  -- `while base < size`, on fuel; without fuel it fails. `tally` is what is done once with the
  -- bytes of each chunk.
  module _ {μ} {X : Type μ} (tally : X → List ℕ → X) where
    unfoldable pub chunks : ℕ → ℕ → List ℕ → ℕ → ℕ → ℕ → X × S → Result (X × S)
    unfolding positions
    chunks chunk extra heap size zero base p = err io
    chunks chunk extra heap size (suc fuel) base (x, s) = elim (ltb base size) [
      | false ↦ ok (x, s)
      | true ↦
          let n = min (size - base) (chunk + extra) in
          let buffer = slice base n heap in
          let main = min n chunk in
          positions buffer n base ((main + 7) / 8) 0 s >>= λ s'.
          chunks chunk extra heap size fuel (base + main) (tally x (take main buffer), s')
    ]
