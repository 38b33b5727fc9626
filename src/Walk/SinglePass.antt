-- ===== src/Walk/SinglePass.antt =====
-- The chunked loop is the single pass over the whole capture, for every chunk size that is a
-- multiple of 8 and every overlap that holds what one visit reads.
use native.Mathlib.Nat.{suc-add}
use zgcmaster.Prelude.{
  ℕ, zero, suc, ◌+◌, ◌-◌, ◌*◌, ◌/◌, ◌%◌, ◌≤◌, ◌<◌, min, true, false, List, [], ◌++◌, take, drop,
  slice, length, ltb, Result, ok, ◌>>=◌, >>=-eq-ok, ok-injective, subst, ◌≡◌, refl, sym, ap, ◌∙◌,
  arith, Bool-cases, inl, inr, Result-cases, ltb→lt, lt→ltb, ◌⊎◌, drop_all, take-take, drop-drop,
  take-append-drop,
}
use zgcmaster.Walk.{positions, chunks, single_pass}

-- `read` looks at no byte past `pos + extra`, and where the buffer ends before that, so does the
-- capture.
abbrev pub IsLocal {ℓ} : {H : Type ℓ} → ℕ → ℕ → (List ℕ → ℕ → ℕ → H) → List ℕ → Type ℓ
IsLocal need extra read heap =
    (base n pos : ℕ)
    → base + n ≤ length heap
    → pos + need ≤ n
    → (n + base ≡ length heap) ⊎ (pos + extra ≤ n)
    → read (slice base n heap) n pos ≡ read heap (length heap) (base + pos)

module _ {ℓ κ} {H : Type ℓ} {S : Type κ} (need : ℕ) (read : List ℕ → ℕ → ℕ → H)
    (visit : ℕ → H → S → Result S) where
  single_pass_end :
      (heap : List ℕ) (size rounds offset : ℕ) (s : S)
      → size < offset + need
      → single_pass need read visit heap size rounds offset s ≡ ok s
  unfolding single_pass
  single_pass_end heap size zero offset s h = refl
  single_pass_end heap size (suc rounds) offset s h = rw (lt→ltb _ _ h)

  single_pass-add :
      (heap : List ℕ) (size a b offset : ℕ) (s : S)
      → single_pass need read visit heap size (a + b) offset s ≡ (
          single_pass need read visit heap size a offset s >>= λ s'.
          single_pass need read visit heap size b (offset + 8 * a) s')
  unfolding single_pass
  single_pass-add heap size zero b offset s =
      let e : 0 + b ≡ b = omega arith in let f : offset + 8 * 0 ≡ offset = omega arith in rw (e, f)
  single_pass-add heap size (suc a) b offset s =
      rw suc-add (elim (Bool-cases (ltb size (offset + need))) [
        | inl over ↦
            rw over (sym (single_pass_end heap size b (offset + 8 * suc a) s (ground arith)))
        | inr more ↦ rw more (elim (Result-cases (visit offset (read heap size offset) s)) [
          | inl (s', e) ↦ rw e (
              single_pass-add heap size a b (offset + 8) s'
              ∙ (let f : offset + 8 + 8 * a ≡ offset + 8 * suc a = omega arith in rw f))
          | inr (x, e) ↦ rw e
        ])
      ])

  module _ (extra : ℕ) (heap : List ℕ) (wide_enough : need ≤ extra)
      (local : IsLocal need extra read heap) where
    positions-eq-single_pass :
        (base n rounds pos : ℕ) (s : S)
        → base + n ≤ length heap
        → (n + base ≡ length heap) ⊎ (pos + 8 * rounds + extra ≤ n + 8)
        → positions need read visit (slice base n heap) n base rounds pos s
          ≡ single_pass need read visit heap (length heap) rounds (base + pos) s
    unfolding positions single_pass
    positions-eq-single_pass base n zero pos s fits room = refl
    positions-eq-single_pass base n (suc rounds) pos s fits room =
        elim (Bool-cases (ltb n (pos + need))) [
          | inl over ↦ rw (over, lt→ltb (length heap) (base + pos + need) (ground arith))
          | inr more ↦
              rw (more, not_over more, local base n pos fits (ground arith) (ground arith))
                (elim (Result-cases (visit (base + pos) (read heap (length heap) (base + pos)) s)) [
                  | inl (s', e) ↦ rw e (
                      positions-eq-single_pass base n rounds (pos + 8) s' fits (ground arith)
                      ∙ (let f : base + (pos + 8) ≡ base + pos + 8 = omega arith in rw f))
                  | inr (x, e) ↦ rw e
                ])
        ]
      where
        not_over : ltb n (pos + need) ≡ false → ltb (length heap) (base + pos + need) ≡ false
        not_over h = ground arith

    same_rest :
        (size r o o' : ℕ) (s : S)
        → (r ≡ 0) ⊎ (o ≡ o')
        → single_pass need read visit heap size r o s ≡ single_pass need read visit heap size r o' s
    unfolding single_pass
    same_rest size r o o' s (inl e) = rw e
    same_rest size r o o' s (inr e) = rw e

    module _ {μ} {X : Type μ} (tally : X → List ℕ → X) (tally_nil : (x : X) → tally x [] ≡ x)
        (tally-append : (x : X) (a b : List ℕ) → tally (tally x a) b ≡ tally x (a ++ b)) where
      tally_slices :
          (x : X) (base main n : ℕ)
          → main ≤ n
          → tally (tally x (take main (slice base n heap))) (drop (base + main) heap)
            ≡ tally x (drop base heap)
      tally_slices x base main n h =
          tally-append x _ _
          ∙ ap (tally x) (
              ap (λ l. l ++ drop (base + main) heap) (take-take main n (drop base heap) h)
              ∙ ap (λ l. take main (drop base heap) ++ l) (sym (drop-drop main base heap))
              ∙ take-append-drop main (drop base heap))

      chunks_stop :
          (chunk fuel base : ℕ) (x : X) (s : S)
          → ltb base (length heap) ≡ false
          → chunks need read visit tally chunk extra heap (length heap) (suc fuel) base (x, s)
            ≡ ok (x, s)
      unfolding chunks
      chunks_stop chunk fuel base x s h = rw (h, chunks)

      chunks_go :
          (chunk fuel base : ℕ) (x : X) (s : S)
          → ltb base (length heap) ≡ true
          → chunks need read visit tally chunk extra heap (length heap) (suc fuel) base (x, s) ≡ (
              let n = min (length heap - base) (chunk + extra) in
              let buffer = slice base n heap in
              let main = min n chunk in
              positions need read visit buffer n base ((main + 7) / 8) 0 s >>= λ s'.
              chunks need read visit tally chunk extra heap
                (length heap)
                fuel
                (base + main)
                (tally x (take main buffer), s'))
      unfolding chunks
      chunks_go chunk fuel base x s h = rw (h, chunks)

      -- The chunked loop, from any multiple of the chunk on: the state is that of the single
      -- pass, and every byte has been tallied once, in order.
      pub chunks-eq-single_pass :
          (eighths fuel base : ℕ) (x : X) (s : S)
          → 0 < eighths
          → base ≤ length heap
          → length heap < base + fuel
          → chunks need read visit tally (8 * eighths) extra heap (length heap) fuel base (x, s) ≡ (
              single_pass need read visit heap (length heap) ((length heap - base + 7) / 8) base s
              >>= λ s'. ok (tally x (drop base heap), s'))
      chunks-eq-single_pass eighths zero base x s pos le enough = absurd (omega arith)
      chunks-eq-single_pass eighths (suc fuel) base x s pos le enough =
          elim (Bool-cases (ltb base (length heap))) [
            | inr past ↦
                let e : (length heap - base + 7) / 8 ≡ 0 = ground arith in
                chunks_stop (8 * eighths) fuel base x s past
                ∙ (unfold single_pass in rw (e, drop_all base heap (ground arith), tally_nil))
            | inl more ↦
                chunks_go (8 * eighths) fuel base x s more
                ∙ (let size : ℕ = length heap in
                    let n : ℕ = min (length heap - base) (8 * eighths + extra) in
                    let main : ℕ = min n (8 * eighths) in
                    let first : ℕ = (main + 7) / 8 in
                    let rest : ℕ = (length heap - (base + main) + 7) / 8 in
                    let grows : 0 < main = omega (arith, ltb→lt base (length heap) more) in
                    let e₀ : base + 0 ≡ base = omega arith in
                    let step : positions need read visit (slice base n heap) n base first 0 s
                        ≡ single_pass need read visit heap (length heap) first base s =
                      positions-eq-single_pass base n first 0 s (omega arith) (ground arith)
                      ∙ ap (λ o. single_pass need read visit heap (length heap) first o s) e₀ in
                    let split : (length heap - base + 7) / 8 ≡ first + rest = ground arith in
                    rw (step, split, single_pass-add)
                      (elim (Result-cases
                        (single_pass need read visit heap (length heap) first base s)) [
                          | inr (z, e) ↦ rw e
                          | inl (s', e) ↦ rw e (
                              chunks-eq-single_pass eighths fuel (base + main)
                                (tally x (take main (slice base n heap))) s' pos (omega arith)
                                (omega arith)
                              ∙ ap
                                  (λ t.
                                    single_pass need read visit heap (length heap) rest
                                      (base + main) s'
                                    >>= λ s''. ok (t, s''))
                                  (tally_slices x base main n (omega arith))
                              ∙ ap (λ r. r >>= λ s''. ok (tally x (drop base heap), s''))
                                  (same_rest (length heap) rest (base + main) (base + 8 * first) s'
                                    (ground arith)))
                        ]))
          ]

-- The invariant rule for a single pass: `P offset` holds before the visit at `offset`, and past
-- the last header it goes on to hold.
module _ {ℓ κ} {H : Type ℓ} {S : Type κ} (need : ℕ) (read : List ℕ → ℕ → ℕ → H)
    (visit : ℕ → H → S → Result S) (heap : List ℕ) (size : ℕ) where
  pub single_pass_inv {ν} :
      (P : ℕ → S → Type ν)
      → ((o o' : ℕ) (s : S) → o ≤ o' → (o ≡ o') ⊎ (size < o + need) → P o s → P o' s)
      → ((o : ℕ) (s s' : S)
          → P o s
          → o % 8 ≡ 0
          → o + need ≤ size
          → visit o (read heap size o) s ≡ ok s'
          → P (o + 8) s')
      → (rounds o : ℕ) (s s' : S) → o % 8 ≡ 0
      → P o s
      → single_pass need read visit heap size rounds o s ≡ ok s'
      → P (o + 8 * rounds) s'
  unfolding single_pass
  single_pass_inv P weaken step zero o s s' even h e =
      subst (P (o + 8 * 0)) (ok-injective e) (weaken o _ s (omega arith) (inl (omega arith)) h)
  single_pass_inv P weaken step (suc rounds) o s s' even h e =
      elim (Bool-cases (ltb size (o + need))) [
        | inl over ↦
            subst (P (o + 8 * suc rounds)) (ok-injective (rw over at e))
              (weaken o _ s (omega arith) (inr (ltb→lt _ _ over)) h)
        | inr more ↦
            let f : (visit o (read heap size o) s >>= λ t.
            single_pass need read visit heap size rounds (o + 8) t)
                ≡ ok s' =
              rw more at e in
            let (t, here, rest) = >>=-eq-ok (visit o (read heap size o) s) _ f in
            let g : o + 8 + 8 * rounds ≡ o + 8 * suc rounds = omega arith in
            subst (λ k. P k s') g
              (single_pass_inv P weaken step rounds (o + 8) t s' (omega arith)
                (step o s t h even (ground arith) here) rest)
      ]
