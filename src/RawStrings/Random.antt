-- ===== src/RawStrings/Random.antt =====
-- `Rng` of src/raw_strings.rs: SplitMix64, and a draw below a bound by rejection. The loop of the draw
-- runs on fuel of 2 ^ 64 rounds.
use native.Mathlib.Nat.{mod-lt}
use zgcmaster.Prelude.{
  ℕ, zero, suc, ◌+◌, ◌-◌, ◌*◌, ◌%◌, ◌^◌, ◌≤◌, ◌<◌, ◌≡◌, refl, ap, ◌∙◌, true, false, Option, none,
  some, ltb, Bool-cases, inl, inr, arith,
}
use zgcmaster.Words.{two64}
use zgcmaster.Spacing.{splitmix_next, splitmix_output}

-- The `loop` of `Rng::below`: the number drawn, and the next state.
unfoldable pub below_from : ℕ → ℕ → ℕ → Option (ℕ × ℕ)
unfolding splitmix_next splitmix_output
below_from zero n s = none
below_from (suc fuel) n s =
    let x = splitmix_output (splitmix_next s) in
    elim (ltb x ((two64 - n) % n)) [
      | true ↦ below_from fuel n (splitmix_next s)
      | false ↦ some (x % n, splitmix_next s)
    ]

-- `Rng::below`, for a positive bound.
unfoldable pub below : ℕ → ℕ → Option (ℕ × ℕ)
unfolding below_from
below n s = below_from two64 n s

-- A draw that ends.
pub record IsDrawn (n : ℕ) (o : Option (ℕ × ℕ)) : Type 0 where
  pub drawn : ℕ
  pub state : ℕ
  pub result : o ≡ some (drawn, state)
  pub small : drawn < n
  pub is_state : state < two64

abbrev gamma : ℕ
gamma = 0x9e3779b97f4a7c15

next-lt : (s : ℕ) → splitmix_next s < two64
unfolding splitmix_next
next-lt s = omega arith

-- The output at the state `gamma` is accepted for every bound up to 2 ^ 63.
accepted_lem : (n : ℕ) → 0 < n → n ≤ 2 ^ 63 → ltb (splitmix_output gamma) ((two64 - n) % n) ≡ false
accepted_lem n pos small =
    let e : splitmix_output gamma ≡ 16294208416658607535 = unfold splitmix_output in refl in
    let below_n : (two64 - n) % n < n = mod-lt (two64 - n) pos in
    ap (λ x. ltb x ((two64 - n) % n)) e ∙ ground arith

accepted-IsDrawn :
    (n fuel s : ℕ)
    → 0 < n
    → ltb (splitmix_output (splitmix_next s)) ((two64 - n) % n) ≡ false
    → IsDrawn n (below_from (suc fuel) n s)
unfolding below_from
accepted-IsDrawn n fuel s pos accepted =
    rw (below_from, accepted)
      (record {
        drawn = splitmix_output (splitmix_next s) % n;
        state = splitmix_next s;
        result = refl;
        small = mod-lt (splitmix_output (splitmix_next s)) pos;
        is_state = next-lt s;
      })

-- The state `gamma` is reached within `k` more rounds.
reach-IsDrawn :
    (n k fuel s : ℕ)
    → 0 < n
    → n ≤ 2 ^ 63
    → k < fuel
    → (s + k * gamma + gamma) % two64 ≡ gamma
    → IsDrawn n (below_from fuel n s)
unfolding below_from
reach-IsDrawn n k zero s pos small less h = absurd (omega arith)
reach-IsDrawn n zero (suc fuel) s pos small less h =
    let here : splitmix_next s ≡ gamma = unfold splitmix_next in omega (arith, h) in
    accepted-IsDrawn n fuel s pos
      (ap (λ t. ltb (splitmix_output t) ((two64 - n) % n)) here ∙ accepted_lem n pos small)
reach-IsDrawn n (suc k) (suc fuel) s pos small less h =
    elim (Bool-cases (ltb (splitmix_output (splitmix_next s)) ((two64 - n) % n))) [
      | inr accepted ↦ accepted-IsDrawn n fuel s pos accepted
      | inl refused ↦
          rw (below_from, refused)
            (reach-IsDrawn n k fuel (splitmix_next s) pos small (omega arith)
              (unfold splitmix_next in omega (arith, h)))
    ]

-- A draw below a bound between 1 and 2 ^ 63 ends from every state, with a number below the bound.
pub below-IsDrawn : (n s : ℕ) → 0 < n → n ≤ 2 ^ 63 → s < two64 → IsDrawn n (below n s)
unfolding below
below-IsDrawn n s pos small state =
    let k : ℕ = (two64 - s) * 17428512612931826493 % two64 in
    reach-IsDrawn n k two64 s pos small (omega arith) (omega arith)
