-- ===== src/Address/Laws.antt =====
-- Colored pointers, and what uncoloring and the reference hypotheses make of them.
use native.Mathlib.Nat.{pow-suc, one-le-pow}
use zgcmaster.Prelude.{
  ℕ, zero, suc, ◌+◌, ◌-◌, ◌*◌, ◌/◌, ◌%◌, ◌^◌, ◌≤◌, ◌<◌, ◌≡◌, refl, true, false, some, arith, ltb,
  ok, ap, ◌∙◌, ◌==◌, ◌↔◌, ◌⊎◌,
}
use zgcmaster.Address.{
  gen_address, ReferenceModel, non_gen_low42, gen_arm_low_address, gen_x86_low_address, model_name,
  parse_model, top_bit, top_bit_from, heap_relative, target,
}

-- A pointer of amd64: the address above a one-hot remap nibble, `k` of its four colors, and eight
-- more color bits below the nibble.
abbrev pub color_amd64 : ℕ → ℕ → ℕ → ℕ
color_amd64 k low address = address * 2 ^ (13 + k) + 2 ^ (12 + k) + low * 16

-- A pointer of aarch64: the address above sixteen color bits, the remap nibble complemented.
abbrev pub color_aarch64 : ℕ → ℕ → ℕ → ℕ
color_aarch64 k low address = address * 2 ^ 16 + (15 - 2 ^ k) * 2 ^ 12 + low * 16

-- On amd64, uncoloring a colored pointer gives the address back, for every nonzero address that is
-- a multiple of 8, each of the four remap colors and every setting of the other color bits.
pub gen_address-color_amd64 :
    (k low address : ℕ)
    → k < 4
    → low < 256
    → address % 8 ≡ 0
    → 0 < address
    → gen_address (color_amd64 k low address) "amd64" ≡ some address
unfolding gen_address
gen_address-color_amd64 zero low address hk hl even pos = ground arith
gen_address-color_amd64 (suc zero) low address hk hl even pos = ground arith
gen_address-color_amd64 (suc (suc zero)) low address hk hl even pos = ground arith
gen_address-color_amd64 (suc (suc (suc zero))) low address hk hl even pos = ground arith
gen_address-color_amd64 (suc (suc (suc (suc k)))) low address hk hl even pos = absurd (omega arith)

-- On aarch64, uncoloring a colored pointer gives the address back, for every nonzero address that
-- is a multiple of 8, each of the four remap colors and every setting of the other color bits.
pub gen_address-color_aarch64 :
    (k low address : ℕ)
    → k < 4
    → low < 256
    → address % 8 ≡ 0
    → 0 < address
    → gen_address (color_aarch64 k low address) "aarch64" ≡ some address
unfolding gen_address
gen_address-color_aarch64 zero low address hk hl even pos = ground arith
gen_address-color_aarch64 (suc zero) low address hk hl even pos = ground arith
gen_address-color_aarch64 (suc (suc zero)) low address hk hl even pos = ground arith
gen_address-color_aarch64 (suc (suc (suc zero))) low address hk hl even pos = ground arith
gen_address-color_aarch64 (suc (suc (suc (suc k)))) low address hk hl even pos =
    absurd (omega arith)

-- The name of each of the three reference hypotheses parses to it.
pub parse_model-model_name : (m : ReferenceModel) → parse_model (model_name m) ≡ ok m
unfolding parse_model
parse_model-model_name non_gen_low42 = refl
parse_model-model_name gen_arm_low_address = refl
parse_model-model_name gen_x86_low_address = refl

top_bit_from_lem : (b f t : ℕ) → b ≤ f → t < 2 ^ b → top_bit_from f (2 ^ b + t) ≡ 2 ^ b
unfolding top_bit_from
top_bit_from_lem zero zero t h lt = refl
top_bit_from_lem zero (suc f) t h lt =
    let e : ltb (2 ^ zero + t) 2 ≡ true = ground arith in rw e refl
top_bit_from_lem (suc b) zero t h lt = absurd (omega arith)
top_bit_from_lem (suc b) (suc f) t h lt =
    let p : 1 ≤ 2 ^ b = one-le-pow b 2 (omega arith) in
    let q : 2 ^ suc b ≡ 2 ^ b * 2 = pow-suc 2 b in
    let e : ltb (2 ^ suc b + t) 2 ≡ false = ground arith in
    let half : (2 ^ suc b + t) / 2 ≡ 2 ^ b + t / 2 = omega arith in
    rw (e, half, top_bit_from_lem b f (t / 2) (omega arith) (omega arith)) (omega arith)

heap_relative_lem : (b t : ℕ) → b ≤ 63 → t < 2 ^ b → heap_relative (some (2 ^ b + t)) ≡ some t
unfolding heap_relative top_bit
heap_relative_lem b t h lt =
    let p : 1 ≤ 2 ^ b = one-le-pow b 2 (omega arith) in
    let e : (2 ^ b + t == 0) ≡ false = ground arith in
    rw (e, top_bit_from_lem b 63 t h lt) (ap some (omega arith))

pow_eighth : (b t : ℕ) → 3 ≤ b → t % 8 ≡ 0 → (2 ^ b + t) % 8 ≡ 0
pow_eighth zero t h e = absurd (omega arith)
pow_eighth (suc zero) t h e = absurd (omega arith)
pow_eighth (suc (suc zero)) t h e = absurd (omega arith)
pow_eighth (suc (suc (suc b))) t h e =
    omega (arith, pow-suc 2 b, pow-suc 2 (suc b), pow-suc 2 (suc (suc b)))

-- Under the generational hypotheses a colored pointer resolves to its offset from the heap base,
-- where the base is a power of two from 2 ^ 3 to 2 ^ 63 above the offset: on both architectures, for
-- every remap color and setting of the other color bits, and every offset that is a multiple of 8.
pub target-color :
    (b k low offset : ℕ)
    → 3 ≤ b
    → b ≤ 63
    → k < 4
    → low < 256
    → offset % 8 ≡ 0
    → offset < 2 ^ b
    → (target gen_x86_low_address (color_amd64 k low (2 ^ b + offset)) ≡ some offset)
      × (target gen_arm_low_address (color_aarch64 k low (2 ^ b + offset)) ≡ some offset)
unfolding target
target-color b k low offset lo hi hk hl even lt =
    let p : 1 ≤ 2 ^ b = one-le-pow b 2 (omega arith) in
    let e = pow_eighth b offset lo even in
    (
      ap heap_relative (gen_address-color_amd64 k low (2 ^ b + offset) hk hl e (omega arith))
          ∙ heap_relative_lem b offset hi lt,
      ap heap_relative (gen_address-color_aarch64 k low (2 ^ b + offset) hk hl e (omega arith))
          ∙ heap_relative_lem b offset hi lt,
    )

-- Under the non-generational hypothesis exactly the references below 2 ^ 46 resolve that have one
-- of the three color bits 42 to 44 set, whatever bit 45 is; they resolve to their low 42 bits.
pub target-non_gen_low42 :
    (raw offset : ℕ)
    → (target non_gen_low42 raw ≡ some offset) ↔ (
        (raw < 2 ^ 46)
        × (offset < 2 ^ 42)
        × ((raw % 2 ^ 45 ≡ 2 ^ 42 + offset)
            ⊎ (raw % 2 ^ 45 ≡ 2 ^ 43 + offset)
            ⊎ (raw % 2 ^ 45 ≡ 2 ^ 44 + offset)))
unfolding target
target-non_gen_low42 raw offset = (λ h. ground arith, λ h. ground arith)
