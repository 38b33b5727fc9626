-- ===== src/RawStrings/Resolved.antt =====
-- The rows of `verify` (src/raw_strings.rs).
use zgcmaster.Prelude.{
  ℕ, ◌≡◌, refl, sym, ap, ◌∙◌, subst, String, List, [], ◌∷◌, ◌++◌, map, length, length-append, AllOf,
  AllOf-append, ok, >>=-eq-ok, ok-injective, arith,
}
use zgcmaster.Dict.{total}
use zgcmaster.Dict.Laws.{total-bump}
use zgcmaster.RawStrings.{Bindings, Decoded, decode_at}
use zgcmaster.RawStrings.Verify.{Detail, status_of_decoded, Resolved, resolve}

-- The row has the reason or the status that the decoder gives at its offset.
pub record IsRow (b : Bindings) (file : List ℕ) (size : ℕ) (x : Detail) : Type 0 where
  pub decoded : Decoded
  pub read : decode_at b file size x.string_offset ≡ ok decoded
  pub status : x.status ≡ status_of_decoded decoded

-- The offsets of the rows, what they say, and the counts of them.
pub record IsResolved (b : Bindings) (file : List ℕ) (size : ℕ) (sampled : List ℕ) (s : Resolved)
    : Type 0 where
  pub rows : AllOf (IsRow b file size) s.details
  pub offsets : map (λ (x : Detail). x.string_offset) s.details ≡ sampled
  pub counted : total s.counts ≡ length s.details

map-append :
    (xs : List Detail) (x : Detail)
    → map (λ (y : Detail). y.string_offset) (xs ++ x ∷ [])
      ≡ map (λ (y : Detail). y.string_offset) xs ++ x.string_offset ∷ []
map-append [] x = refl
map-append (y ∷ xs) x = ap (λ l. y.string_offset ∷ l) (map-append xs x)

append_one : (xs ys : List ℕ) (x : ℕ) → (xs ++ x ∷ []) ++ ys ≡ xs ++ x ∷ ys
append_one [] ys x = refl
append_one (z ∷ xs) ys x = ap (λ l. z ∷ l) (append_one xs ys x)

append_nil : (xs : List ℕ) → xs ++ [] ≡ xs
append_nil [] = refl
append_nil (x ∷ xs) = ap (λ l. x ∷ l) (append_nil xs)

pub resolve-IsResolved :
    (b : Bindings) (file : List ℕ) (size : ℕ) (before offsets : List ℕ) (s s' : Resolved)
    → IsResolved b file size before s
    → resolve b file size offsets s ≡ ok s'
    → IsResolved b file size (before ++ offsets) s'
unfolding resolve
resolve-IsResolved b file size before [] s s' i h =
    subst (λ l. IsResolved b file size l s') (sym (append_nil before))
      (subst (IsResolved b file size before) (ok-injective h) i)
resolve-IsResolved b file size before (offset ∷ offsets) s s' i h =
    let (decoded, read, rest) = >>=-eq-ok (decode_at b file size offset) _ h in
    let status : String = status_of_decoded decoded in
    let row : Detail = record { string_offset = offset; status = status } in
    subst (λ l. IsResolved b file size l s') (append_one before offsets offset)
      (resolve-IsResolved b file size (before ++ offset ∷ []) offsets _ s'
        (record {
          rows =
              AllOf-append _ s.details row i.rows
                (record { decoded = decoded; read = read; status = refl });
          offsets = map-append s.details row ∙ ap (λ l. l ++ offset ∷ []) i.offsets;
          counted =
              omega
                (arith, total-bump status s.counts, length-append s.details (row ∷ []), i.counted);
        })
        rest)
