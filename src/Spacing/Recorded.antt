-- ===== src/Spacing/Recorded.antt =====
-- The groups of a collector that sees the headers of a capture in their order, and the stored
-- statistics that it gives (src/spacing.rs).
use zgcmaster.Prelude.{
  ℕ, ◌+◌, ◌≤◌, ◌≡◌, refl, ap, Bool, true, ◌&&◌, not, String, [], ◌∷◌, length, ◌==◌, AllOf,
  AllOf-map, Bool-cases, inl, inr, arith,
}
use zgcmaster.Dict.{Dict, insert}
use zgcmaster.Dict.Laws.{length-insert}
use zgcmaster.Dict.Order.{IsSorted, upsert-AllOf, upsert-IsSorted}
use zgcmaster.Spacing.{Kind, wide, narrow, max_groups, GroupStats, finish_group, validate}
use zgcmaster.Spacing.Collector.{
  Entry, Groups, Collector, Sums, same_kind, has_key, fresh, contains_key, observe_entry,
  observe_hit, group_key, finish_groups, finish, nothing,
}
use zgcmaster.Spacing.Finished.{IsHit, observe-IsHit, observe-first}
use zgcmaster.Spacing.Validated.{validate-finish_group}

-- The group has hits, the last of them at least 8 bytes before the limit of its kind.
pub record IsBelow (limit : Kind → ℕ) (e : Entry) : Type 0 where
  pub hits : IsHit e.group
  pub last : e.group.last + 8 ≤ limit e.kind

pub IsBelow-weaken :
    (f f' : Kind → ℕ) (es : Groups)
    → ((k : Kind) → f k ≤ f' k)
    → AllOf (IsBelow f) es
    → AllOf (IsBelow f') es
IsBelow-weaken f f' es h all =
    AllOf-map es (λ e p. record { hits = p.hits; last = omega (arith, p.last, h e.kind) }) all

same_kind-path : (a b : Kind) → same_kind a b ≡ true → a ≡ b
same_kind-path wide wide h = refl
same_kind-path narrow narrow h = refl
same_kind-path wide narrow h = cc
same_kind-path narrow wide h = cc

module _ (f f' : Kind → ℕ) (kind : Kind) (klass offset : ℕ) (vote : Bool)
    (grows : (k : Kind) → f k ≤ f' k) (later : f kind ≤ offset) (room : offset + 8 ≤ f' kind) where
  observe_entry-IsBelow :
      (es : Groups)
      → AllOf (IsBelow f) es
      → AllOf (IsBelow f') (observe_entry kind klass offset vote es)
  unfolding observe_entry
  observe_entry-IsBelow [] all =
      let (hit, last) = observe-first (fresh kind klass) offset vote refl refl refl in
      (record { hits = hit; last = omega (arith, last, room) }, tt)
  observe_entry-IsBelow (e ∷ es) (first, all) = elim (Bool-cases (has_key kind klass e)) [
    | inl here ↦
        let same : kind ≡ e.kind = same_kind-path kind e.kind (left_of _ _ here) in
        let same_limit = ap f same in
        let same_limit' = ap f' same in
        let (hit, last) =
          observe-IsHit e.group offset vote first.hits
            (omega (arith, first.last, same_limit, later)) in
        rw here (
          record { hits = hit; last = omega (arith, last, room, same_limit') },
          IsBelow-weaken f f' es grows all,
        )
    | inr other ↦ rw other (
      record { hits = first.hits; last = omega (arith, first.last, grows e.kind) },
      observe_entry-IsBelow es all,
    )
  ]
    where
      left_of : (a b : Bool) → a && b ≡ true → a ≡ true
      left_of a b h = ground arith

  -- A hit past the limit of its kind, of a collector whose groups are below their limits.
  pub observe_hit-IsBelow :
      (c : Collector)
      → AllOf (IsBelow f) c.groups
      → AllOf (IsBelow f') (observe_hit c kind klass offset vote).groups
  unfolding observe_hit
  observe_hit-IsBelow c all =
      elim (Bool-cases (length c.groups == max_groups && not (contains_key kind klass c.groups))) [
        | inl full ↦ rw full (IsBelow-weaken f f' c.groups grows all)
        | inr free ↦ rw free (observe_entry-IsBelow c.groups all)
      ]

-- Stored statistics that `validate` accepts.
abbrev pub IsValidEntry : ℕ → String × GroupStats → Type 0
IsValidEntry heap e = validate e.1 heap ≡ true

-- What a collector's report gives to the index.
pub record IsValidStats (heap : ℕ) (stats : Dict GroupStats) : Type 0 where
  pub sorted : IsSorted stats
  pub valid : AllOf (IsValidEntry heap) stats

module _ (heap : ℕ) where
  put :
      (k : String) (g : GroupStats) (m : Dict GroupStats)
      → validate g heap ≡ true
      → IsValidStats heap m
      → IsValidStats heap (insert k g m)
  unfolding insert
  put k g m v i = record {
    sorted = upsert-IsSorted k (λ o. g) m i.sorted;
    valid = upsert-AllOf (IsValidEntry heap) k (λ o. g) m (λ o. v) i.valid;
  }

  finish_groups-IsValidStats :
      (es : Groups) (s : Sums)
      → AllOf (IsBelow (λ k. heap)) es
      → IsValidStats heap s.stats
      → IsValidStats heap (finish_groups es s).stats
        × (length (finish_groups es s).stats ≤ length s.stats + length es)
  unfolding finish_groups
  finish_groups-IsValidStats [] s below i = (i, omega arith)
  finish_groups-IsValidStats (e ∷ es) s (first, below) i =
      let (valid, few) = finish_groups-IsValidStats es _ below (
        put (group_key e.kind e.klass) (finish_group e.group) s.stats
          (validate-finish_group e.group heap first.hits first.last) i) in
      (
        valid,
        omega (arith, few, length-insert (group_key e.kind e.klass) (finish_group e.group) s.stats),
      )

  -- The report of a collector whose groups lie in the capture.
  pub finish-IsValidStats :
      (c : Collector)
      → AllOf (IsBelow (λ k. heap)) c.groups
      → length c.groups ≤ max_groups
      → IsValidStats heap (finish c).stats × (length (finish c).stats ≤ max_groups)
  unfolding finish
  finish-IsValidStats c below few =
      let (valid, short) =
        finish_groups-IsValidStats c.groups
          (record { stats = []; excluded = nothing; retained = nothing }) below
          (record { sorted = tt; valid = tt }) in
      (valid, omega (arith, short, few))
