-- ===== src/Scan/Objects.antt =====
-- What the objects of a scan are: in the order of their offsets, aligned, inside the capture.
use zgcmaster.Prelude.{
  ℕ, ◌+◌, ◌*◌, ◌%◌, ◌≤◌, ◌<◌, true, false, Option, none, some, List, [], ◌∷◌, ◌++◌, length,
  length-append, ok, ◌≡◌, ap, ◌∙◌, sym, subst, arith,
}
use zgcmaster.Dict.{total}
use zgcmaster.Dict.Laws.{total-bump}
use zgcmaster.Scan.{
  Object, Config, Bound, Header, State, Row, max_objects, within, object_size, array_length, visit,
}
use zgcmaster.Scan.Visit.{Announces, Visited, passed, kept, streamed, new_object, visit-Visited}

-- Strictly ascending offsets, none below `lo`.
abbrev pub IsAscending : ℕ → List Object → Type 0
IsAscending lo [] = Unit
IsAscending lo (o ∷ os) = (lo ≤ o.offset) × IsAscending (o.offset + 1) os

abbrev pub AllObjects : (Object → Type 0) → List Object → Type 0
AllObjects P [] = Unit
AllObjects P (o ∷ os) = P o × AllObjects P os

pub record IsPlaced (size limit : ℕ) (o : Object) : Type 0 where
  pub aligned : o.offset % 8 ≡ 0
  pub before : o.offset < limit
  pub inside : o.offset + o.size ≤ size

pub AllObjects-append :
    (P : Object → Type 0) (os : List Object) (o : Object)
    → AllObjects P os
    → P o
    → AllObjects P (os ++ o ∷ [])
AllObjects-append P [] o h p = (p, tt)
AllObjects-append P (x ∷ os) o h p = (h.0, AllObjects-append P os o h.1 p)

pub AllObjects-map :
    {P Q : Object → Type 0} (os : List Object)
    → ((o : Object) → P o → Q o)
    → AllObjects P os
    → AllObjects Q os
AllObjects-map [] f h = tt
AllObjects-map (o ∷ os) f h = (f o h.0, AllObjects-map os f h.1)

IsAscending-append :
    (lo size limit : ℕ) (os : List Object) (o : Object)
    → IsAscending lo os
    → AllObjects (IsPlaced size limit) os
    → lo ≤ o.offset
    → limit ≤ o.offset
    → IsAscending lo (os ++ o ∷ [])
IsAscending-append lo size limit [] o asc all le h = (le, tt)
IsAscending-append lo size limit (x ∷ os) o asc all le h = (
  asc.0,
  IsAscending-append (x.offset + 1) size limit os o asc.1 all.1
      (let p : IsPlaced size limit x = all.0 in omega arith) h,
)

-- The state before the visit at `limit`.
pub record IsSound (c : Config) (limit : ℕ) (s : State) : Type 0 where
  pub ascending : IsAscending 0 s.objects
  pub placed : AllObjects (IsPlaced c.size limit) s.objects
  pub bounded : length s.objects ≤ max_objects
  pub counted : total s.class_counts ≡ length s.objects + length s.rows
  pub spaced : 8 * total s.class_counts ≤ limit
  pub streamed_only : c.streaming ≡ true → s.objects ≡ []
  pub kept_only : c.streaming ≡ false → s.rows ≡ []

IsPlaced-weaken :
    (size : ℕ) (o o' : ℕ) → o ≤ o' → (x : Object) → IsPlaced size o x → IsPlaced size o' x
IsPlaced-weaken size o o' le x p = record {
  aligned = p.aligned;
  before = omega arith;
  inside = p.inside;
}

pub IsSound-weaken : (c : Config) (o o' : ℕ) (s : State) → o ≤ o' → IsSound c o s → IsSound c o' s
IsSound-weaken c o o' s le h = record {
  ascending = h.ascending;
  placed = AllObjects-map s.objects (IsPlaced-weaken c.size o o' le) h.placed;
  bounded = h.bounded;
  counted = h.counted;
  spaced = omega arith;
  streamed_only = h.streamed_only;
  kept_only = h.kept_only;
}

pub within-le :
    (size offset n : ℕ) (o : Option ℕ) → within size offset o ≡ some n → offset + n ≤ size
unfolding within
within-le size offset n none h = cc
within-le size offset n (some m) h = ground arith

-- The size of an accepted object, and that it lies inside the capture.
Announces-inside :
    {c : Config} {b : Bound} {offset : ℕ} {h : Header} {n : ℕ}
    → Announces c b offset h n
    → offset + n ≤ c.size
Announces-inside {c} {b} {offset} {h} {n} a =
    within-le c.size offset n (object_size b.class (array_length b.class h)) a.fits

module _ (c : Config) (offset : ℕ) (h : Header) (s s' : State) (i : IsSound c offset s)
    (even : offset % 8 ≡ 0) where
  Visited-IsSound : Visited c offset h s s' → IsSound c (offset + 8) s'
  Visited-IsSound (passed eo ec er) =
      IsSound-weaken c offset (offset + 8) s' (omega arith) (record {
        ascending = subst (IsAscending 0) (sym eo) i.ascending;
        placed = subst (AllObjects (IsPlaced c.size offset)) (sym eo) i.placed;
        bounded = subst (λ os. length os ≤ max_objects) (sym eo) i.bounded;
        counted = rw (eo, ec, er) i.counted;
        spaced = subst (λ m. 8 * total m ≤ offset) (sym ec) i.spaced;
        streamed_only = λ on. eo ∙ i.streamed_only on;
        kept_only = λ off. er ∙ i.kept_only off;
      })
  Visited-IsSound (kept b n a off room eo ec er) = record {
    ascending = subst (IsAscending 0) (sym eo) (
        IsAscending-append 0 c.size offset s.objects (new_object b offset h n) i.ascending i.placed
          (omega arith) (omega arith));
    placed = subst (AllObjects (IsPlaced c.size (offset + 8))) (sym eo) (
        AllObjects-append (IsPlaced c.size (offset + 8)) s.objects (new_object b offset h n)
          (AllObjects-map s.objects (IsPlaced-weaken c.size offset (offset + 8) (omega arith))
            i.placed)
          (record { aligned = even; before = omega arith; inside = Announces-inside a }));
    bounded = omega (arith, ap length eo, length-append s.objects (new_object b offset h n ∷ []));
    counted = omega (
      arith,
      ap length eo,
      ap length er,
      ap total ec,
      i.counted,
      total-bump b.class.name s.class_counts,
      length-append s.objects (new_object b offset h n ∷ []),
    );
    spaced = omega (arith, ap total ec, total-bump b.class.name s.class_counts, i.spaced);
    streamed_only = λ on. cc;
    kept_only = λ off. er ∙ i.kept_only off;
  }
  Visited-IsSound (streamed b n a on eo ec er) = record {
    ascending = subst (IsAscending 0) (sym eo) i.ascending;
    placed = subst (AllObjects (IsPlaced c.size (offset + 8))) (sym eo) (
        AllObjects-map s.objects (IsPlaced-weaken c.size offset (offset + 8) (omega arith))
          i.placed);
    bounded = subst (λ os. length os ≤ max_objects) (sym eo) i.bounded;
    counted = omega (
      arith,
      ap length eo,
      ap length er,
      ap total ec,
      i.counted,
      total-bump b.class.name s.class_counts,
      length-append s.rows (Row.object_row (new_object b offset h n) b.class h.mark ∷ []),
    );
    spaced = omega (arith, ap total ec, total-bump b.class.name s.class_counts, i.spaced);
    streamed_only = λ on. eo ∙ i.streamed_only on;
    kept_only = λ off. cc;
  }

pub visit-IsSound :
    (c : Config) (offset : ℕ) (h : Header) (s s' : State)
    → IsSound c offset s
    → offset % 8 ≡ 0
    → visit c offset h s ≡ ok s'
    → IsSound c (offset + 8) s'
visit-IsSound c offset h s s' i even e =
    Visited-IsSound c offset h s s' i even (visit-Visited c offset h s s' e)
