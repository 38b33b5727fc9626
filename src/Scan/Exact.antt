-- ===== src/Scan/Exact.antt =====
-- The objects of a scan are exactly those that the headers of the capture announce.
use zgcmaster.Prelude.{
  ℕ, ◌+◌, ◌*◌, ◌%◌, ◌≤◌, ◌<◌, Bool, true, false, not, ◌&&◌, ◌||◌, List, [], ◌∷◌, ◌++◌, length, ltb,
  is_some, contains, ok, ◌≡◌, refl, sym, subst, arith, ◌⊎◌, inl, inr,
}
use native.Mathlib.Decide.{ℕ_discrete}
use zgcmaster.Scan.{
  Bound, Config, Header, Object, State, start_state, plausible, read_header, is_array, accept,
  visit_bound, visit, observe_header,
}
use zgcmaster.Scan.Visit.{
  Announces, Visited, passed, kept, streamed, new_object, visit-Visited, observe_header_keeps,
}
use zgcmaster.Scan.Objects.{AllObjects, AllObjects-append}
use zgcmaster.Walk.{single_pass}
use zgcmaster.Walk.SinglePass.{single_pass_inv}

-- The class is among those that `--only` asks for.
abbrev pub is_selected : Config → Bound → Bool
is_selected c b = not (ltb 0 (length c.only) && not (contains c.only b.class.name))

abbrev pub HasObject : Object → List Object → Type 0
HasObject x [] = ⊥
HasObject x (o ∷ os) = (o ≡ x) ⊎ HasObject x os

HasObject-append :
    (x o : Object) (os : List Object) → HasObject x os ⊎ (o ≡ x) → HasObject x (os ++ o ∷ [])
HasObject-append x o [] (inl h) = absurd h
HasObject-append x o [] (inr e) = inl e
HasObject-append x o (p ∷ os) (inl (inl e)) = inl e
HasObject-append x o (p ∷ os) (inl (inr h)) = inr (HasObject-append x o os (inl h))
HasObject-append x o (p ∷ os) (inr e) = inr (HasObject-append x o os (inr e))

module _ (c : Config) (kw lo : ℕ) (heap : List ℕ) where
  abbrev pub header_at : ℕ → Header
  header_at offset = read_header kw lo heap (length heap) offset

  -- The capture has at the object's offset a header that announces it.
  pub record IsAnnounced (o : Object) : Type 0 where
    pub bound_by : Bound
    pub bytes : ℕ
    pub room : o.offset + 16 ≤ length heap
    pub announces : Announces c bound_by o.offset (header_at o.offset) bytes
    pub made : o ≡ new_object bound_by o.offset (header_at o.offset) bytes

  -- No announced object of a selected class before `limit` is missing.
  abbrev pub IsComplete : ℕ → State → Type 0
  IsComplete limit s =
      (offset : ℕ) (b : Bound) (n : ℕ)
      → offset % 8 ≡ 0
      → offset < limit
      → offset + 16 ≤ length heap
      → Announces c b offset (header_at offset) n
      → is_selected c b ≡ true
      → HasObject (new_object b offset (header_at offset) n) s.objects

  Visited-IsAnnounced :
      (offset : ℕ) (s s' : State)
      → offset + 16 ≤ length heap
      → AllObjects IsAnnounced s.objects
      → Visited c offset (header_at offset) s s'
      → AllObjects IsAnnounced s'.objects
  Visited-IsAnnounced offset s s' room all (passed eo ec er) =
      subst (AllObjects IsAnnounced) (sym eo) all
  Visited-IsAnnounced offset s s' room all (kept b n a off few eo ec er) =
      subst (AllObjects IsAnnounced) (sym eo) (
        AllObjects-append IsAnnounced s.objects (new_object b offset (header_at offset) n) all
          (record { bound_by = b; bytes = n; room = room; announces = a; made = refl }))
  Visited-IsAnnounced offset s s' room all (streamed b n a on eo ec er) =
      subst (AllObjects IsAnnounced) (sym eo) all

  visit-keeps :
      (offset : ℕ) (b : Bound) (n : ℕ) (h : Header) (s s' : State)
      → c.streaming ≡ false
      → Announces c b offset h n
      → is_selected c b ≡ true
      → visit c offset h s ≡ ok s'
      → s'.objects ≡ s.objects ++ new_object b offset h n ∷ []
  unfolding visit visit_bound
  visit-keeps offset b n h s s' off a selected e =
      accepted (observe_header offset h s) (observe_header_keeps offset h s).0
        (rw (a.bound, visit, not_other, good, a.fits) at e)
    where
      not_other : (ltb 0 (length c.only) && not (contains c.only b.class.name)) ≡ false
      not_other = ground arith

      good : not (plausible h.mark) || (is_array b.class && not (is_some h.length_word)) ≡ false
      good = rw (a.shaped, a.readable)

      accepted :
          (t : State)
          → t.objects ≡ s.objects
          → accept c b h.mark (new_object b offset h n) t ≡ ok s'
          → s'.objects ≡ s.objects ++ new_object b offset h n ∷ []
      accepted t eo f = unfold accept in ground arith

  visit-IsComplete :
      (offset : ℕ) (s s' : State)
      → c.streaming ≡ false
      → offset % 8 ≡ 0
      → IsComplete offset s
      → visit c offset (header_at offset) s ≡ ok s'
      → IsComplete (offset + 8) s'
  visit-IsComplete offset s s' off even all e o b n o_even before room a selected =
      elim (ℕ_discrete o offset) [
        | yes here ↦
            let a' : Announces c b offset (header_at offset) n =
              subst (λ k. Announces c b k (header_at k) n) here a in
            subst (λ k. HasObject (new_object b k (header_at k) n) s'.objects) (sym here)
              (subst (HasObject (new_object b offset (header_at offset) n))
                (sym (visit-keeps offset b n (header_at offset) s s' off a' selected e))
                (HasObject-append _ _ s.objects (inr refl)))
        | no elsewhere ↦
            keeps _ (all o b n o_even (omega arith) room a selected)
              (visit-Visited c offset (header_at offset) s s' e)
      ]
    where
      keeps :
          (x : Object)
          → HasObject x s.objects
          → Visited c offset (header_at offset) s s'
          → HasObject x s'.objects
      keeps x h (passed eo ec er) = subst (HasObject x) (sym eo) h
      keeps x h (kept b n a off few eo ec er) =
          subst (HasObject x) (sym eo) (HasObject-append _ _ s.objects (inl h))
      keeps x h (streamed b n a on eo ec er) = subst (HasObject x) (sym eo) h

  module _ (rounds : ℕ) (s : State)
      (pass : single_pass 16 (read_header kw lo) (visit c) heap (length heap) rounds 0 start_state
        ≡ ok s) where
    pub pass-IsAnnounced : AllObjects IsAnnounced s.objects
    pass-IsAnnounced =
        single_pass_inv 16 (read_header kw lo) (visit c) heap (length heap)
          (λ o t. AllObjects IsAnnounced t.objects) (λ o o' t le why h. h)
          (λ o t t' h even room e.
            Visited-IsAnnounced o t t' room h (visit-Visited c o (header_at o) t t' e))
          rounds 0 start_state s refl tt pass

    pub pass-IsComplete :
        c.streaming ≡ false → length heap ≤ 8 * rounds → IsComplete (length heap) s
    pass-IsComplete off enough o b n even before room a selected =
        complete o b n even (omega arith) room a selected
      where
        complete : IsComplete (0 + 8 * rounds) s
        complete =
            single_pass_inv 16 (read_header kw lo) (visit c) heap (length heap) IsComplete
              (λ o o' t le why h p b' n' p_even lt fits ann sel.
                h p b' n' p_even (ground arith) fits ann sel)
              (λ o t t' h o_even fits e. visit-IsComplete o t t' off o_even h e) rounds 0
              start_state s refl (λ p b' n' p_even lt fits ann sel. absurd (omega arith)) pass
