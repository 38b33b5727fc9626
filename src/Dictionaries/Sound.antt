-- ===== src/Dictionaries/Sound.antt =====
-- What the rows and the counts of `dictionaries` (src/dictionaries.rs) say of the capture.
use zgcmaster.Prelude.{
  ℕ, ◌+◌, ◌/◌, ◌≡◌, refl, sym, ap, subst, Bool, List, length, ok, ◌>>◌, >>=-eq-ok, >>-eq-ok,
  refuse_if, refuse_if-eq-ok, ok-injective, arith,
}
use zgcmaster.Dict.{total}
use zgcmaster.Digest.{Digest, hash_of}
use zgcmaster.RawStrings.{Bindings, header_width}
use zgcmaster.RawStrings.Walk.{
  Walked, walk_header, take_header, walk_klass, walk_klass-eq-ok, recheck, recheck-eq-ok,
}
use zgcmaster.Walk.SinglePass.{single_pass_inv}
use zgcmaster.Sets.{set_of}
use zgcmaster.Sets.Laws.{set_of_lem}
use zgcmaster.Dictionaries.Klasses.{AreAsked, bad_klasses-AreIdentities}
use zgcmaster.Dictionaries.{
  Progress, Report, no_progress, node_size, on_node, set_of, bad_klasses, report_nodes,
  dictionaries,
}
use zgcmaster.Dictionaries.Entries.{IsProgress}
use zgcmaster.Dictionaries.Counted.{walk_header-IsProgress}

-- What a completed report says of the capture.
pub record IsReport (d : Digest) (file later : List ℕ) (b : Bindings) (require_hash : Bool)
    (r : Report) : Type 0 where
  pub progress : IsProgress b file r.klasses require_hash r.header_candidates r.progress
  pub hash : r.hash ≡ hash_of d file
  pub bytes : r.bytes ≡ length file
  pub unchanged : hash_of d later ≡ r.hash

no_progress-IsProgress :
    (b : Bindings) (file klasses : List ℕ) (require_hash : Bool)
    → IsProgress b file klasses require_hash 0 no_progress
unfolding total
no_progress-IsProgress b file klasses require_hash = record {
  rows = tt;
  listed = refl;
  by_klass = refl;
  counted = refl;
  few = omega arith;
}

report_nodes-IsReport :
    (d : Digest) (file later : List ℕ) (b : Bindings) (require_hash : Bool) (klasses : List ℕ)
    (r : Report)
    → report_nodes d file later b require_hash klasses ≡ ok r
    → IsReport d file later b require_hash r × (r.klasses ≡ klasses)
unfolding report_nodes
report_nodes-IsReport d file later b require_hash klasses r h =
    let visit = on_node b file klasses require_hash in
    let (w, walked, h₁) =
      >>=-eq-ok (walk_klass d (header_width b) klasses (node_size b) visit file no_progress)
        (λ w.
          recheck d later w.size w.hash
          >> ok (record {
            hash = w.hash;
            bytes = w.size;
            klasses = klasses;
            header_candidates = w.count;
            progress = w.state;
          }))
        h in
    let (same, made) = >>-eq-ok (recheck d later w.size w.hash) _ h₁ in
    let (p, pass, finished) =
      walk_klass-eq-ok d (header_width b) klasses (node_size b) visit file no_progress w walked in
    let i : IsProgress b file klasses require_hash p.0 p.1 =
      single_pass_inv (node_size b) (take_header (node_size b))
        (walk_header (header_width b) klasses (length file) visit) file (length file)
        (λ o x. IsProgress b file klasses require_hash x.0 x.1) (λ o o' x le why j. j)
        (λ o x x' j even room e.
          walk_header-IsProgress b file klasses require_hash o x x' j even room e)
        ((length file + 7) / 8) 0 (0, no_progress) p refl
        (no_progress-IsProgress b file klasses require_hash) pass in
    let e = ok-injective finished in
    let again = recheck-eq-ok d later w.size w.hash same in
    subst (λ (x : Report). IsReport d file later b require_hash x × (x.klasses ≡ klasses))
      (ok-injective made)
      (
        record {
          progress =
              subst
                (λ (x : Walked Progress). IsProgress b file klasses require_hash x.count x.state) e
                i;
          hash = ap (λ (x : Walked Progress). x.hash) (sym e);
          bytes = ap (λ (x : Walked Progress). x.size) (sym e);
          unchanged = again;
        },
        refl,
      )

-- A completed report was made for between 1 and 64 identities that headers of this width can hold,
-- in ascending order and just those that were asked for. Each row is a node of the capture with a
-- marked header of one of them, whose stored hash is the spread of the hash of the key, and whose
-- key and value are Strings that its words refer to, which the bytes hold apart from the node, past
-- every filter asked for. Every node visited is counted under exactly one key; the rows are as many
-- as were emitted, in all and over the identities; and the hash and the size are the capture's.
pub dictionaries-IsReport :
    (d : Digest) (file later : List ℕ) (b : Bindings) (require_hash : Bool) (node_klasses : List ℕ)
    (r : Report)
    → dictionaries d file later b require_hash node_klasses ≡ ok r
    → IsReport d file later b require_hash r × AreAsked b.narrow node_klasses r.klasses
unfolding dictionaries
dictionaries-IsReport d file later b require_hash node_klasses r h =
    let klasses : List ℕ = set_of node_klasses in
    let (valid, made) = >>-eq-ok (refuse_if (bad_klasses b.narrow klasses) _) _ h in
    let good = refuse_if-eq-ok (bad_klasses b.narrow klasses) _ valid in
    let (report, same) = report_nodes-IsReport d file later b require_hash klasses r made in
    (
      report,
      subst (AreAsked b.narrow node_klasses) (sym same) (record {
        valid = bad_klasses-AreIdentities b.narrow klasses good;
        ascending = (set_of_lem node_klasses).0;
        same = (set_of_lem node_klasses).1;
      }),
    )
