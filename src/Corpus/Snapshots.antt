-- ===== src/Corpus/Snapshots.antt =====
-- `snapshot` of src/corpus.rs: the Strings of an index, decoded and counted within the bounds.
use zgcmaster.Prelude.{
  ℕ, ◌+◌, Bool, true, ◌&&◌, ◌||◌, not, String, none, some, List, [], ◌∷◌, length, find, ltb, ◌==◌,
  ◌is◌, if◌then◌else◌, Result, ok, err, invalid, ◌>>=◌, ◌>>◌, refuse_if, ok_or, for_each, try_fold,
}
use zgcmaster.Dict.{Dict, Counts, bump, insert}
use zgcmaster.Digest.{Digest}
use zgcmaster.Layout.{Class, Layout}
use zgcmaster.Layout.Same.{same_class}
use zgcmaster.Profiles.{boot}
use zgcmaster.Scan.{Object, Index}
use zgcmaster.Reader.{Reader, class_name}
use zgcmaster.Loading.{open_raw}
use zgcmaster.RawStrings.{Bindings, Pair, Decoded, pair, rejected, new_bindings, decode_at}
use zgcmaster.RawStrings.Walk.{recheck}
use zgcmaster.Utf8.{utf8_length}
use zgcmaster.Utf16.{text_of, utf16_length}
use zgcmaster.Census.{require_indexed}
use zgcmaster.Census.Collect.{Collected, collect}
use zgcmaster.Corpus.{Options}
use zgcmaster.Corpus.Texts.{Strings, find_text, insert_text, count_text}

-- What the loop over the objects changes.
pub record Progress : Type 0 where
  pub strings : Strings
  pub counts : Counts
  pub text_bytes : ℕ
  pub candidates : ℕ

abbrev pub no_progress : Progress
no_progress = record { strings = []; counts = []; text_bytes = 0; candidates = 0 }

abbrev pub count_as : String → Progress → Progress
count_as key s = record s { counts = bump key s.counts }

abbrev pub over_limit : Options → List ℕ → Progress → Bool
over_limit options text s =
    length s.strings == options.max_unique
    || ltb options.max_text_bytes (s.text_bytes + utf8_length text)

-- The entry of a text that passes the filters.
unfoldable pub add_text : Options → ℕ → List ℕ → Progress → Result Progress
unfolding find_text insert_text count_text utf8_length
add_text options offset text s = elim (find_text text s.strings) [
  | some entry ↦ ok (record s { strings = count_text text s.strings })
  | none ↦
      if over_limit options text s
      then err (
          invalid
            "Corpus resource limit exceeded; raise explicit bounds or increase --min-len. No partial diff is reported.")
      else ok (record s {
        strings = insert_text text (record { first_offset = offset; count = 1 }) s.strings;
        text_bytes = s.text_bytes + utf8_length text;
      })
]

unfoldable pub add_pair : Options → Pair → Progress → Result Progress
unfolding text_of utf16_length add_text
add_pair options p s =
    let decoded = text_of p in
    if p.status is "mismatch"
    then ok (count_as "hash-mismatch" s)
    else if options.require_hash && p.status is "not-cached"
    then ok (count_as "skipped-unhashed" s)
    else if decoded.lossy
    then ok (count_as "skipped-lossy-text" s)
    else if ltb (utf16_length decoded.text) options.min_len
    then ok (count_as "skipped-short" s)
    else (add_text options p.offset decoded.text s >>= λ t. ok (count_as p.status t))

unfoldable pub add_decoded : Options → Decoded → Progress → Result Progress
unfolding add_pair
add_decoded options (rejected reason) s = ok (count_as reason s)
add_decoded options (pair p) s = add_pair options p s

module _ (options : Options) (b : Bindings) (r : Reader) where
  -- The body of the loop over the objects.
  unfoldable pub add_object : Progress → Object → Result Progress
  unfolding class_name decode_at add_decoded
  add_object s object =
      if class_name r.index object is "java.lang.String"
      then (decode_at b r.file r.index.heap_bytes object.offset >>= λ decoded.
          add_decoded options decoded (record s { candidates = s.candidates + 1 }))
      else ok s

-- The class of the layout with the name of `c`; `boot` keeps only names that the layout has.
abbrev pub differs : List Class → Class → Bool
differs actual c = elim (find (λ (a : Class). a.name is c.name) actual) [
  | none ↦ true
  | some a ↦ not (same_class c a)
]

-- The identities of the two classes in a layout.
unfoldable pub string_ids : List Class → Dict String → Dict String
unfolding insert
string_ids [] ids = ids
string_ids (c ∷ cs) ids =
    string_ids cs
      (if c.name is "java.lang.String" || c.name is "[B" then insert c.name c.klass ids else ids)

pub record Snapshot : Type 0 where
  pub progress : Progress
  pub census : Collected
  pub profile : String
  pub java : String
  pub architecture : String
  pub identity_mapping : Bool
  pub heap_sha256 : String
  pub heap_bytes : ℕ

module _ (is_json : List ℕ → Bool) (options : Options) where
  -- The bindings of a layout whose String and byte[] are those of the boot profile.
  unfoldable pub bindings_of : Layout → Result Bindings
  unfolding string_ids boot same_class new_bindings
  bindings_of layout = do
    let ids = string_ids layout.classes []
    expected ← boot layout.profile ids
    for_each
        (λ c.
          refuse_if (differs layout.classes c)
            "Corpus diff currently requires the supported boot String/byte[] field layouts")
        expected.classes
    new_bindings layout.profile options.reference_hypothesis ids options.census.max_bytes

  -- What a reader gives, and what the capture holds when it is read again.
  unfoldable pub snapshot_of : Digest → List ℕ → Reader → Result Snapshot
  unfolding require_indexed bindings_of add_object collect recheck
  snapshot_of d later r = do
    require_indexed r.index ("java.lang.String" ∷ "[B" ∷ [])
    layout ← ok_or r.index.layout "Typed index required"
    b ← bindings_of layout
    progress ← try_fold (add_object options b r) no_progress r.index.objects
    census ← collect is_json r options.census
    recheck d later r.index.heap_bytes r.index.heap_sha256
    ok (record {
      progress = progress;
      census = census;
      profile = layout.profile;
      java = layout.java;
      architecture = layout.architecture;
      identity_mapping = r.index.identity_mapping;
      heap_sha256 = r.index.heap_sha256;
      heap_bytes = r.index.heap_bytes;
    })

  -- `snapshot`, of a raw file.
  unfoldable pub snapshot : Digest → List ℕ → List ℕ → Index → Result Snapshot
  unfolding open_raw snapshot_of
  snapshot d file later index = open_raw d file index >>= snapshot_of d later
