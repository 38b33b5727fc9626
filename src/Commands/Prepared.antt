-- ===== src/Commands/Prepared.antt =====
-- What string_command (src/main.rs) runs with: the bounds of its options, and the identities of nodes.
use zgcmaster.Prelude.{
  ℕ, ◌≡◌, ◌≤◌, refl, sym, ap, Bool, true, false, ◌&&◌, not, String, List, [], ◌∷◌, leb, length,
  ◌==◌, ◌is◌, Result, ok, ok_or, refuse_if, ◌>>=◌, >>=-eq-ok, >>-eq-ok, refuse_if-eq-ok,
  ok-injective, Bool-cases, inl, inr, ◌∙◌, subst,
}
use zgcmaster.Dict.{get}
use zgcmaster.Address.{model_profile, parse_model}
use zgcmaster.RawStrings.{Bindings, max_bytes, names_both, identity_of, new_bindings}
use zgcmaster.Profiles.{boot}
use zgcmaster.Layout.{validate_layout, compressed}
use zgcmaster.Commands.{insert_once, split_binding, number_or, load_pack}
use zgcmaster.Commands.Accepted.{in_range}
use zgcmaster.Commands.Strings.{
  Parsed, StringCommand, is_string_flag, is_require_hash, add_option, string_value, string_loop,
  string_command,
}

&&-second : (a b : Bool) → a && b ≡ true → b ≡ true
&&-second true b h = h
&&-second false b h = cc

-- The identities of nodes are for the command `dictionaries` alone.
abbrev Kept : String → Parsed → Type 0
Kept command p = command is "dictionaries" ≡ false → p.nodes ≡ []

add_option-Kept :
    (command message flag value : String) (p p' : Parsed)
    → Kept command p
    → add_option message flag value p ≡ ok p'
    → Kept command p'
unfolding add_option
add_option-Kept command message flag value p p' kept h =
    let (options, inserted, h₁) = >>=-eq-ok (insert_once message flag value p.options) _ h in
    subst (Kept command) (ok-injective h₁) kept

bind-Kept :
    (command value : String) (p p' : Parsed)
    → Kept command p
    → (split_binding value >>= λ (name, id).
        insert_once "Duplicate class binding" name id p.bindings >>= λ bindings.
        ok (record p { bindings = bindings }))
      ≡ ok p'
    → Kept command p'
bind-Kept command value p p' kept h =
    let ((name, id), split, h₁) = >>=-eq-ok (split_binding value) _ h in
    let (bindings, inserted, h₂) =
      >>=-eq-ok (insert_once "Duplicate class binding" name id p.bindings) _ h₁ in
    subst (Kept command) (ok-injective h₂) kept

string_value-Kept :
    (command flag value : String) (p p' : Parsed)
    → Kept command p
    → string_value command flag value p ≡ ok p'
    → Kept command p'
unfolding string_value
string_value-Kept command flag value p p' kept h =
    elim (Bool-cases (flag is "--node-klass" && command is "dictionaries")) [
      | inl node ↦ λ other.
          let e : true ≡ false = sym (&&-second (flag is "--node-klass") _ node) ∙ other in cc
      | inr plain ↦ elim (Bool-cases (flag is "--bind")) [
        | inl bind ↦ bind-Kept command value p p' kept (rw (plain, bind) at h)
        | inr free ↦ elim (Bool-cases (is_string_flag command flag)) [
          | inl known ↦
              add_option-Kept command _ flag value p p' kept (rw (plain, free, known) at h)
          | inr unknown ↦ let e = rw (plain, free, unknown) at h in cc
        ]
      ]
    ]

string_loop-Kept :
    (command : String) (args : List String) (p p' : Parsed)
    → Kept command p
    → string_loop command args p ≡ ok p'
    → Kept command p'
unfolding string_loop
string_loop-Kept command [] p p' kept h = subst (Kept command) (ok-injective h) kept
string_loop-Kept command (flag ∷ []) p p' kept h =
    elim (Bool-cases (is_require_hash command flag)) [
      | inl hashed ↦ add_option-Kept command _ flag "true" p p' kept (rw hashed at h)
      | inr other ↦ let e = rw other at h in cc
    ]
string_loop-Kept command (flag ∷ value ∷ rest) p p' kept h =
    elim (Bool-cases (is_require_hash command flag)) [
      | inl hashed ↦
          let (p₁, added, h₁) =
            >>=-eq-ok (add_option "Repeated --require-hash" flag "true" p) _
              (rw (string_loop, hashed) at h) in
          string_loop-Kept command (value ∷ rest) p₁ p'
            (add_option-Kept command _ flag "true" p p₁ kept added) h₁
      | inr other ↦
          let (p₁, read, h₁) =
            >>=-eq-ok (string_value command flag value p) _ (rw (string_loop, other) at h) in
          string_loop-Kept command rest p₁ p' (string_value-Kept command flag value p p₁ kept read)
            h₁
    ]

not-false : (b : Bool) → not b ≡ false → b ≡ true
not-false true h = refl
not-false false h = cc

nodes_lem :
    (command : String) (nodes : List ℕ)
    → (command is "dictionaries" ≡ false → nodes ≡ [])
    → (command is "dictionaries" && length nodes == 0) ≡ false
    → (length nodes == 0) ≡ not (command is "dictionaries")
nodes_lem command nodes kept some_node = elim (Bool-cases (command is "dictionaries")) [
  | inl yours ↦ (rw yours at some_node) ∙ sym (ap not yours)
  | inr other ↦ ap (λ n. length n == 0) (kept other) ∙ sym (ap not other)
]

-- The bindings: their limit, and the model for the generation of the profile.
pub record IsBindings (b : Bindings) : Type 0 where
  pub limit : (1 ≤ b.max_bytes) × (b.max_bytes ≤ max_bytes)
  pub generation : model_profile b.model b.narrow is b.profile ≡ true

new_bindings-IsBindings :
    (profile hypothesis : String) (bindings : zgcmaster.Dict.Dict String) (limit : ℕ) (b : Bindings)
    → new_bindings profile hypothesis bindings limit ≡ ok b
    → IsBindings b
unfolding new_bindings
new_bindings-IsBindings profile hypothesis bindings limit b h =
    let (both, h₁) = >>-eq-ok (refuse_if (not (names_both bindings)) _) _ h in
    let (range, h₂) = >>-eq-ok (refuse_if (not (leb 1 limit && leb limit max_bytes)) _) _ h₁ in
    let (layout, booted, h₃) = >>=-eq-ok (boot profile bindings) _ h₂ in
    let (valid, h₄) = >>-eq-ok (validate_layout layout) _ h₃ in
    let (model, parsed, h₅) = >>=-eq-ok (parse_model hypothesis) _ h₄ in
    let (agrees, h₆) =
      >>-eq-ok (refuse_if (not (model_profile model (compressed layout) is profile)) _) _ h₅ in
    let (string_klass, string_bound, h₇) =
      >>=-eq-ok (identity_of bindings "java.lang.String") _ h₆ in
    let (array_klass, array_bound, h₈) = >>=-eq-ok (identity_of bindings "[B") _ h₇ in
    subst IsBindings (ok-injective h₈) (record {
      limit = in_range 1 max_bytes limit (refuse_if-eq-ok _ _ range);
      generation = not-false _ (refuse_if-eq-ok _ _ agrees);
    })

-- What string_command runs with.
pub record IsPrepared {P : Type 0} (command : String) (c : StringCommand P) : Type 0 where
  pub binding : IsBindings c.binding
  pub samples : (1 ≤ c.samples) × (c.samples ≤ 10_000)
  pub nodes : (length c.nodes == 0) ≡ not (command is "dictionaries")

-- Options that string_command accepts have a limit within 1 MiB, a reference hypothesis for the
-- generation of their profile and 1 to 10,000 samples, and identities of nodes exactly for
-- dictionaries.
pub string_command-IsPrepared :
    {P : Type 0} (load : String → Result P) (command : String) (args : List String)
    (c : StringCommand P)
    → string_command load command args ≡ ok c
    → IsPrepared command c
unfolding string_command
string_command-IsPrepared load command args c h =
    let start : Parsed = record { options = []; bindings = []; nodes = [] } in
    let (p, looped, h₁) = >>=-eq-ok (string_loop command args start) _ h in
    let (profile, named, h₂) = >>=-eq-ok (ok_or (get "--boot-profile" p.options) _) _ h₁ in
    let (hypothesis, stated, h₃) =
      >>=-eq-ok (ok_or (get "--reference-hypothesis" p.options) _) _ h₂ in
    let (limit, read, h₄) = >>=-eq-ok (number_or 65_536 "--max-bytes" p.options) _ h₃ in
    let (binding, bound, h₅) = >>=-eq-ok (new_bindings profile hypothesis p.bindings limit) _ h₄ in
    let (min_len, read_len, h₆) = >>=-eq-ok (number_or 1 "--min-len" p.options) _ h₅ in
    let (some_node, h₇) =
      >>-eq-ok (refuse_if (command is "dictionaries" && length p.nodes == 0) _) _ h₆ in
    let (pack, loaded, h₈) = >>=-eq-ok (load_pack load p.options) _ h₇ in
    let (samples, read_samples, h₉) = >>=-eq-ok (number_or 1000 "--samples" p.options) _ h₈ in
    let (seed, read_seed, h₁₀) = >>=-eq-ok (number_or 0 "--seed" p.options) _ h₉ in
    let (few, h₁₁) = >>-eq-ok (refuse_if (not (leb 1 samples && leb samples 10_000)) _) _ h₁₀ in
    subst (IsPrepared command) (ok-injective h₁₁) (record {
      binding = new_bindings-IsBindings profile hypothesis p.bindings limit binding bound;
      samples = in_range 1 10_000 samples (refuse_if-eq-ok _ _ few);
      nodes =
          nodes_lem command p.nodes (string_loop-Kept command args start p (λ other. refl) looped)
            (refuse_if-eq-ok _ _ some_node);
    })
