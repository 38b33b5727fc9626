-- ===== src/Commands/Strings.antt =====
-- `string_command` of src/main.rs: the options of strings, verify-bindings and dictionaries.
use zgcmaster.Prelude.{
  ℕ, Bool, true, false, ◌&&◌, ◌||◌, not, String, Option, List, [], ◌∷◌, ◌++◌, contains, length, leb,
  ◌==◌, ◌is◌, if◌then◌else◌, Result, ok, err, invalid, ◌>>=◌, ◌>>◌, refuse_if, ok_or,
}
use zgcmaster.Dict.{Dict, get}
use zgcmaster.Words.{number}
use zgcmaster.RawStrings.{Bindings, new_bindings}
use zgcmaster.Commands.{OptionMap, insert_once, split_binding, number_or, has_flag, load_pack}

pub record Parsed : Type 0 where
  pub options : OptionMap
  pub bindings : Dict String
  pub nodes : List ℕ

abbrev pub is_string_flag : String → String → Bool
is_string_flag command flag =
    contains ("--boot-profile" ∷ "--reference-hypothesis" ∷ "--output" ∷ "--max-bytes" ∷ []) flag
    || (command is "strings" && flag is "--min-len")
    || (not (command is "verify-bindings") && flag is "--regex-pack")
    || (command is "verify-bindings" && contains ("--samples" ∷ "--seed" ∷ []) flag)

abbrev pub is_require_hash : String → String → Bool
is_require_hash command flag = flag is "--require-hash" && not (command is "verify-bindings")

unfoldable pub add_option : String → String → String → Parsed → Result Parsed
unfolding insert_once
add_option message flag value p =
    insert_once message flag value p.options >>= λ options. ok (record p { options = options })

-- An option with its value.
unfoldable pub string_value : String → String → String → Parsed → Result Parsed
unfolding add_option split_binding insert_once number
string_value command flag value p =
    if flag is "--node-klass" && command is "dictionaries"
    then (number value >>= λ k. ok (record p { nodes = p.nodes ++ k ∷ [] }))
    else if flag is "--bind"
    then (split_binding value >>= λ (name, id).
        insert_once "Duplicate class binding" name id p.bindings >>= λ bindings.
        ok (record p { bindings = bindings }))
    else if not (is_string_flag command flag)
    then err (invalid "Unknown or repeated option")
    else add_option "Unknown or repeated option" flag value p

-- The loop over the arguments.
unfoldable pub string_loop : String → List String → Parsed → Result Parsed
unfolding string_value add_option
string_loop command [] p = ok p
string_loop command (flag ∷ []) p =
    if is_require_hash command flag
    then add_option "Repeated --require-hash" flag "true" p
    else err (invalid "Missing value")
string_loop command (flag ∷ value ∷ rest) p = elim (is_require_hash command flag) [
  | true ↦ add_option "Repeated --require-hash" flag "true" p >>= string_loop command (value ∷ rest)
  | false ↦ string_value command flag value p >>= string_loop command rest
]

-- What the command runs with.
pub record StringCommand (P : Type 0) : Type 0 where
  pub binding : Bindings
  pub min_len : ℕ
  pub require_hash : Bool
  pub nodes : List ℕ
  pub samples : ℕ
  pub seed : ℕ
  pub pack : Option P
  pub output : Option String

unfoldable pub string_command :
    {P : Type 0} → (String → Result P) → String → List String → Result (StringCommand P)
unfolding string_loop number_or new_bindings load_pack get
string_command load command args = do
  p ← string_loop command args (record { options = []; bindings = []; nodes = [] })
  profile ← ok_or (get "--boot-profile" p.options) "Missing option"
  hypothesis ← ok_or (get "--reference-hypothesis" p.options) "Missing option"
  limit ← number_or 65_536 "--max-bytes" p.options
  binding ← new_bindings profile hypothesis p.bindings limit
  min_len ← number_or 1 "--min-len" p.options
  refuse_if (command is "dictionaries" && length p.nodes == 0)
      "dictionaries needs --node-klass (repeat for each family)"
  pack ← load_pack load p.options
  samples ← number_or 1000 "--samples" p.options
  seed ← number_or 0 "--seed" p.options
  refuse_if (not (leb 1 samples && leb samples 10_000)) "--samples must be 1..10000"
  ok (record {
    binding = binding;
    min_len = min_len;
    require_hash = has_flag "--require-hash" p.options;
    nodes = p.nodes;
    samples = samples;
    seed = seed;
    pack = pack;
    output = get "--output" p.options;
  })
