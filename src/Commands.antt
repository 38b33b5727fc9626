-- ===== src/Commands.antt =====
-- The command line of src/main.rs: the options of `string_command` and `corpus_command`, and what they
-- hand on. What loading a pack of patterns from a path gives is a parameter.
pub mod Strings
pub mod Corpora
pub mod Accepted
pub mod Prepared
pub mod Scanning
pub mod Opened
use Prim.Native.Char.{Char, code}
use Prim.Native.String
use zgcmaster.Prelude.{
  ℕ, Bool, true, false, ◌||◌, String, Option, none, some, List, [], ◌∷◌, ◌==◌, is_some,
  if◌then◌else◌, Result, ok, err, invalid, ◌>>=◌, contains, ok_or,
}
use zgcmaster.Words.{number}
use zgcmaster.Dict.{Dict, get, insert}

abbrev pub OptionMap : Type 0
OptionMap = Dict String

-- `if options.insert(flag, value).is_some() { return Err(…) }`.
unfoldable pub insert_once : String → String → String → OptionMap → Result OptionMap
unfolding get insert
insert_once message flag value options =
    if is_some (get flag options) then err (invalid message) else ok (insert flag value options)

-- `value.split_once('=')`, with the text before the place in `before`.
unfoldable pub split_at : ℕ → String → Option (String × String)
split_at sign String.[] = none
split_at sign (String.◌∷◌ c s) =
    let rest = split_at sign s in
    if code c == sign
    then some ("", s)
    else elim rest [ none ↦ none | some (name, id) ↦ some (String.◌∷◌ c name, id) ]

unfoldable pub split_binding : String → Result (String × String)
unfolding split_at
split_binding value = ok_or (split_at b'=' value) "Use --bind CLASS=0xKLASS"

-- `options.get(flag).map_or(Ok(default), |v| number(v))`.
unfoldable pub number_or : ℕ → String → OptionMap → Result ℕ
unfolding get number
number_or default flag options = elim (get flag options) [
  | none ↦ ok default
  | some text ↦ number text
]

abbrev pub has_flag : String → OptionMap → Bool
has_flag flag options = is_some (get flag options)

-- `options.get("--regex-pack").map(|p| Pack::load(p)).transpose()?`.
unfoldable pub load_pack : {P : Type 0} → (String → Result P) → OptionMap → Result (Option P)
unfolding get
load_pack load options = elim (get "--regex-pack" options) [
  | none ↦ ok none
  | some path ↦ load path >>= λ pack. ok (some pack)
]
