-- ===== src/Corpus.antt =====
-- src/corpus.rs: the Strings of a capture as a bounded set of texts. A text is the list of its scalar
-- values, and the map of the texts is a list in their order.
pub mod Texts
pub mod Sets
pub mod Snapshots
pub mod Diff
pub mod Bounded
pub mod Held
pub mod Contents
pub mod Loaded
pub mod Compared
pub mod Balance
use zgcmaster.Prelude.{
  ℕ, ◌*◌, Bool, true, false, ◌&&◌, not, String, Result, ok, ◌>>=◌, ◌>>◌, refuse_if, leb,
}
use zgcmaster.Address.{parse_model}
use zgcmaster.Census.{validate_options}

pub record Options : Type 0 where
  pub census : zgcmaster.Census.Options
  pub reference_hypothesis : String
  pub min_len : ℕ
  pub require_hash : Bool
  pub max_unique : ℕ
  pub max_text_bytes : ℕ

-- `Options::validate`.
unfoldable pub validate : Options → Result (Unit {0})
unfolding validate_options parse_model
validate options = do
  validate_options options.census
  model ← parse_model options.reference_hypothesis
  refuse_if
      (not (
        leb 1 options.max_unique
        && leb options.max_unique 2_000_000
        && (leb 1 options.max_text_bytes && leb options.max_text_bytes (512 * 1024 * 1024))))
      "Corpus bounds: --max-unique 1..2000000; --max-text-bytes 1..536870912 per capture"
