-- ===== src/Lib.antt =====
-- A verification library for zgcmaster, which indexes raw captures of a ZGC heap backing file: it
-- reads a capture as bytes, finds the headers of objects, and answers questions about them.
--
-- The parts, and the file that models each (sources are paths from the repository's root):
--   Prelude          `Error` and `Result` of src/lib.rs, Boolean tests on the native numbers, and the
--                    lists and texts that the others share
--   Words            `word`, `width`, `aligned`, `number` and the limits (src/lib.rs); Words.Hex the
--                    printing of identities, Words.Laws rounding
--   Dict, Sets       `BTreeMap<String, V>`, `BTreeSet<u64>` and `BTreeMap<u64, V>` as sorted lists
--   Utf8, Utf16      the decoders `str::from_utf8`, `String::from_utf8_lossy` and
--                    `char::decode_utf16` of Rust, which src/census.rs and `Pair::text` of
--                    src/raw_strings.rs use
--   Sorting          `sort_by` and `sort_by_key`, and the order that they give
--   Layout           `Field`, `Class`, `Layout`, `validate_layout` (src/lib.rs); Layout.Same the
--                    comparison of layouts and of mappings
--   Profiles         `boot` (src/profiles.rs)
--   Maps             `parse_maps` and `translate` (src/lib.rs), on the bytes of the text
--   Address          `gen_address` (src/lib.rs) and `ReferenceModel` (src/discovery.rs)
--   Spacing          `Group`, `validate` and, in Spacing.Collector, `Collector` (src/spacing.rs) with
--                    the votes of `detection` (src/analysis.rs), in Spacing.Summary the loop of
--                    `summary_groups` (Spacing.Shown: what it shows)
--   Walk             the chunked loop of `scan_with` (src/lib.rs) and `walk_klass`
--                    (src/raw_strings.rs), and the single pass that it equals
--   Digest           SHA-256, a parameter: a hash fed in pieces
--   Scan             `scan_with` (src/lib.rs): one visit per aligned offset, then the index
--   Reader           `Reader` (src/lib.rs): validated access to the objects of an index
--   Checksums        `checksums` (src/lib.rs)
--   Loading          the tests of `load_index`, `scan_raw_with`, and `Reader::open` on a raw file
--                    (src/lib.rs); Loading.Bundles `scan_bundle_with` and `Reader::open` on a bundle
--   Summary          `summary` (src/lib.rs)
--   Diff             `diff` (src/analysis.rs)
--   RawStrings       `Bindings`, `decode_header`, `walk_klass`, `strings_with_pack`
--                    (src/raw_strings.rs) and `java_hash` (src/discovery.rs); RawStrings.Verify the
--                    sampling of `verify`, RawStrings.Random its generator, RawStrings.Population
--                    the headers that it samples from
--   Patterns         `Pack` (src/patterns.rs)
--   Dictionaries     `dictionaries` (src/dictionaries.rs)
--   Census           options, tallies, magic numbers, `require_indexed`, `classify`, `collect` and
--                    `census` (src/census.rs), `sniff` (src/analysis.rs), in Census.Carve
--                    `carve` (src/analysis.rs); Census.Signatures and Census.Magic spell out the
--                    signatures and magic numbers byte by byte
--   Corpus           the snapshots and `diff_captures` (src/corpus.rs); Corpus.Contents the texts that
--                    a snapshot holds
--   Discovery        `discover` (src/discovery.rs); Discovery.Nodes the search for nodes
--                    (src/discovery/nodes.rs)
--   Commands         `scan_command` and the options of `string_command` and `corpus_command`
--                    (src/main.rs)
--   Tests            the definitions and the theorems at concrete inputs
--
-- How they interact: a layout is validated and gives the table of classes; the scan visits every
-- header that the walk reads, reports plausible marks to the spacing collector and bound headers to
-- the index; the reader reads an index against the same bytes; the raw strings use the walk, the
-- boot profiles and the reference hypotheses with no index; the dictionaries and the sampling read
-- Strings in the same way. A census reads the byte arrays of an index through the reader, a corpus
-- adds the Strings of the index and compares two captures, and the discovery starts from the
-- spacing groups of an index. A bundle is a capture with its layout, its maps and a table of
-- digests, which a scan of the bundle puts into its index and the reader compares again. The
-- options of the command line are the arguments of these operations.
--
-- Correspondence. A file is the list of its bytes and does not change during a run, except where a
-- second reading is an argument of its own (`recheck`). A u64 is a natural number; checked additions
-- and multiplications test 2 ^ 64, and the wrap-around of `translate`, `java_hash` and the generator
-- of the reservoir is written out. Masks of low bits are remainders, shifts are quotients. Each early
-- return with an error is a `refuse_if`; error texts leave out the values that the program prints in
-- them. A JSON line that is streamed is a row of data. The columns
-- of maps.txt are split at ASCII white space. An object is found by a search in order, where the
-- program uses a binary search on ascending offsets. Floating-point fractions are exact ratios.
--
-- Bounds and fuel. The loop over chunks runs on fuel of the capture's size plus one; each round takes
-- at least one byte, so this is enough, and without fuel it fails. The draw of the sampling rejects
-- numbers and runs on fuel of 2 ^ 64 rounds, enough since the states of the generator pass through one
-- that every bound up to 2 ^ 63 accepts. All other loops are structural. The limits (1 MiB chunks,
-- 64 GiB captures, 2,000,000 objects, 4096 groups, 65,536 mappings, 2048 classes, 10,000 samples) are
-- those of the source.
--
-- Parameters: SHA-256, the parser of JSON in the classification of payloads and in a pack of patterns,
-- the parser of layouts, the engine of the regular expressions, and what the paths of the command line
-- name.
--
-- Not modelled: reading and writing of files and JSON, so `write_index`, the views of `show` and
-- `scalar` (src/lib.rs), and of src/main.rs the dispatch of commands and the output. A row of JSON is
-- data, without its lossy text and its regex matches.
mod Prelude
pub mod Words
pub mod Sets
pub mod Sorting
pub mod Summary
pub mod Diff
pub mod Dict
pub mod Layout
pub mod Spacing
pub mod Walk
pub mod Digest
pub mod Maps
pub mod Scan
pub mod Address
pub mod Reader
pub mod Profiles
pub mod RawStrings
pub mod Utf16
pub mod Loading
pub mod Checksums
pub mod Utf8
pub mod Patterns
pub mod Corpus
pub mod Commands
pub mod Census
pub mod Dictionaries
pub mod Discovery
mod Tests
