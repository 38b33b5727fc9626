-- ===== src/Utf8.antt =====
-- The decoding of UTF-8 by the standard library (`from_utf8`, `from_utf8_lossy`), which
-- src/census.rs classifies payloads with: a list of bytes in pieces, each a scalar value, a broken
-- sequence with the number of its bytes, or a sequence cut by the end of the input.
pub mod Laws
use zgcmaster.Prelude.{
  ℕ, zero, suc, ◌+◌, ◌-◌, ◌*◌, ◌/◌, ◌%◌, Bool, true, false, ◌&&◌, ◌||◌, List, [], ◌∷◌, length, map,
  leb, ltb, ◌==◌, if◌then◌else◌,
}

pub data Piece : Type 0 where
  scalar : ℕ → Piece
  broken : ℕ → Piece
  cut : Piece

abbrev pub between : ℕ → ℕ → ℕ → Bool
between lo hi b = leb lo b && leb b hi

abbrev pub is_continuation : ℕ → Bool
is_continuation b = between 0x80 0xbf b

-- The second bytes that a first byte allows.
unfoldable pub is_second : ℕ → ℕ → Bool
is_second a b =
    if a == 0xe0
    then between 0xa0 0xbf b
    else if a == 0xed
    then between 0x80 0x9f b
    else if a == 0xf0
    then between 0x90 0xbf b
    else if a == 0xf4
    then between 0x80 0x8f b
    else is_continuation b

-- The piece that starts with `a`, by the number of the bytes that `a` calls for.
unfoldable pub piece_2 : ℕ → List ℕ → Piece
piece_2 a [] = cut
piece_2 a (b ∷ bs) = if is_continuation b then scalar (a % 32 * 64 + b % 64) else broken 1

unfoldable pub piece_3 : ℕ → List ℕ → Piece
unfolding is_second
piece_3 a [] = cut
piece_3 a (b ∷ []) = if is_second a b then cut else broken 1
piece_3 a (b ∷ c ∷ bs) =
    if is_second a b
    then (if is_continuation c then scalar ((a % 16 * 64 + b % 64) * 64 + c % 64) else broken 2)
    else broken 1

unfoldable pub piece_4 : ℕ → List ℕ → Piece
unfolding is_second
piece_4 a [] = cut
piece_4 a (b ∷ []) = if is_second a b then cut else broken 1
piece_4 a (b ∷ c ∷ []) =
    if is_second a b then (if is_continuation c then cut else broken 2) else broken 1
piece_4 a (b ∷ c ∷ d ∷ bs) =
    if is_second a b
    then (if is_continuation c
        then (if is_continuation d
            then scalar (((a % 8 * 64 + b % 64) * 64 + c % 64) * 64 + d % 64)
            else broken 3)
        else broken 2)
    else broken 1

unfoldable pub piece : ℕ → List ℕ → Piece
unfolding piece_2 piece_3 piece_4
piece a bs =
    if ltb a 0x80
    then scalar a
    else if between 0xc2 0xdf a
    then piece_2 a bs
    else if between 0xe0 0xef a
    then piece_3 a bs
    else if between 0xf0 0xf4 a
    then piece_4 a bs
    else broken 1

-- `char::len_utf8`, and `str::len` of the scalar values of a text.
abbrev pub char_width : ℕ → ℕ
char_width c = if ltb c 0x80 then 1 else if ltb c 0x800 then 2 else if ltb c 0x10000 then 3 else 4

unfoldable pub utf8_length : List ℕ → ℕ
utf8_length [] = 0
utf8_length (c ∷ cs) = char_width c + utf8_length cs

-- The bytes that a piece takes after its first one.
abbrev pub more_bytes : Piece → List ℕ → ℕ
more_bytes (scalar c) bs = char_width c - 1
more_bytes (broken n) bs = n - 1
more_bytes cut bs = length bs

-- The pieces after the first `skip` bytes.
unfoldable pub pieces_from : ℕ → List ℕ → List Piece
unfolding piece
pieces_from skip [] = []
pieces_from zero (a ∷ bs) = piece a bs ∷ pieces_from (more_bytes (piece a bs) bs) bs
pieces_from (suc skip) (a ∷ bs) = pieces_from skip bs

abbrev pub pieces : List ℕ → List Piece
pieces bytes = pieces_from 0 bytes

-- `from_utf8_lossy`: what is not a scalar value becomes a replacement character.
abbrev pub replaced : Piece → ℕ
replaced (scalar c) = c
replaced (broken n) = 0xfffd
replaced cut = 0xfffd

abbrev pub lossy : List ℕ → List ℕ
lossy bytes = map replaced (pieces bytes)

-- What `from_utf8` says: the first error, by whether it is an end of the input that came too soon.
pub data Verdict : Type 0 where
  valid incomplete_tail invalid_sequence : Verdict

unfoldable pub verdict_of : List Piece → Verdict
verdict_of [] = valid
verdict_of (scalar c ∷ ps) = verdict_of ps
verdict_of (broken n ∷ ps) = invalid_sequence
verdict_of (cut ∷ ps) = incomplete_tail

abbrev pub from_utf8 : List ℕ → Verdict
from_utf8 bytes = verdict_of (pieces bytes)

abbrev pub is_utf8 : List ℕ → Bool
is_utf8 bytes = elim (from_utf8 bytes) [
  | valid ↦ true
  | incomplete_tail ↦ false
  | invalid_sequence ↦ false
]
