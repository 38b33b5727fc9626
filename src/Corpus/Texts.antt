-- ===== src/Corpus/Texts.antt =====
-- The map from texts to entries that a snapshot of src/corpus.rs keeps.
use zgcmaster.Prelude.{
  ℕ, ◌+◌, Bool, true, false, ◌&&◌, ◌||◌, Option, none, some, List, [], ◌∷◌, ltb, ◌==◌, is_some,
  if◌then◌else◌,
}

pub record Entry : Type 0 where
  pub first_offset : ℕ
  pub count : ℕ

abbrev pub Strings : Type 0
Strings = List (List ℕ × Entry)

unfoldable pub same_text : List ℕ → List ℕ → Bool
same_text [] [] = true
same_text (c ∷ s) (d ∷ t) = c == d && same_text s t
same_text _ _ = false

-- The order of texts: that of their scalar values, which UTF-8 keeps.
unfoldable pub text_before : List ℕ → List ℕ → Bool
text_before [] [] = false
text_before [] (d ∷ t) = true
text_before (c ∷ s) [] = false
text_before (c ∷ s) (d ∷ t) = ltb c d || (c == d && text_before s t)

unfoldable pub find_text : List ℕ → Strings → Option Entry
unfolding same_text
find_text text [] = none
find_text text ((key, entry) ∷ rest) =
    if same_text text key then some entry else find_text text rest

-- `strings.insert(text, entry)`, of a text that is not there.
unfoldable pub insert_text : List ℕ → Entry → Strings → Strings
unfolding text_before
insert_text text entry [] = (text, entry) ∷ []
insert_text text entry ((key, old) ∷ rest) =
    let after = insert_text text entry rest in
    if text_before text key then (text, entry) ∷ (key, old) ∷ rest else (key, old) ∷ after

-- `entry.count += 1`, at the entry of the text.
unfoldable pub count_text : List ℕ → Strings → Strings
unfolding same_text
count_text text [] = []
count_text text ((key, entry) ∷ rest) =
    if same_text text key
    then (key, record entry { count = entry.count + 1 }) ∷ rest
    else (key, entry) ∷ count_text text rest

-- `contains_key`.
abbrev pub has_text : List ℕ → Strings → Bool
has_text text strings = is_some (find_text text strings)
