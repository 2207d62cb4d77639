-- ===== src/Desktop/Words.antt =====
-- The searches for the word beside the caret in src/clausis/gnome_adapter.py, through reads of one
-- character, of which there may be 256.
use clausis.Prelude.{
  ℕ, zero, suc, ◌-◌, Bool, true, false, ◌||◌, [], ◌∷◌, Option, none, some, if◌then◌else◌, ◌==◌,
}
use clausis.Outcome.{Outcome, ok, raised, value_error, ◌>>=◌}
use clausis.Stdlib.{Stdlib, Text}
use clausis.Desktop.Provider.{AtSpi}
use clausis.Desktop.Field.{Direction, backward, forward, told}

abbrev pub max_reads : ℕ
max_reads = 256

abbrev pub max_word : ℕ
max_word = 128

-- exactly one character, and not the null character
abbrev pub one_character : Text → Outcome ℕ
one_character (c ∷ []) = if c == 0 then raised (value_error "incomplete read") else ok c
one_character _ = raised (value_error "incomplete read")

-- Where a search stands: the reads that are left, the index, and the character last read. The index
-- of a search to the left is one more than the source's, so that 0 stands for its -1.
pub record Search : Type 0 where
  pub left : ℕ
  pub index : ℕ
  pub character : ℕ

abbrev pub at : ℕ → ℕ → ℕ → Search
at left index character = record { left = left; index = index; character = character }

-- character.isalnum() or character in "_'-"
abbrev pub is_word : ⦃py : Stdlib⦄ → ℕ → Bool
is_word ⦃py⦄ c = py.is_alnum c || (c == b'_' || (c == 39 || c == b'-'))

abbrev pub eq_Bool : Bool → Bool → Bool
eq_Bool true b = b
eq_Bool false true = false
eq_Bool false false = true

module _ {World : Type 0} ⦃spi : AtSpi World⦄ where
  -- str(text.getText(index, index + 1))
  abbrev pub character_at : World → spi.Node → ℕ → Outcome ℕ
  character_at w n index = told (spi.text_between w n index (suc index)) >>= one_character

  -- read_at, which counts the reads
  abbrev pub read_at : World → spi.Node → ℕ → ℕ → Outcome (ℕ × ℕ)
  read_at w n zero index = raised (value_error "limit exceeded")
  read_at w n (suc left) index = do c ← character_at w n index; ok (left, c)

  module _ ⦃py : Stdlib⦄ where
    -- while index >= 0 and is_word(character) is `word`: index -= 1, and read there
    unfoldable pub back_while : Bool → World → spi.Node → ℕ → ℕ → ℕ → Outcome Search
    back_while word w n left zero c = ok (at left 0 c)
    back_while word w n left (suc zero) c =
        ok (if eq_Bool (is_word c) word then at left 0 c else at left 1 c)
    back_while word w n left (suc (suc index)) c =
        if eq_Bool (is_word c) word
        then (do (left, c) ← read_at w n left index; back_while word w n left (suc index) c)
        else ok (at left (suc (suc index)) c)

    -- while index < count and is_word(character) is `word`: index += 1, and read there; with the
    -- number of characters from the index on
    unfoldable pub forth_while : Bool → World → spi.Node → ℕ → ℕ → ℕ → ℕ → Outcome Search
    forth_while word w n left zero index c = ok (at left index c)
    forth_while word w n left (suc zero) index c =
        ok (if eq_Bool (is_word c) word then at left (suc index) c else at left index c)
    forth_while word w n left (suc (suc rest)) index c =
        if eq_Bool (is_word c) word
        then (do
          (left, c) ← read_at w n left (suc index)
          forth_while word w n left (suc rest) (suc index) c)
        else ok (at left index c)

    -- The start of the word to the left, or of the next word to the right, of a caret that is not at
    -- the edge: the target of `move_focused_text_caret_word`.
    unfoldable pub word_start : Direction → World → spi.Node → ℕ → ℕ → Outcome ℕ
    word_start backward w n count zero = raised (value_error "invalid index")
    word_start backward w n count (suc index) = do
      (left, c) ← read_at w n max_reads index
      before ← back_while false w n left (suc index) c
      start ← back_while true w n before.left before.index before.character
      ok start.index
    word_start forward w n count caret = do
      (left, c) ← read_at w n max_reads caret
      after ← forth_while true w n left (count - caret) caret c
      start ← forth_while false w n after.left (count - after.index) after.index after.character
      ok start.index

    -- the word that ends where a search came to, if it is not the edge
    abbrev pub span_to : World → spi.Node → Search → Outcome (Option (ℕ × ℕ))
    span_to w n end = if end.index == 0 then ok none else (do
      start ← back_while true w n end.left end.index end.character
      ok (some (start.index, end.index)))

    -- the word that starts where a search came to, if it is not the edge
    abbrev pub span_from : World → spi.Node → ℕ → Search → Outcome (Option (ℕ × ℕ))
    span_from w n count start = if start.index == count then ok none else (do
      end ← forth_while true w n start.left (count - start.index) start.index start.character
      ok (some (start.index, end.index)))

    -- The start and the end of the word beside a caret that is not at the edge; none where only
    -- other characters follow up to the edge.
    unfoldable pub word_span : Direction → World → spi.Node → ℕ → ℕ → Outcome (Option (ℕ × ℕ))
    word_span backward w n count zero = raised (value_error "invalid index")
    word_span backward w n count (suc index) = do
      (left, c) ← read_at w n max_reads index
      back_while false w n left (suc index) c >>= span_to w n
    word_span forward w n count caret = do
      (left, c) ← read_at w n max_reads caret
      forth_while false w n left (count - caret) caret c >>= span_from w n count

    -- The characters that are collected to the left and to the right, at most 128.
    unfoldable pub collect_back : World → spi.Node → ℕ → ℕ → ℕ → ℕ → Text → Outcome Text
    collect_back w n left room zero c word = ok word
    collect_back w n left zero (suc index) c word =
        if is_word c then raised (value_error "word is too long") else ok word
    collect_back w n left (suc room) (suc zero) c word = ok (if is_word c then c ∷ word else word)
    collect_back w n left (suc room) (suc (suc index)) c word =
        if is_word c
        then (do
          (left, before) ← read_at w n left index
          collect_back w n left room (suc index) before (c ∷ word))
        else ok word

    unfoldable pub collect_forth : World → spi.Node → ℕ → ℕ → ℕ → ℕ → ℕ → Outcome Text
    collect_forth w n left room zero index c = ok []
    collect_forth w n left zero (suc rest) index c =
        if is_word c then raised (value_error "word is too long") else ok []
    collect_forth w n left (suc room) (suc zero) index c = ok (if is_word c then c ∷ [] else [])
    collect_forth w n left (suc room) (suc (suc rest)) index c =
        if is_word c
        then (do
          (left, next) ← read_at w n left (suc index)
          others ← collect_forth w n left room (suc rest) (suc index) next
          ok (c ∷ others))
        else ok []

    -- The word beside the caret, as `focused_text_word_at_caret` reads it; empty where there is none.
    unfoldable pub word_at : Direction → World → spi.Node → ℕ → ℕ → Outcome Text
    word_at backward w n count zero = ok []
    word_at backward w n count (suc index) = do
      (left, c) ← read_at w n max_reads index
      end ← back_while false w n left (suc index) c
      collect_back w n end.left max_word end.index end.character []
    word_at forward w n count caret = if caret == count then ok [] else (do
      (left, c) ← read_at w n max_reads caret
      start ← forth_while false w n left (count - caret) caret c
      collect_forth w n start.left max_word (count - start.index) start.index start.character)
