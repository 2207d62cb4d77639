-- ===== src/Desktop/WordBounds.antt =====
-- The searches for a word of src/clausis/gnome_adapter.py come to an end within their reads where the
-- text is short enough, and stay within the text.
use clausis.Prelude.{
  ℕ, zero, suc, ◌+◌, ◌-◌, ◌≤◌, ◌<◌, Bool, true, false, ◌≡◌, refl, ap, ◌∙◌, Option, none, some,
  arith, if◌then◌else◌, ◌==◌,
}
use clausis.Outcome.{Outcome, ok, ◌>>=◌}
use clausis.Stdlib.{Stdlib}
use clausis.Desktop.Provider.{AtSpi}
use clausis.Desktop.Field.{Direction, backward, forward, at_edge}
use clausis.Desktop.Words.{
  Search, character_at, read_at, back_while, forth_while, span_to, span_from, word_span, is_word,
  eq_Bool, at, max_reads,
}

-- A search to the left ends at or before its index, and has read no more characters than it went.
abbrev BackEnds : ℕ → ℕ → Search → Type 0
BackEnds left index s = (s.index ≤ index) × (s.index + left ≤ index + s.left)

-- A search to the right ends within its text, and has read no more characters than it went.
abbrev ForthEnds : ℕ → ℕ → ℕ → Search → Type 0
ForthEnds left rest index s =
    (index ≤ s.index) × (s.index ≤ index + rest) × (index + left ≤ s.index + s.left)

-- where a word that was found lies
abbrev pub LiesWithin : ℕ → ℕ → Option (ℕ × ℕ) → Type 0
LiesWithin lo hi none = Unit {0}
LiesWithin lo hi (some (start, end)) = (lo ≤ start) × (start ≤ end) × (end ≤ hi)

abbrev pub SpanLies : Direction → ℕ → ℕ → Option (ℕ × ℕ) → Type 0
SpanLies backward count caret = LiesWithin 0 caret
SpanLies forward count caret = LiesWithin caret count

>>=-ok :
    {A B : Type 0} (first : Outcome A) (next : A → Outcome B) {a : A} {b : B}
    → first ≡ ok a
    → next a ≡ ok b
    → (first >>= next) ≡ ok b
>>=-ok first next h g = ap (λ o. o >>= next) h ∙ g

module _ {World : Type 0} ⦃spi : AtSpi World⦄ ⦃py : Stdlib⦄ where
  -- every character before the index can be read
  abbrev pub IsReadable : World → spi.Node → ℕ → Type 0
  IsReadable w n count = (i : ℕ) → i < count → (c : ℕ) × (character_at w n i ≡ ok c)

  read_at-ok :
      (w : World) (n : spi.Node) (left index : ℕ)
      → (c : ℕ) × (character_at w n index ≡ ok c)
      → (c : ℕ) × (read_at w n (suc left) index ≡ ok (left, c))
  read_at-ok w n left index (c, read) = (c, ap (λ o. o >>= λ c. ok (left, c)) read)

  back_while-ends :
      (word : Bool) (w : World) (n : spi.Node) (left index c : ℕ)
      → IsReadable w n index
      → index ≤ suc left
      → (s : Search) × (back_while word w n left index c ≡ ok s) × BackEnds left index s
  unfolding back_while
  back_while-ends word w n left zero c readable enough =
      (at left 0 c, refl, (omega arith, omega arith))
  back_while-ends word w n left (suc zero) c readable enough = last (eq_Bool (is_word c) word)
    where
      last :
          (b : Bool)
          → (s : Search) × (ok (if b then at left 0 c else at left 1 c) ≡ ok s) × BackEnds left 1 s
      last true = (at left 0 c, refl, (omega arith, omega arith))
      last false = (at left 1 c, refl, (omega arith, omega arith))
  back_while-ends word w n zero (suc (suc index)) c readable enough = absurd (too_few index enough)
    where
      too_few : (index : ℕ) → suc (suc index) ≤ 1 → ⊥
      too_few index h = omega arith
  back_while-ends word w n (suc left) (suc (suc index)) c readable enough =
      let (before, read) = read_at-ok w n left index (readable index (omega arith)) in
      step (eq_Bool (is_word c) word) before read (
        back_while-ends word w n left (suc index) before (λ i h. readable i (omega arith))
          (omega arith))
    where
      step :
          (b : Bool) (before : ℕ)
          → read_at w n (suc left) index ≡ ok (left, before)
          → (s : Search) × (back_while word w n left (suc index) before ≡ ok s)
            × BackEnds left (suc index) s
          → (s : Search) × ((if b
                then (do
                  (left, c) ← read_at w n (suc left) index
                  back_while word w n left (suc index) c)
                else ok (at (suc left) (suc (suc index)) c))
              ≡ ok s)
            × BackEnds (suc left) (suc (suc index)) s
      step true before read (s, ends, (less, reads)) = (
        s,
        ap (λ o. o >>= λ (left, c). back_while word w n left (suc index) c) read ∙ ends,
        (omega arith, omega arith),
      )
      step false before read rest =
          (at (suc left) (suc (suc index)) c, refl, (omega arith, omega arith))

  forth_while-ends :
      (word : Bool) (w : World) (n : spi.Node) (left rest index c : ℕ)
      → IsReadable w n (index + rest)
      → rest ≤ suc left
      → (s : Search) × (forth_while word w n left rest index c ≡ ok s) × ForthEnds left rest index s
  unfolding forth_while
  forth_while-ends word w n left zero index c readable enough =
      (at left index c, refl, (omega arith, omega arith, omega arith))
  forth_while-ends word w n left (suc zero) index c readable enough =
      last (eq_Bool (is_word c) word)
    where
      last :
          (b : Bool)
          → (s : Search) × (ok (if b then at left (suc index) c else at left index c) ≡ ok s)
            × ForthEnds left 1 index s
      last true = (at left (suc index) c, refl, (omega arith, omega arith, omega arith))
      last false = (at left index c, refl, (omega arith, omega arith, omega arith))
  forth_while-ends word w n zero (suc (suc rest)) index c readable enough =
      absurd (too_few rest enough)
    where
      too_few : (rest : ℕ) → suc (suc rest) ≤ 1 → ⊥
      too_few rest h = omega arith
  forth_while-ends word w n (suc left) (suc (suc rest)) index c readable enough =
      let (next, read) = read_at-ok w n left (suc index) (readable (suc index) (omega arith)) in
      step (eq_Bool (is_word c) word) next read (
        forth_while-ends word w n left (suc rest) (suc index) next (λ i h. readable i (omega arith))
          (omega arith))
    where
      step :
          (b : Bool) (next : ℕ)
          → read_at w n (suc left) (suc index) ≡ ok (left, next)
          → (s : Search) × (forth_while word w n left (suc rest) (suc index) next ≡ ok s)
            × ForthEnds left (suc rest) (suc index) s
          → (s : Search) × ((if b
                then (do
                  (left, c) ← read_at w n (suc left) (suc index)
                  forth_while word w n left (suc rest) (suc index) c)
                else ok (at (suc left) index c))
              ≡ ok s)
            × ForthEnds (suc left) (suc (suc rest)) index s
      step true next read (s, ends, (more, within, reads)) = (
        s,
        ap (λ o. o >>= λ (left, c). forth_while word w n left (suc rest) (suc index) c) read ∙ ends,
        (omega arith, omega arith, omega arith),
      )
      step false next read rest_ends =
          (at (suc left) index c, refl, (omega arith, omega arith, omega arith))

  span_to-ends :
      (w : World) (n : spi.Node) (caret : ℕ) (s : Search)
      → IsReadable w n caret
      → s.index ≤ caret
      → s.index ≤ suc s.left
      → (o : Option (ℕ × ℕ)) × (span_to w n s ≡ ok o) × LiesWithin 0 caret o
  span_to-ends w n caret s readable less enough =
      step (s.index == 0) (
        back_while-ends true w n s.left s.index s.character (λ i h. readable i (omega arith))
          enough)
    where
      step :
          (b : Bool)
          → (t : Search) × (back_while true w n s.left s.index s.character ≡ ok t)
            × BackEnds s.left s.index t
          → (o : Option (ℕ × ℕ)) × ((if b then ok none else (do
            start ← back_while true w n s.left s.index s.character
            ok (some (start.index, s.index))))
              ≡ ok o)
            × LiesWithin 0 caret o
      step true _ = (none, refl, tt)
      step false (t, ends, (before, _)) = (
        some (t.index, s.index),
        >>=-ok (back_while true w n s.left s.index s.character) _ ends refl,
        (omega arith, omega arith, less),
      )

  span_from-ends :
      (w : World) (n : spi.Node) (count caret : ℕ) (s : Search)
      → IsReadable w n count
      → caret ≤ s.index
      → s.index ≤ count
      → count - s.index ≤ suc s.left
      → (o : Option (ℕ × ℕ)) × (span_from w n count s ≡ ok o) × LiesWithin caret count o
  span_from-ends w n count caret s readable more within enough = step (s.index == count) (
      forth_while-ends true w n s.left (count - s.index) s.index s.character
        (λ i h. readable i (omega arith)) enough)
    where
      step :
          (b : Bool)
          → (t : Search) × (forth_while true w n s.left (count - s.index) s.index s.character
              ≡ ok t)
            × ForthEnds s.left (count - s.index) s.index t
          → (o : Option (ℕ × ℕ)) × ((if b then ok none else (do
            end ← forth_while true w n s.left (count - s.index) s.index s.character
            ok (some (s.index, end.index))))
              ≡ ok o)
            × LiesWithin caret count o
      step true _ = (none, refl, tt)
      step false (t, ends, (after, inside, _)) = (
        some (s.index, t.index),
        >>=-ok (forth_while true w n s.left (count - s.index) s.index s.character) _ ends refl,
        (more, after, omega arith),
      )

  -- In a text of at most 256 readable characters, with the caret not at the edge, the search for a
  -- word always comes to an end within its 256 reads, and the word that it finds lies between the
  -- caret and the edge.
  pub word_span-ends :
      (d : Direction) (w : World) (n : spi.Node) (count caret : ℕ)
      → IsReadable w n count
      → count ≤ 256
      → caret ≤ count
      → at_edge d count caret ≡ false
      → (o : Option (ℕ × ℕ)) × (word_span d w n count caret ≡ ok o) × SpanLies d count caret o
  unfolding word_span
  word_span-ends backward w n count zero readable small within inside = absurd (cc inside)
  word_span-ends backward w n count (suc index) readable small within inside =
      let (c, read) = read_at-ok w n 255 index (readable index (omega arith)) in
      let (s, stops, (less, reads)) =
        back_while-ends false w n 255 (suc index) c (λ i h. readable i (omega arith))
          (omega arith) in
      let (o, found, lies) =
        span_to-ends w n (suc index) s (λ i h. readable i (omega arith)) less (omega arith) in
      (
        o,
        >>=-ok (read_at w n max_reads index) _ read
            (>>=-ok (back_while false w n 255 (suc index) c) (span_to w n) stops found),
        lies,
      )
  word_span-ends forward w n count caret readable small within inside =
      let before = not_at count caret within inside in
      let (c, read) = read_at-ok w n 255 caret (readable caret before) in
      let (s, stops, (more, less, reads)) =
        forth_while-ends false w n 255 (count - caret) caret c (λ i h. readable i (omega arith))
          (omega arith) in
      let (o, found, lies) =
        span_from-ends w n count caret s readable more (omega arith) (omega arith) in
      (
        o,
        >>=-ok (read_at w n max_reads caret) _ read (
            >>=-ok (forth_while false w n 255 (count - caret) caret c) (span_from w n count) stops
              found),
        lies,
      )
    where
      not_at : (count caret : ℕ) → caret ≤ count → (caret == count) ≡ false → caret < count
      not_at count caret within inside = ground arith
