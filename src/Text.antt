-- ===== src/Text.antt =====
-- The text operations of Python that src/clausis uses, over lists of code points.
use Prim.Native.Char.{code}
use clausis.Prelude.{
  ℕ, zero, suc, length, ◌-◌, ◌+◌, ◌*◌, String, Bool, true, false, ◌&&◌, not, List, [], ◌∷◌, ◌++◌,
  Option, none, some, if◌then◌else◌, ◌==◌, leb, is_empty, all,
}
use clausis.Stdlib.{Stdlib, Text}

-- The code points of a text.
abbrev pub codes : String → Text
codes String.[] = []
codes (String.◌∷◌ c s) = code c ∷ codes s

-- s.startswith(prefix)
unfoldable pub starts_with : Text → Text → Bool
starts_with [] s = true
starts_with (p ∷ ps) [] = false
starts_with (p ∷ ps) (c ∷ s) = p == c && starts_with ps s

-- the rest of a text after a prefix
unfoldable pub after_prefix : Text → Text → Option Text
after_prefix [] s = some s
after_prefix (p ∷ ps) [] = none
after_prefix (p ∷ ps) (c ∷ s) = let rest = after_prefix ps s in if p == c then rest else none

-- s == t
unfoldable pub text_eq : Text → Text → Bool
text_eq [] [] = true
text_eq [] (_ ∷ _) = false
text_eq (_ ∷ _) [] = false
text_eq (a ∷ s) (b ∷ t) = a == b && text_eq s t

-- s in {…}
abbrev pub text_elem : Text → List Text → Bool
text_elem s [] = false
text_elem s (t ∷ ts) = if text_eq s t then true else text_elem s ts

abbrev pub onto_head : ℕ → List Text → List Text
onto_head c [] = (c ∷ []) ∷ []
onto_head c (w ∷ ws) = (c ∷ w) ∷ ws

-- The pieces between the characters that fail `p`, empty pieces included.
unfoldable pub pieces : (ℕ → Bool) → Text → List Text
pieces p [] = [] ∷ []
pieces p (c ∷ s) = let rest = pieces p s in if p c then onto_head c rest else [] ∷ rest

-- s.split(separator) for a separator of one character
unfoldable pub split_on : ℕ → Text → List Text
unfolding pieces
split_on sep = pieces (λ c. not (c == sep))

unfoldable pub nonempty : List Text → List Text
nonempty [] = []
nonempty ([] ∷ ws) = nonempty ws
nonempty ((c ∷ w) ∷ ws) = (c ∷ w) ∷ nonempty ws

-- The maximal runs of characters that satisfy `p`: `re.findall` of a class with `+`.
unfoldable pub runs : (ℕ → Bool) → Text → List Text
unfolding pieces nonempty
runs p s = nonempty (pieces p s)

-- separator.join(pieces) for a separator of one character
unfoldable pub join_with : ℕ → List Text → Text
join_with sep [] = []
join_with sep (w ∷ []) = w
join_with sep (w ∷ (v ∷ ws)) = w ++ (sep ∷ join_with sep (v ∷ ws))

abbrev drop_while : (ℕ → Bool) → Text → Text
drop_while p [] = []
drop_while p (c ∷ s) = let rest = drop_while p s in if p c then rest else c ∷ s

-- without the trailing characters that satisfy `p`
abbrev drop_last_while : (ℕ → Bool) → Text → Text
drop_last_while p [] = []
drop_last_while p (c ∷ s) =
    let rest = drop_last_while p s in if p c && is_empty rest then [] else c ∷ rest

abbrev digits_from : (ℕ → Option ℕ) → ℕ → Text → Option ℕ
digits_from value n [] = some n
digits_from value n (c ∷ s) = elim (value c) [
  | none ↦ none
  | some d ↦ digits_from value (n * 10 + d) s
]

-- A control character: `ord(character) < 32`.
abbrev pub is_control : ℕ → Bool
is_control c = leb c 31

abbrev drop_chars : ℕ → String → String
drop_chars zero s = s
drop_chars (suc n) String.[] = ""
drop_chars (suc n) (String.◌∷◌ c s) = drop_chars n s

-- s[-n:]
abbrev pub last_chars : ℕ → String → String
last_chars n s = drop_chars (length (codes s) - n) s

module _ ⦃py : Stdlib⦄ where
  -- " ".join(s.split())
  unfoldable pub normalize_spaces : Text → Text
  unfolding runs join_with
  normalize_spaces s = join_with b' ' (runs (λ c. not (py.is_space c)) s)

  -- s.strip()
  unfoldable pub strip : Text → Text
  strip s = drop_last_while py.is_space (drop_while py.is_space s)

  -- s.casefold()
  unfoldable pub casefold : Text → Text
  casefold [] = []
  casefold (c ∷ s) = py.fold c ++ casefold s

  -- s.isdigit()
  unfoldable pub is_digits : Text → Bool
  is_digits s = not (is_empty s) && all py.is_digit s

  -- int(s) of a text for which isdigit() holds; none stands for `ValueError`
  unfoldable pub int_of_digits : Text → Option ℕ
  int_of_digits = digits_from py.digit_value 0
