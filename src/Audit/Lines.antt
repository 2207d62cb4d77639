-- ===== src/Audit/Lines.antt =====
-- The lines of a file of src/clausis/audit.py: texts that end each line with "\n", and `splitlines`.
use Prim.Native.Char.{code}
use Prim.Native.String
use text.Mathlib.TextLemmas.{nil-append, cons-append, append_assoc}
use clausis.Prelude.{
  String, ◌≡◌, refl, ap, ◌∙◌, Bool, true, not, ◌&&◌, List, [], ◌∷◌, ◌++◌, arith, all, and_true,
}
use clausis.Audit.File.{is_boundary, splitlines}

-- A text without a line boundary.
abbrev pub one_line : String → Bool
one_line String.[] = true
one_line (String.◌∷◌ c s) = not (is_boundary (code c)) && one_line s

-- The text of a file with these lines.
unfoldable pub text_of : List String → String
text_of [] = ""
text_of (l ∷ ls) = String.◌++◌ l (String.◌++◌ "\n" (text_of ls))

splitlines-line :
    (l t : String)
    → one_line l ≡ true
    → splitlines (String.◌++◌ l (String.◌++◌ "\n" t)) ≡ l ∷ splitlines t
unfolding splitlines
splitlines-line String.[] t h = rw (nil-append, cons-append, nil-append)
splitlines-line (String.◌∷◌ c l) t h = rw cons-append (ground (arith, splitlines-line l t))

pub splitlines-text_of : (ls : List String) → all one_line ls ≡ true → splitlines (text_of ls) ≡ ls
unfolding splitlines text_of
splitlines-text_of [] h = refl
splitlines-text_of (l ∷ ls) h =
    let (one, rest) = and_true (one_line l) (all one_line ls) h in
    splitlines-line l (text_of ls) one
    ∙ ap (λ (t : List String). l ∷ t) (splitlines-text_of ls rest)

pub text_of-append :
    (ls : List String) (l : String)
    → text_of (ls ++ l ∷ []) ≡ String.◌++◌ (text_of ls) (String.◌++◌ l "\n")
unfolding text_of
text_of-append [] l = rw nil-append
text_of-append (k ∷ ls) l = rw (text_of-append ls l, append_assoc, append_assoc)

pub all-append :
    (ls : List String) (l : String)
    → all one_line ls ≡ true
    → one_line l ≡ true
    → all one_line (ls ++ l ∷ []) ≡ true
all-append [] l h k = ground arith
all-append (m ∷ ls) l h k = ground (arith, all-append ls l)
