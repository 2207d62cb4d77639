-- ===== src/Desktop/Field.antt =====
-- What every operation of `PyAtSpiDesktop` on the focused text field of
-- src/clausis/gnome_adapter.py begins with: the checks of the field, and its bounded metadata.
use clausis.Prelude.{
  ℕ, ◌+◌, Bool, ◌||◌, not, String, List, [], ◌∷◌, ◌++◌, Option, none, some, if◌then◌else◌, is_empty,
  any, all, ltb, ◌==◌, length, take, drop,
}
use clausis.Prelude.Int.{ℤ, pos, negsuc, pos_part, between}
use clausis.Outcome.{
  Outcome, ok, raised, adapter_error, provider_error, value_error, reject_if, ◌>>=◌, ◌>>◌,
}
use clausis.Stdlib.{Stdlib, Text}
use clausis.Text.{codes, casefold, starts_with, text_elem, join_with}
use clausis.Desktop.Provider.{AtSpi, focused}
use clausis.Desktop.Tree.{active_window, find_state, role, name, or_text}

-- `except Exception: raise GnomeAdapterError(message)`
abbrev pub or_refuse {ℓ} : {A : Type ℓ} → String → Outcome A → Outcome A
or_refuse message (ok a) = ok a
or_refuse message (raised e) = raised (adapter_error message)

-- the same after `except GnomeAdapterError: raise`
abbrev pub or_refuse_other {ℓ} : {A : Type ℓ} → String → Outcome A → Outcome A
or_refuse_other message (ok a) = ok a
or_refuse_other message (raised (adapter_error own)) = raised (adapter_error own)
or_refuse_other message (raised e) = raised (adapter_error message)

-- raise GnomeAdapterError(message)
abbrev pub refuse {ℓ} : {A : Type ℓ} → String → Outcome A
refuse message = raised (adapter_error message)

abbrev pub refuse_if : Bool → String → Outcome (Unit {0})
refuse_if b message = if b then refuse message else ok tt

-- what the accessibility tree tells, or what it raises
abbrev pub told {ℓ} : {A : Type ℓ} → Option A → Outcome A
told none = raised provider_error
told (some a) = ok a

abbrev pub told_if : Bool → Outcome (Unit {0})
told_if b = if b then ok tt else raised provider_error

-- a number within `lo` and `hi`; `ValueError` where it is not
abbrev pub bounded : ℕ → ℕ → ℤ → Outcome ℕ
bounded lo hi z =
    if between (pos lo) z (pos hi) then ok (pos_part z) else raised (value_error "invalid metadata")

-- a length; a text is never as long as a negative number, which is a `ValueError` where the two are
-- compared
abbrev pub counted : ℤ → Outcome ℕ
counted (pos n) = ok n
counted (negsuc n) = raised (value_error "incomplete snapshot")

-- part in s
unfoldable pub contains : Text → Text → Bool
contains part [] = is_empty part
contains part (c ∷ s) = starts_with part (c ∷ s) || contains part s

abbrev pub secret_markers : List Text
secret_markers = codes "password" ∷ codes "passwort" ∷ codes "protected" ∷ codes "secret" ∷ []

-- "\x00" in s
abbrev pub has_nul : Text → Bool
has_nul = any (λ c. c == 0)

abbrev pub text_roles : List Text
text_roles = codes "entry" ∷ codes "text" ∷ codes "document text" ∷ []

abbrev pub max_text : ℕ
max_text = 100000

-- s[:k] + middle + s[k:] and s[:i] + s[j:]
abbrev pub inserted : ℕ → Text → Text → Text
inserted k middle s = take k s ++ (middle ++ drop k s)

abbrev pub cut : ℕ → ℕ → Text → Text
cut i j s = take i s ++ drop j s

abbrev pub replaced : ℕ → ℕ → Text → Text → Text
replaced i j middle s = take i s ++ (middle ++ drop j s)

-- The two directions of the operations on characters and words.
pub data Direction : Type 0 where
  backward forward : Direction

-- direction not in {"previous", "next"}
abbrev pub direction_of : String → Text → Outcome Direction
direction_of message t =
    if text_elem t (codes "previous" ∷ [])
    then ok backward
    else if text_elem t (codes "next" ∷ [])
    then ok forward
    else refuse message

abbrev pub at_edge : Direction → ℕ → ℕ → Bool
at_edge backward count caret = caret == 0
at_edge forward count caret = caret == count

module _ ⦃py : Stdlib⦄ where
  -- not value or len(value) > 500 or any(not character.isprintable() for character in value)
  abbrev pub is_unspeakable : Text → Bool
  is_unspeakable value = is_empty value || ltb 500 (length value) || not (all py.is_printable value)

  -- `any(marker in f"{role} {attributes}" for marker in …)`
  unfoldable pub is_secret : Text → List Text → Bool
  is_secret role values =
      let privacy = casefold role ++ (32 ∷ casefold (join_with 32 values)) in
      any (λ marker. contains marker privacy) secret_markers

module _ {World : Type 0} ⦃spi : AtSpi World⦄ where
  -- the number of characters, the caret and the number of selections, within their bounds
  abbrev pub count_within : ℕ → ℕ → World → spi.Node → Outcome ℕ
  count_within lo hi w n = told (spi.character_count w n) >>= bounded lo hi

  abbrev pub caret_within : ℕ → World → spi.Node → Outcome ℕ
  caret_within count w n = told (spi.caret_offset w n) >>= bounded 0 count

  abbrev pub selections_within : ℕ → ℕ → World → spi.Node → Outcome ℕ
  selections_within lo hi w n = told (spi.selection_count w n) >>= bounded lo hi

  -- the whole text, `ValueError` where it is not `count` long or holds a null character
  unfoldable pub snapshot : ℕ → World → spi.Node → Outcome Text
  snapshot count w n = do
    previous ← told (spi.text_between w n 0 count)
    reject_if (not (length previous == count) || has_nul previous) "incomplete snapshot"
    ok previous

  -- start, end = text.getSelection(0), with `least <= end - start` and within the text
  unfoldable pub span_within : ℕ → ℕ → ℕ → World → spi.Node → Outcome (ℕ × ℕ)
  span_within index least count w n = do
    (start, end) ← told (spi.selection w n index)
    start ← bounded 0 count start
    end ← bounded 0 count end
    reject_if (ltb end (start + least)) "invalid selection range"
    ok (start, end)

  module _ ⦃py : Stdlib⦄ where
    -- the focused element of the active window, once it is seen to be a text field without a secret
    unfoldable pub text_field : String → String → World → Outcome spi.Node
    text_field no_text_field secret w = do
      window ← active_window w
      n ← elim (find_state w window focused) [
        | none ↦ refuse "Kein fokussiertes Textfeld gefunden."
        | some n ↦ ok n
      ]
      refuse_if (not (text_elem (casefold (role w n)) text_roles)) no_text_field
      values ←
          or_refuse "Die Schutzattribute des Textfelds sind nicht prüfbar."
            (told (spi.attributes w n))
      refuse_if (is_secret (role w n) values) secret
      ok n

    -- self._name(focused) or "Textfeld"
    abbrev pub field_name : World → spi.Node → Text
    field_name w n = or_text (name w n) (codes "Textfeld")
