-- ===== src/Confirmation/Phrase.antt =====
-- The comparison of spoken phrases in src/clausis/confirmation.py and src/clausis/installer.py.
use clausis.Prelude.{ℕ, String, Bool, ◌||◌, any, ltb, ◌==◌, if◌then◌else◌}
use clausis.Outcome.{Outcome, ok, raised, type_error}
use clausis.Stdlib.{Stdlib, Text}
use clausis.Text.{codes, casefold, runs, join_with, text_eq}

abbrev is_umlaut : ℕ → Bool
is_umlaut c = c == 0xE4 || c == 0xF6 || c == 0xFC || c == 0xDF

-- hmac.compare_digest of two texts: `TypeError` unless both are ASCII
unfoldable pub compare_texts : Text → Text → Outcome Bool
compare_texts s t =
    if any (λ c. ltb 127 c) s || any (λ c. ltb 127 c) t then raised type_error else ok (text_eq s t)

module _ ⦃py : Stdlib⦄ where
  -- " ".join(re.findall(r"[\wäöüß]+", text.casefold()))
  unfoldable pub normalized_phrase : String → Text
  unfolding runs join_with casefold
  normalized_phrase s =
      join_with b' ' (runs (λ c. py.is_word c || is_umlaut c) (casefold (codes s)))

  unfoldable pub same_phrase : String → String → Outcome Bool
  same_phrase response expected =
      compare_texts (normalized_phrase response) (normalized_phrase expected)
