-- ===== src/Policy/Validators/Targets.antt =====
-- The validators of src/clausis/policy.py that look at the target.
use clausis.Prelude.{
  ℕ, String, Bool, false, ◌&&◌, ◌||◌, not, [], ◌∷◌, none, some, if◌then◌else◌, ◌==◌, leb, ltb,
  is_empty, all, any, length, elem, str_eq,
}
use clausis.Outcome.{Outcome, raised, value_error, reject_if, ◌>>◌}
use clausis.Stdlib.{Stdlib, Text}
use clausis.Text.{
  codes, starts_with, text_elem, split_on, is_control, normalize_spaces, is_digits, int_of_digits,
}
use clausis.Models.Request.{ActionRequest}

abbrev pub is_letter : ℕ → Bool
is_letter c = leb b'A' c && leb c b'Z' || leb b'a' c && leb c b'z'

abbrev pub is_digit : ℕ → Bool
is_digit c = leb b'0' c && leb c b'9'

-- The class [A-Za-z0-9._+@:-].
abbrev is_identifier_mark : ℕ → Bool
is_identifier_mark c =
    is_letter c
    || is_digit c
    || c == b'.'
    || c == b'_'
    || c == b'+'
    || c == b'@'
    || c == b':'
    || c == b'-'

-- SAFE_IDENTIFIER
unfoldable pub is_safe_identifier : Text → Bool
is_safe_identifier [] = false
is_safe_identifier (c ∷ s) =
    (is_letter c || is_digit c) && all is_identifier_mark s && leb (length s) 127

abbrev is_lower : ℕ → Bool
is_lower c = leb b'a' c && leb c b'z'

-- SAFE_SETTING
unfoldable pub is_safe_setting : Text → Bool
is_safe_setting [] = false
is_safe_setting (c ∷ s) =
    is_lower c && all (λ d. is_lower d || is_digit d || d == b'-') s && leb (length s) 63

unfoldable pub target_required : ActionRequest → Outcome (Unit {0})
target_required r = reject_if (str_eq r.target "") "target is required"

unfoldable pub no_parameters : ActionRequest → Outcome (Unit {0})
no_parameters r =
    reject_if (not (str_eq r.target "") || not (is_empty r.arguments))
      "action accepts no target or arguments"

unfoldable pub safe_identifier : ActionRequest → Outcome (Unit {0})
unfolding target_required
safe_identifier r = do
  target_required r
  reject_if (not (is_safe_identifier (codes r.target))) "target is not an allowed identifier"

unfoldable pub path : ActionRequest → Outcome (Unit {0})
unfolding target_required
path r = do
  target_required r
  reject_if (not (starts_with (codes "/") (codes r.target)) || any (λ c. c == 0) (codes r.target))
      "target must be an absolute path"

unfoldable pub setting : ActionRequest → Outcome (Unit {0})
setting r =
    reject_if (not (str_eq r.target "") && not (is_safe_setting (codes r.target)))
      "invalid settings panel"

unfoldable pub permission_decision : ActionRequest → Outcome (Unit {0})
permission_decision r =
    reject_if (not (elem r.target ("allow" ∷ "deny" ∷ [])))
      "permission decision must be allow or deny"

unfoldable pub file_dialog_decision : ActionRequest → Outcome (Unit {0})
file_dialog_decision r =
    reject_if (not (elem r.target ("accept" ∷ "cancel" ∷ [])) || not (is_empty r.arguments))
      "file-dialog decision must be accept or cancel without arguments"

unfoldable pub standard_dialog_decision : ActionRequest → Outcome (Unit {0})
standard_dialog_decision r =
    reject_if
      (not (elem r.target ("accept" ∷ "cancel" ∷ "retry" ∷ "apply" ∷ []))
        || not (is_empty r.arguments))
      "standard-dialog decision must be accept, cancel, retry or apply without arguments"

-- `"//" in path`
unfoldable pub has_double_slash : Text → Bool
has_double_slash [] = false
has_double_slash (c ∷ []) = false
has_double_slash (c ∷ (d ∷ s)) = c == b'/' && d == b'/' || has_double_slash (d ∷ s)

unfoldable pub is_canonical_path : Text → Bool
is_canonical_path s =
    leb (length s) 4096
    && starts_with (codes "/") s
    && not (starts_with (codes "//") s)
    && not (has_double_slash s)
    && not (any is_control s)
    && not (any (λ part. text_elem part (codes "." ∷ codes ".." ∷ [])) (split_on b'/' s))

unfoldable pub canonical_absolute_path : ActionRequest → Outcome (Unit {0})
unfolding target_required
canonical_absolute_path r = do
  target_required r
  reject_if (not (is_canonical_path (codes r.target)))
      "path must be an absolute canonical POSIX path"

module _ ⦃py : Stdlib⦄ where
  -- `text.isdigit() and 1 <= int(text) <= highest`; `int` refuses some digits with a `ValueError`
  abbrev number_up_to : ℕ → String → Text → Outcome (Unit {0})
  number_up_to highest message s =
      if is_digits s
      then elim (int_of_digits s) [
        | none ↦ raised (value_error "invalid literal for int()")
        | some n ↦ reject_if (not (leb 1 n && leb n highest)) message
      ]
      else raised (value_error message)

  unfoldable pub control_number : ActionRequest → Outcome (Unit {0})
  control_number r = number_up_to 30 "control number must be between 1 and 30" (codes r.target)

  unfoldable pub notification_number : ActionRequest → Outcome (Unit {0})
  notification_number r =
      let message : String = "notification number must be between 1 and 20 without arguments" in
      if is_empty r.arguments
      then number_up_to 20 message (codes r.target)
      else raised (value_error message)

  -- `not normalized or len(normalized) > highest`, or a control character
  abbrev pub is_short_name : ℕ → Text → Bool
  is_short_name highest s = not (is_empty s) && leb (length s) highest && not (any is_control s)

  unfoldable pub accessible_name : ActionRequest → Outcome (Unit {0})
  unfolding target_required
  accessible_name r = do
    target_required r
    reject_if (not (is_short_name 120 (normalize_spaces (codes r.target))))
        "accessible name must be between 1 and 120 printable characters"

  unfoldable pub spoken_text : ActionRequest → Outcome (Unit {0})
  unfolding target_required
  spoken_text r = do
    target_required r
    reject_if
        (ltb 500 (length (codes r.target)) || any (λ c. not (py.is_printable c)) (codes r.target))
        "spoken text must be between 1 and 500 printable characters"
    reject_if (not (is_empty r.arguments)) "spoken text action accepts no arguments"

  unfoldable pub visible_file_name : ActionRequest → Outcome (Unit {0})
  unfolding target_required
  visible_file_name r = do
    target_required r
    let name = normalize_spaces (codes r.target)
    reject_if
        (is_empty name
          || ltb 255 (length name)
          || any (λ c. c == b'/') name
          || text_elem name (codes "." ∷ codes ".." ∷ []))
        "visible file name must be a single 1 to 255 character name"
