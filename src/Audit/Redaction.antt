-- ===== src/Audit/Redaction.antt =====
-- `redact` and the redaction of single actions in `AuditLog.append`, src/clausis/audit.py.
use Prim.Native.String
use clausis.Prelude.{
  String, Bool, true, false, ◌||◌, List, [], ◌∷◌, none, some, if◌then◌else◌, lookup,
}
use clausis.Stdlib.{Stdlib, Text}
use clausis.Text.{codes, casefold, text_eq, text_elem}
use clausis.Models.Value.{
  Value, Items, Fields, null, bool, int, float, str, arr, obj, nil, cons, end, field,
}
use clausis.Models.Request.{ActionRequest, ActionResult}

abbrev sensitive_keys : List Text
sensitive_keys =
    codes "pin"
    ∷ codes "password"
    ∷ codes "passphrase"
    ∷ codes "secret"
    ∷ codes "token"
    ∷ codes "api_key"
    ∷ codes "voiceprint"
    ∷ codes "capability_token"
    ∷ codes "access_token"
    ∷ codes "refresh_token"
    ∷ []

-- s.endswith(suffix)
unfoldable pub ends_with : Text → Text → Bool
ends_with suffix [] = text_eq suffix []
ends_with suffix (c ∷ s) = text_eq suffix (c ∷ s) || ends_with suffix s

-- The label for the target of an action that carries dictated text.
abbrev target_labels : List (String × String)
target_labels =
    ("desktop.text.set", "dictated text")
    ∷ ("desktop.text.insert_at_caret", "inserted text")
    ∷ ("desktop.text.replace_selection", "selection replacement text")
    ∷ ("desktop.text.replace_previous_word", "previous word replacement text")
    ∷ ("desktop.text.replace_next_word", "next word replacement text")
    ∷ ("desktop.text.replace_current_line", "current line replacement text")
    ∷ ("desktop.text.insert_line_above", "inserted line above text")
    ∷ ("desktop.text.insert_line_below", "inserted line below text")
    ∷ ("desktop.clipboard.write_text", "clipboard write text")
    ∷ []

-- The label for the result of an action that reads text out.
abbrev result_labels : List (String × String)
result_labels =
    ("desktop.text.read_focused", "focused text")
    ∷ ("desktop.text.read_selection", "selected text")
    ∷ ("desktop.clipboard.read_text", "clipboard text")
    ∷ ("desktop.text.read_previous_character", "previous character")
    ∷ ("desktop.text.read_next_character", "next character")
    ∷ ("desktop.text.read_previous_word", "previous word")
    ∷ ("desktop.text.read_next_word", "next word")
    ∷ ("desktop.text.read_current_line", "current line")
    ∷ ("desktop.standard_dialog.read", "standard dialog text")
    ∷ ("desktop.notifications.read", "notification text")
    ∷ []

abbrev redacted : String → String
redacted label = String.◌++◌ "[REDACTED: " (String.◌++◌ label "]")

-- `request.action in {…}`
unfoldable pub hides_target : String → Bool
unfolding lookup
hides_target action = elim (lookup action target_labels) [ none ↦ false | some _ ↦ true ]

unfoldable pub hides_result : String → Bool
unfolding lookup
hides_result action = elim (lookup action result_labels) [ none ↦ false | some _ ↦ true ]

-- The request with the target that is logged.
unfoldable pub logged_request : ActionRequest → ActionRequest
unfolding lookup
logged_request r = elim (lookup r.action target_labels) [
  | none ↦ r
  | some label ↦ record r { target = redacted label }
]

-- The result with the message and the details that are logged for the action.
unfoldable pub logged_result : String → ActionResult → ActionResult
unfolding lookup
logged_result action result = elim (lookup action result_labels) [
  | none ↦ result
  | some label ↦ record result { message = redacted label; details = [] }
]

module _ ⦃py : Stdlib⦄ where
  unfoldable pub sensitive_key : String → Bool
  sensitive_key key =
      let normalized = casefold (codes key) in
      text_elem normalized sensitive_keys
      || (ends_with (codes "_token") normalized
          || ends_with (codes "_secret") normalized
          || ends_with (codes "_password") normalized)

  unfoldable mutual
    pub redact : Value → Value
    redact null = null
    redact (bool b) = bool b
    redact (int n) = int n
    redact (float x) = float x
    redact (str t) = str t
    redact (arr items) = arr (redact_items items)
    redact (obj fields) = obj (redact_fields fields)

    pub redact_items : Items → Items
    redact_items nil = nil
    redact_items (cons v items) = cons (redact v) (redact_items items)

    pub redact_fields : Fields → Fields
    redact_fields end = end
    redact_fields (field k v fields) =
        field k (if sensitive_key k then str "[REDACTED]" else redact v) (redact_fields fields)
