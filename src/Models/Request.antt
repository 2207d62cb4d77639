-- ===== src/Models/Request.antt =====
-- `Origin`, `Risk`, `ActionRequest` and `ActionResult` of src/clausis/models.py, with the checks of
-- `__post_init__` and `from_dict` and the dictionary that `to_dict` makes.
use Prim.Native.String
use clausis.Prelude.{
  ℕ, String, Bool, false, ◌&&◌, ◌||◌, not, [], ◌∷◌, Option, none, some, if◌then◌else◌, ◌==◌, leb,
  ltb, all, length, str_eq,
}
use clausis.Outcome.{Outcome, ok, raised, value_error, reject_if, ◌>>=◌, ◌>>◌}
use clausis.Stdlib.{Stdlib, Text}
use clausis.Text.{codes, split_on, is_control}
use clausis.Models.Value.{Value, Dict, null, bool, str, obj, to_fields}

pub data Origin : Type 0 where
  local_voice local_ui hermes external_content installer gpt_live : Origin

pub data Risk : Type 0 where
  low medium high critical : Risk

-- Risk.rank
abbrev pub rank : Risk → ℕ
rank low = 0
rank medium = 1
rank high = 2
rank critical = 3

abbrev pub origin_value : Origin → String
origin_value local_voice = "local_voice"
origin_value local_ui = "local_ui"
origin_value hermes = "hermes"
origin_value external_content = "external_content"
origin_value installer = "installer"
origin_value gpt_live = "gpt_live"

abbrev pub risk_value : Risk → String
risk_value low = "low"
risk_value medium = "medium"
risk_value high = "high"
risk_value critical = "critical"

pub record ActionRequest : Type 0 where
  pub action : String
  pub target : String
  pub arguments : Dict
  pub origin : Origin
  pub risk : Risk
  pub reversible : Bool
  pub capability_token : Option String
  pub expires_at : Option String

pub record ActionResult : Type 0 where
  pub status : String
  pub message : String
  pub action : String
  pub confirmation_id : Option String
  pub details : Dict

abbrev is_lower : ℕ → Bool
is_lower c = leb b'a' c && leb c b'z'

abbrev is_digit : ℕ → Bool
is_digit c = leb b'0' c && leb c b'9'

-- [a-z][a-z0-9_]*
abbrev is_segment : Text → Bool
is_segment [] = false
is_segment (c ∷ s) = is_lower c && all (λ d. is_lower d || is_digit d || d == b'_') s

-- ACTION_RE: at least two segments with dots between them
unfoldable pub is_action : Text → Bool
unfolding split_on
is_action s = let parts = split_on b'.' s in ltb 1 (length parts) && all is_segment parts

-- TARGET_RE
unfoldable pub is_target : Text → Bool
is_target s = all (λ c. not (is_control c)) s && leb (length s) 512

-- text without its last character, and that character
abbrev drops_z : String → Option String
drops_z String.[] = none
drops_z (String.◌∷◌ c String.[]) = if str_eq (String.◌∷◌ c String.[]) "Z" then some "" else none
drops_z (String.◌∷◌ c s) = elim (drops_z s) [ none ↦ none | some t ↦ some (String.◌∷◌ c t) ]

module _ ⦃py : Stdlib⦄ where
  -- The instant, or the `ValueError`, of an ISO timestamp.
  unfoldable pub parse_timestamp : String → Outcome ℕ
  parse_timestamp value =
      let normalized : String = elim (drops_z value) [
        | none ↦ value
        | some t ↦ String.◌++◌ t "+00:00"
      ] in
      elim (py.from_iso normalized) [
        | none ↦ raised (value_error "Invalid isoformat string")
        | some stamp ↦
            if stamp.aware
            then ok stamp.instant
            else raised (value_error "timestamp requires a timezone")
      ]

  abbrev pub check_expiry : Option String → Outcome (Unit {0})
  check_expiry none = ok tt
  check_expiry (some t) = do _ ← parse_timestamp t; ok tt

  -- ActionRequest.__post_init__; the arguments are JSON-compatible by their type
  unfoldable pub post_init : ActionRequest → Outcome ActionRequest
  post_init r = do
    reject_if (not (is_action (codes r.action))) "action must be a dotted lower-case identifier"
    reject_if (not (is_target (codes r.target))) "target contains control characters or is too long"
    reject_if (ltb 16384 (String.len (py.dumps r.arguments))) "arguments exceed 16 KiB"
    check_expiry r.expires_at
    ok r

abbrev pub optional_text : Option String → Value
optional_text none = null
optional_text (some t) = str t

-- ActionRequest.to_dict
unfoldable pub to_dict : ActionRequest → Dict
to_dict r =
    ("action", str r.action)
    ∷ ("target", str r.target)
    ∷ ("arguments", obj (to_fields r.arguments))
    ∷ ("origin", str (origin_value r.origin))
    ∷ ("risk", str (risk_value r.risk))
    ∷ ("reversible", bool r.reversible)
    ∷ ("capability_token", optional_text r.capability_token)
    ∷ ("expires_at", optional_text r.expires_at)
    ∷ []

-- ActionResult.to_dict
unfoldable pub result_to_dict : ActionResult → Dict
result_to_dict r =
    ("status", str r.status)
    ∷ ("message", str r.message)
    ∷ ("action", str r.action)
    ∷ ("confirmation_id", optional_text r.confirmation_id)
    ∷ ("details", obj (to_fields r.details))
    ∷ []
