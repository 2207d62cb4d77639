-- ===== src/Models/Parse.antt =====
-- `ActionRequest.from_dict` of src/clausis/models.py, and its agreement with `to_dict`.
use clausis.Prelude.{
  String, ◌≡◌, refl, ap, Bool, true, ◌&&◌, not, List, [], ◌∷◌, Option, none, some, if◌then◌else◌,
  str_eq, elem, lookup,
}
use clausis.Outcome.{Outcome, ok, raised, value_error, reject_if, ◌>>=◌, ◌>>◌}
use clausis.Stdlib.{Stdlib}
use clausis.Models.Value.{Value, Dict, null, bool, str, obj, to_fields, of_fields}
use clausis.Models.Request.{
  Origin, local_voice, local_ui, hermes, external_content, installer, gpt_live, Risk, low, medium,
  high, critical, ActionRequest, origin_value, risk_value, optional_text, post_init, to_dict,
}

abbrev allowed_fields : List String
allowed_fields =
    "action" ∷ "target" ∷ "arguments" ∷ "origin" ∷ "risk" ∷ "reversible" ∷ "capability_token"
    ∷ "expires_at" ∷ []

abbrev has_known_fields : Dict → Bool
has_known_fields [] = true
has_known_fields ((k, v) ∷ d) = elem k allowed_fields && has_known_fields d

abbrev text_or : Option String → String → Option Value → Outcome String
text_or none message none = raised (value_error message)
text_or (some default) message none = ok default
text_or default message (some (str t)) = ok t
text_or default message (some _) = raised (value_error message)

abbrev flag_or : Bool → Option Value → Outcome Bool
flag_or default none = ok default
flag_or default (some (bool b)) = ok b
flag_or default (some _) = raised (value_error "reversible must be a boolean")

abbrev mapping_or_empty : Option Value → Outcome Dict
mapping_or_empty none = ok []
mapping_or_empty (some (obj fields)) = ok (of_fields fields)
mapping_or_empty (some _) = raised (value_error "arguments must be an object")

abbrev text_or_null : String → Option Value → Outcome (Option String)
text_or_null message none = ok none
text_or_null message (some null) = ok none
text_or_null message (some (str t)) = ok (some t)
text_or_null message (some _) = raised (value_error message)

-- Origin(text)
abbrev origin_of : String → Outcome Origin
origin_of t =
    if str_eq t "local_voice"
    then ok local_voice
    else if str_eq t "local_ui"
    then ok local_ui
    else if str_eq t "hermes"
    then ok hermes
    else if str_eq t "external_content"
    then ok external_content
    else if str_eq t "installer"
    then ok installer
    else if str_eq t "gpt_live"
    then ok gpt_live
    else raised (value_error "not a valid Origin")

-- Risk(text)
abbrev risk_of : String → Outcome Risk
risk_of t =
    if str_eq t "low"
    then ok low
    else if str_eq t "medium"
    then ok medium
    else if str_eq t "high"
    then ok high
    else if str_eq t "critical"
    then ok critical
    else raised (value_error "not a valid Risk")

module _ ⦃py : Stdlib⦄ where
  -- The message for unknown fields is without their names.
  unfoldable pub from_dict : Dict → Outcome ActionRequest
  from_dict d = do
    reject_if (not (has_known_fields d)) "unknown action fields"
    action ← text_or none "action must be a string" (lookup "action" d)
    target ← text_or (some "") "target must be a string" (lookup "target" d)
    arguments ← mapping_or_empty (lookup "arguments" d)
    reversible ← flag_or true (lookup "reversible" d)
    token ← text_or_null "capability_token must be a string or null" (lookup "capability_token" d)
    expires ← text_or_null "expires_at must be a string or null" (lookup "expires_at" d)
    origin ← text_or (some "local_voice") "not a valid Origin" (lookup "origin" d)
    origin ← origin_of origin
    risk ← text_or (some "low") "not a valid Risk" (lookup "risk" d)
    risk ← risk_of risk
    post_init (record {
      action = action;
      target = target;
      arguments = arguments;
      origin = origin;
      risk = risk;
      reversible = reversible;
      capability_token = token;
      expires_at = expires;
    })

of_fields-to_fields : (d : Dict) → of_fields (to_fields d) ≡ d
of_fields-to_fields [] = refl
of_fields-to_fields ((k, v) ∷ d) = ap (λ (t : Dict). (k, v) ∷ t) (of_fields-to_fields d)

origin_of-origin_value : (o : Origin) → origin_of (origin_value o) ≡ ok o
origin_of-origin_value local_voice = refl
origin_of-origin_value _ = refl

risk_of-risk_value : (r : Risk) → risk_of (risk_value r) ≡ ok r
risk_of-risk_value low = refl
risk_of-risk_value _ = refl

text_or_null-optional_text :
    (m : String) (o : Option String) → text_or_null m (some (optional_text o)) ≡ ok o
text_or_null-optional_text m none = refl
text_or_null-optional_text m (some t) = refl

module _ ⦃py : Stdlib⦄ where
  -- Reading the dictionary that `to_dict` makes of any request gives that request again, after the
  -- checks of its constructor, with every field kept.
  pub from_dict-to_dict : (r : ActionRequest) → from_dict (to_dict r) ≡ post_init r
  unfolding from_dict to_dict lookup
  from_dict-to_dict r = rw (
    text_or_null-optional_text _ r.capability_token,
    text_or_null-optional_text _ r.expires_at,
    of_fields-to_fields r.arguments,
    origin_of-origin_value r.origin,
    risk_of-risk_value r.risk,
  )
