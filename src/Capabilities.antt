-- ===== src/Capabilities.antt =====
-- src/clausis/capabilities.py: signed, expiring, one-time tokens that are bound to one request.
pub mod Binding
pub mod RoundTrip
use Prim.Native.String
use clausis.Prelude.{
  ℕ, ◌+◌, ◌*◌, ◌^◌, String, Bool, true, false, ◌&&◌, ◌||◌, not, List, [], ◌∷◌, Option, none, some,
  if◌then◌else◌, ◌==◌, leb, ltb, length, str_eq, elem, lookup,
}
use clausis.Prelude.Int.{ℤ, pos, negsuc}
use clausis.Outcome.{
  Outcome, ok, raised, Exception, value_error, capability_error, key_error, attribute_error,
  reject_if, ◌>>=◌, ◌>>◌,
}
use clausis.Stdlib.{Stdlib, Bytes}
use clausis.Text.{text_eq}
use clausis.Models.Value.{Value, Float, Dict, bool, int, float, str, obj, finite, of_fields}
use clausis.Models.Request.{ActionRequest, origin_value, parse_timestamp}

pub record CapabilityAuthority : Type 0 where
  pub key : Bytes
  pub consumed : List String

-- token.split(".", 1), where there is a dot
unfoldable pub split_dot : String → Option (String × String)
split_dot String.[] = none
split_dot (String.◌∷◌ c s) =
    let rest = split_dot s in
    if str_eq (String.◌∷◌ c String.[]) "."
    then some ("", s)
    else elim rest [ none ↦ none | some (a, b) ↦ some (String.◌∷◌ c a, b) ]

-- value == 1
unfoldable pub is_one : Option Value → Bool
is_one (some (int (pos n))) = n == 1
is_one (some (float (finite (pos n) k))) = n == 2 ^ k
is_one (some (bool b)) = b
is_one _ = false

-- value == text
unfoldable pub is_text : Option Value → String → Bool
is_text (some (str t)) s = str_eq t s
is_text _ s = false

abbrev capability_if : Bool → String → Outcome (Unit {0})
capability_if true m = raised (capability_error m)
capability_if false m = ok tt

abbrev malformed {ℓ} : {A : Type ℓ} → Option A → Outcome A
malformed none = raised (capability_error "malformed capability")
malformed (some a) = ok a

-- The receiver of `payload.get`.
abbrev as_dict : Value → Outcome Dict
as_dict (obj fields) = ok (of_fields fields)
as_dict _ = raised attribute_error

module _ ⦃py : Stdlib⦄ where
  -- CapabilityAuthority.__init__
  unfoldable pub new : Bytes → List String → Outcome CapabilityAuthority
  new key consumed = do
    reject_if (ltb (length key) 32) "capability key must contain at least 32 bytes"
    ok (record { key = key; consumed = consumed })

  unfoldable pub arguments_digest : ActionRequest → String
  arguments_digest r = py.sha256_hex (py.encode (py.dumps_canonical r.arguments))

  -- The payload of a token; `jti` is the result of secrets.token_urlsafe.
  unfoldable pub payload_of : ActionRequest → String → ℕ → Dict
  payload_of r jti expiry =
      ("v", int (pos 1))
      ∷ ("jti", str jti)
      ∷ ("action", str r.action)
      ∷ ("target", str r.target)
      ∷ ("arguments_sha256", str (arguments_digest r))
      ∷ ("origin", str (origin_value r.origin))
      ∷ ("expires_at", str (py.iso_format expiry))
      ∷ []

  unfoldable pub sign : Bytes → Dict → String
  sign key payload =
      let body = py.encode (py.dumps_compact payload) in
      String.◌++◌ (py.b64 body) (String.◌++◌ "." (py.b64 (py.hmac key body)))

  -- `now` in microseconds
  unfoldable pub issue : CapabilityAuthority → String → ℕ → ActionRequest → ℕ → Outcome String
  issue a jti now r ttl_seconds = do
    reject_if (ltb ttl_seconds 1 || ltb 120 ttl_seconds)
        "capability TTL must be between 1 and 120 seconds"
    ok (sign a.key (payload_of r jti (now + ttl_seconds * 1000000)))

  abbrev pub expiry_of : Option Value → Outcome ℕ
  expiry_of none = raised key_error
  expiry_of (some (str t)) = parse_timestamp t
  expiry_of (some _) = raised (value_error "timestamp must be a string")

  -- str(payload.get("jti", ""))
  unfoldable pub jti_of : Option Value → String
  jti_of none = ""
  jti_of (some (str t)) = t
  jti_of (some v) = py.to_str v

  unfoldable pub matches : Dict → ActionRequest → Bool
  matches payload r =
      is_text (lookup "action" payload) r.action
      && is_text (lookup "target" payload) r.target
      && is_text (lookup "arguments_sha256" payload) (arguments_digest r)
      && is_text (lookup "origin" payload) (origin_value r.origin)

  -- The body, the signature and the payload of a token.
  unfoldable pub read_token : String → Outcome (Bytes × Bytes × Value)
  read_token token = do
    parts ← malformed (split_dot token)
    body ← malformed (py.unb64 parts.0)
    signature ← malformed (py.unb64 parts.1)
    text ← malformed (py.decode body)
    value ← malformed (py.loads text)
    ok (body, signature, value)

  -- The checks of `verify` after the signature is found valid.
  unfoldable pub check_payload : List String → ℕ → Value → ActionRequest → Outcome Dict
  check_payload consumed now value r = do
    payload ← as_dict value
    capability_if (not (is_one (lookup "v" payload))) "unsupported capability version"
    expiry ← expiry_of (lookup "expires_at" payload)
    capability_if (leb expiry now) "capability expired"
    capability_if (not (matches payload r)) "capability is not valid for this request"
    let jti = jti_of (lookup "jti" payload)
    capability_if (str_eq jti "" || elem jti consumed) "capability was already consumed"
    ok payload

  unfoldable pub check : CapabilityAuthority → ℕ → String → ActionRequest → Outcome Dict
  check a now token r = do
    parts ← read_token token
    capability_if (not (text_eq parts.1 (py.hmac a.key parts.0))) "invalid capability signature"
    check_payload a.consumed now parts.2 r

  abbrev pub consume_jti : Bool → Outcome Dict → CapabilityAuthority → CapabilityAuthority
  consume_jti true (ok payload) a = record a {
    consumed = jti_of (lookup "jti" payload) ∷ a.consumed;
  }
  consume_jti _ _ a = a

  unfoldable pub verify :
      CapabilityAuthority → ℕ → String → ActionRequest → Bool → Outcome Dict × CapabilityAuthority
  verify a now token r consume =
      let result = check a now token r in (result, consume_jti consume result a)
