-- ===== src/Capabilities/RoundTrip.antt =====
-- A token that `issue` makes is accepted by `verify` exactly for its request, in its time, once.
use Prim.Native.String
use text.Mathlib.TextLemmas.{nil-append, cons-append}
use clausis.Prelude.{
  ℕ, ◌+◌, ◌*◌, String, ◌≡◌, refl, ◌∙◌, Bool, true, not, ◌&&◌, ◌||◌, List, [], ◌∷◌, some, arith,
  str_eq, ltb, elem, lookup,
}
use clausis.Outcome.{ok, is_ok}
use clausis.Stdlib.{Stdlib, Bytes}
use clausis.Text.{text_eq}
use clausis.Models.Value.{Fields, Dict, obj, of_fields}
use clausis.Models.Request.{ActionRequest, origin_value, parse_timestamp}
use clausis.Capabilities.{
  CapabilityAuthority, is_text, is_one, matches, jti_of, arguments_digest, read_token,
  check_payload, check, verify, issue, sign, payload_of, split_dot,
}

-- no "." in a text
abbrev pub dotless : String → Bool
dotless String.[] = true
dotless (String.◌∷◌ c s) = not (str_eq (String.◌∷◌ c String.[]) ".") && dotless s

split_dot-append :
    (a b : String) → dotless a ≡ true → split_dot (String.◌++◌ a (String.◌++◌ "." b)) ≡ some (a, b)
unfolding split_dot
split_dot-append String.[] b h = rw (nil-append, cons-append, nil-append) (ground arith)
split_dot-append (String.◌∷◌ c a) b h = rw cons-append (ground (arith, split_dot-append a b))

text_eq_refl : (s : List ℕ) → text_eq s s ≡ true
unfolding text_eq
text_eq_refl [] = refl
text_eq_refl (c ∷ s) = ground (arith, text_eq_refl s)

module _ ⦃py : Stdlib⦄ where
  -- The codecs give back what they were given, for the one token with this key and payload: base64
  -- without a dot, UTF-8, JSON up to the order of the keys, and the timestamp.
  pub record IsFaithful (key : Bytes) (payload : Dict) (expiry : ℕ) : Type 0 where
    pub text : String
    pub text_dumped : text ≡ py.dumps_compact payload
    pub body : Bytes
    pub body_encoded : body ≡ py.encode text
    pub without_dot : dotless (py.b64 body) ≡ true
    pub body_decoded : py.unb64 (py.b64 body) ≡ some body
    pub signature_decoded : py.unb64 (py.b64 (py.hmac key body)) ≡ some (py.hmac key body)
    pub text_decoded : py.decode body ≡ some text
    pub fields : Fields
    pub loaded : py.loads text ≡ some (obj fields)
    pub same_values : (k : String) → lookup k (of_fields fields) ≡ lookup k payload
    pub expiry_parsed : parse_timestamp (py.iso_format expiry) ≡ ok expiry

  read_token-sign :
      (key : Bytes) (payload : Dict) (expiry : ℕ) (f : IsFaithful key payload expiry)
      → read_token (sign key payload) ≡ ok (f.body, py.hmac key f.body, obj f.fields)
  unfolding read_token sign
  read_token-sign key payload expiry f = rw (
    ← f.text_dumped,
    ← f.body_encoded,
    split_dot-append _ _ f.without_dot,
    f.body_decoded,
    f.signature_decoded,
    f.text_decoded,
    f.loaded,
  )

  -- Every lookup that `check_payload` makes sees the value that `payload_of` put there.
  matches-payload_of :
      (fields : Fields) (r r' : ActionRequest) (jti : String) (expiry : ℕ)
      → ((k : String) → lookup k (of_fields fields) ≡ lookup k (payload_of r jti expiry))
      → matches (of_fields fields) r' ≡ (
          str_eq r.action r'.action
          && str_eq r.target r'.target
          && str_eq (arguments_digest r) (arguments_digest r')
          && str_eq (origin_value r.origin) (origin_value r'.origin))
  unfolding matches is_text payload_of lookup
  matches-payload_of fields r r' jti expiry same =
      cc (same "action", same "target", same "arguments_sha256", same "origin")

  check_payload-payload_of :
      (consumed : List String) (later : ℕ) (fields : Fields) (r r' : ActionRequest) (jti : String)
      (expiry : ℕ)
      → ((k : String) → lookup k (of_fields fields) ≡ lookup k (payload_of r jti expiry))
      → parse_timestamp (py.iso_format expiry) ≡ ok expiry
      → is_ok (check_payload consumed later (obj fields) r') ≡ (
          ltb later expiry
          && matches (of_fields fields) r'
          && not (str_eq jti "" || elem jti consumed))
  unfolding check_payload is_one jti_of payload_of lookup
  check_payload-payload_of consumed later fields r r' jti expiry same parsed =
      rw (same "v", same "expires_at", same "jti", parsed) (ground arith)

  -- A token that was issued with a working codec is accepted, by any authority with the same key, at
  -- any later moment and for any request, exactly if the moment lies before the expiry, the request
  -- has the action, the target, the arguments digest and the origin of the one it was issued for, and
  -- its identifier is neither empty nor used.
  pub issue-verify_iff :
      (a b : CapabilityAuthority) (jti token : String) (now ttl later : ℕ) (r r' : ActionRequest)
      (consume : Bool)
      → issue a jti now r ttl ≡ ok token
      → b.key ≡ a.key
      → IsFaithful a.key (payload_of r jti (now + ttl * 1000000)) (now + ttl * 1000000)
      → is_ok (verify b later token r' consume).0 ≡ (
          ltb later (now + ttl * 1000000)
          && (str_eq r.action r'.action
              && str_eq r.target r'.target
              && str_eq (arguments_digest r) (arguments_digest r')
              && str_eq (origin_value r.origin) (origin_value r'.origin))
          && not (str_eq jti "" || elem jti b.consumed))
  unfolding issue verify check
  issue-verify_iff a b jti token now ttl later r r' consume h k f =
      let expiry = now + ttl * 1000000 in
      let payload = payload_of r jti expiry in
      let signed : token ≡ sign a.key payload = ground arith in
      rw (signed, read_token-sign a.key payload expiry f, k, text_eq_refl (py.hmac a.key f.body))
        (check_payload-payload_of b.consumed later f.fields r r' jti expiry f.same_values
            f.expiry_parsed
          ∙ rw (matches-payload_of f.fields r r' jti expiry f.same_values))
