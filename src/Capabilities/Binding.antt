-- ===== src/Capabilities/Binding.antt =====
-- What a token that `verify` accepts is bound to, and that it is accepted once.
use clausis.Prelude.{
  ℕ, ◌<◌, String, ◌≡◌, ◌≢◌, refl, sym, ap, subst, ◌∙◌, ◌∷◌, Bool, true, false, not, ◌||◌, List,
  Option, none, some, arith, eq_iff, eq_refl, str_eq, leb, elem, lookup,
}
use clausis.Outcome.{Exception, Outcome, ok, raised, ◌>>=◌, ◌>>◌, >>=-eq-ok}
use clausis.Stdlib.{Stdlib, Bytes}
use clausis.Text.{text_eq}
use clausis.Models.Value.{Value, Dict, null, bool, int, float, str, arr, obj}
use clausis.Models.Request.{ActionRequest, origin_value}
use clausis.Capabilities.{
  CapabilityAuthority, is_text, is_one, matches, expiry_of, jti_of, as_dict, capability_if,
  consume_jti, arguments_digest, read_token, check_payload, check, verify,
}

is_text-eq : (v : Option Value) (s : String) → is_text v s ≡ true → v ≡ some (str s)
unfolding is_text
is_text-eq none s h = cc
is_text-eq (some null) s h = cc
is_text-eq (some (bool _)) s h = cc
is_text-eq (some (int _)) s h = cc
is_text-eq (some (float _)) s h = cc
is_text-eq (some (arr _)) s h = cc
is_text-eq (some (obj _)) s h = cc
is_text-eq (some (str t)) s h = cc ((eq_iff t s).0 h)

-- What the checks of `check_payload` have found when they let the payload through.
guards :
    (expiry : Outcome ℕ) (one matched unnamed used : Bool) (now : ℕ) (p q : Dict)
    → (capability_if (not one) "unsupported capability version" >> do
      e ← expiry
      capability_if (leb e now) "capability expired"
      capability_if (not matched) "capability is not valid for this request"
      capability_if (unnamed || used) "capability was already consumed"
      ok p)
      ≡ ok q
    → (e : ℕ) × (expiry ≡ ok e)
      × (one ≡ true)
      × (now < e)
      × (matched ≡ true)
      × (unnamed ≡ false)
      × (used ≡ false)
      × (p ≡ q)
guards (ok e) one matched unnamed used now p q h =
    (e, refl, ground arith, ground arith, ground arith, ground arith, ground arith, ground arith)
guards (raised x) one matched unnamed used now p q h = absurd (ground arith)

signature_checked :
    (valid : Bool) (rest : Outcome Dict) (p : Dict)
    → (capability_if (not valid) "invalid capability signature" >> rest) ≡ ok p
    → (valid ≡ true) × (rest ≡ ok p)
signature_checked true rest p h = (refl, h)
signature_checked false rest p h = absurd (ground arith)

module _ ⦃py : Stdlib⦄ where
  -- The token's payload names the request's action, target, arguments and origin, has not expired,
  -- and its identifier is not empty and was not used before.
  pub record IsBound (consumed : List String) (now : ℕ) (payload : Dict) (r : ActionRequest)
      : Type 0 where
    pub version : is_one (lookup "v" payload) ≡ true
    pub action : lookup "action" payload ≡ some (str r.action)
    pub target : lookup "target" payload ≡ some (str r.target)
    pub arguments : lookup "arguments_sha256" payload ≡ some (str (arguments_digest r))
    pub origin : lookup "origin" payload ≡ some (str (origin_value r.origin))
    pub expiry : ℕ
    pub expires : expiry_of (lookup "expires_at" payload) ≡ ok expiry
    pub in_time : now < expiry
    pub named : jti_of (lookup "jti" payload) ≢ ""
    pub fresh : elem (jti_of (lookup "jti" payload)) consumed ≡ false

  matches-eq :
      (payload : Dict) (r : ActionRequest)
      → matches payload r ≡ true
      → (lookup "action" payload ≡ some (str r.action))
        × (lookup "target" payload ≡ some (str r.target))
        × (lookup "arguments_sha256" payload ≡ some (str (arguments_digest r)))
        × (lookup "origin" payload ≡ some (str (origin_value r.origin)))
  unfolding matches
  matches-eq payload r h = ground (
    arith,
    is_text-eq (lookup "action" payload) r.action,
    is_text-eq (lookup "target" payload) r.target,
    is_text-eq (lookup "arguments_sha256" payload) (arguments_digest r),
    is_text-eq (lookup "origin" payload) (origin_value r.origin),
  )

  check_payload-IsBound :
      (consumed : List String) (now : ℕ) (v : Value) (r : ActionRequest) (payload : Dict)
      → check_payload consumed now v r ≡ ok payload
      → (as_dict v ≡ ok payload) × IsBound consumed now payload r
  unfolding check_payload
  check_payload-IsBound consumed now v r payload h =
      let (p, read, h) = >>=-eq-ok (as_dict v) _ h in
      let jti = jti_of (lookup "jti" p) in
      let (e, expires, version, in_time, matched, unnamed, fresh, same) =
        guards (expiry_of (lookup "expires_at" p)) (is_one (lookup "v" p)) (matches p r)
          (str_eq jti "") (elem jti consumed) now p payload h in
      let (a, t, d, o) = matches-eq p r matched in
      let bound : IsBound consumed now p r = record {
        version = version;
        action = a;
        target = t;
        arguments = d;
        origin = o;
        expiry = e;
        expires = expires;
        in_time = in_time;
        named = λ z. cc (unnamed, (eq_iff jti "").1 z);
        fresh = fresh;
      } in
      (read ∙ ap ok same, subst (λ (q : Dict). IsBound consumed now q r) same bound)

  -- What is known of a token that `check` accepts.
  pub record IsSigned (a : CapabilityAuthority) (token : String) (payload : Dict) : Type 0 where
    pub body : Bytes
    pub signature : Bytes
    pub value : Value
    pub read : read_token token ≡ ok (body, signature, value)
    pub signed : text_eq signature (py.hmac a.key body) ≡ true
    pub decoded : as_dict value ≡ ok payload

  pub check-IsBound :
      (a : CapabilityAuthority) (now : ℕ) (token : String) (r : ActionRequest) (payload : Dict)
      → check a now token r ≡ ok payload
      → IsSigned a token payload × IsBound a.consumed now payload r
  unfolding check
  check-IsBound a now token r payload h =
      let ((body, signature, value), read, h) = >>=-eq-ok (read_token token) _ h in
      let (signed, h) = signature_checked (text_eq signature (py.hmac a.key body)) _ payload h in
      let (decoded, bound) = check_payload-IsBound a.consumed now value r payload h in
      (
        record {
          body = body;
          signature = signature;
          value = value;
          read = read;
          signed = signed;
          decoded = decoded;
        },
        bound,
      )

  -- A token that `verify` accepts was signed with the authority's key, and its payload is bound to
  -- the request: same action, target, arguments digest and origin, not yet expired, and an identifier
  -- that is not empty and was not used. Afterwards exactly that identifier is used as well.
  pub verify_binds :
      (a b : CapabilityAuthority) (now : ℕ) (token : String) (r : ActionRequest) (payload : Dict)
      → verify a now token r true ≡ (ok payload, b)
      → IsSigned a token payload
        × IsBound a.consumed now payload r
        × (b ≡ record a { consumed = jti_of (lookup "jti" payload) ∷ a.consumed })
  unfolding verify
  verify_binds a b now token r payload h =
      let accepted : check a now token r ≡ ok payload =
        ap (λ (t : Outcome Dict × CapabilityAuthority). t.0) h in
      let (signed, bound) = check-IsBound a now token r payload accepted in
      (
        signed,
        bound,
        sym (ap (λ (t : Outcome Dict × CapabilityAuthority). t.1) h)
            ∙ ap (λ (o : Outcome Dict). consume_jti true o a) accepted,
      )

  -- A refused token changes nothing.
  pub verify_refused :
      (a : CapabilityAuthority) (now : ℕ) (token : String) (r : ActionRequest) (c : Bool)
      (e : Exception)
      → (verify a now token r c).0 ≡ raised e
      → (verify a now token r c).1 ≡ a
  unfolding verify
  verify_refused a now token r true e h = ap (λ (o : Outcome Dict). consume_jti true o a) h
  verify_refused a now token r false e h = refl

  -- A token has one payload, whoever reads it.
  IsSigned-payload :
      (a c : CapabilityAuthority) (token : String) (p q : Dict)
      → IsSigned a token p
      → IsSigned c token q
      → p ≡ q
  IsSigned-payload a c token p q first second =
      let same_parts = sym first.read ∙ second.read in
      ground (arith, first.decoded, second.decoded, same_parts)

  -- No payload is bound to a request where the authority has already used its identifier.
  pub used_up :
      (a c : CapabilityAuthority) (token : String) (p q : Dict) (later : ℕ) (r : ActionRequest)
      → IsSigned a token p
      → elem (jti_of (lookup "jti" p)) c.consumed ≡ true
      → IsSigned c token q
      → IsBound c.consumed later q r
      → ⊥
  used_up a c token p q later r first used second bound =
      cc (used, bound.fresh, IsSigned-payload a c token p q first second)

  -- Once a token was accepted and consumed, no later verification of it succeeds: at whatever time,
  -- for whatever request, by an authority that still holds all identifiers used so far.
  pub verify_no_replay :
      (a b c : CapabilityAuthority) (now later : ℕ) (token : String) (r r' : ActionRequest)
      (payload payload' : Dict) (consume : Bool)
      → verify a now token r true ≡ (ok payload, b)
      → ((j : String) → elem j b.consumed ≡ true → elem j c.consumed ≡ true)
      → (verify c later token r' consume).0 ≢ ok payload'
  unfolding verify
  verify_no_replay a b c now later token r r' payload payload' consume h keeps again =
      let (first, _, after) = verify_binds a b now token r payload (unfold verify in h) in
      let (second, bound) = check-IsBound c later token r' payload' again in
      let jti = jti_of (lookup "jti" payload) in
      let used : elem jti c.consumed ≡ true = keeps jti (rw after (ground (arith, eq_refl jti))) in
      used_up a c token payload payload' later r' first used second bound
