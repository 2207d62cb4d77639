-- ===== src/Tests/CapabilityRuns.antt =====
-- Runs of the theorems on src/clausis/capabilities.py.
use clausis.Prelude.{
  ◌≡◌, ◌≢◌, refl, String, true, ◌&&◌, ◌||◌, not, [], ◌∷◌, ltb, str_eq, elem, lookup,
}
use clausis.Outcome.{ok, raised, capability_error, is_ok}
use clausis.Text.{text_eq}
use clausis.Models.Value.{to_fields}
use clausis.Models.Request.{parse_timestamp}
use clausis.Capabilities.{
  issue, verify, sign, payload_of, arguments_digest, jti_of, check, read_token, split_dot,
  check_payload, is_one, is_text, matches,
}
use clausis.Capabilities.Binding.{IsBound, IsSigned, verify_binds, verify_no_replay}
use clausis.Capabilities.RoundTrip.{IsFaithful, issue-verify_iff}
use clausis.Tests.Fixtures.{ascii, authority, spent, louder, token_payload, key}

pub louder-accepted : verify authority 1000001 "YQ.YQ" louder true ≡ (ok token_payload, spent)
unfolding verify check read_token split_dot check_payload is_one is_text matches arguments_digest
    jti_of parse_timestamp text_eq lookup
louder-accepted = refl

verify_binds_example :
    IsSigned authority "YQ.YQ" token_payload
    × IsBound [] 1000001 token_payload louder
    × (spent ≡ record authority { consumed = jti_of (lookup "jti" token_payload) ∷ [] })
verify_binds_example =
    verify_binds authority spent 1000001 "YQ.YQ" louder token_payload louder-accepted

still_spent : (j : String) → elem j spent.consumed ≡ true → elem j spent.consumed ≡ true
still_spent j h = h

verify_no_replay_example : (verify spent 1000005 "YQ.YQ" louder true).0 ≢ ok token_payload
verify_no_replay_example =
    verify_no_replay authority spent spent 1000001 1000005 "YQ.YQ" louder louder token_payload
      token_payload true louder-accepted still_spent

late :
    (verify authority 61000000 "YQ.YQ" louder true).0
    ≡ raised (capability_error "capability expired")
unfolding verify check read_token split_dot check_payload is_one parse_timestamp text_eq lookup
late = refl

louder-issued : issue authority "j1" 1000000 louder 60 ≡ ok "YQ.YQ"
unfolding issue sign
louder-issued = refl

pub louder-IsFaithful : IsFaithful key (payload_of louder "j1" 61000000) 61000000
unfolding payload_of arguments_digest parse_timestamp
louder-IsFaithful = record {
  text = "{}";
  text_dumped = refl;
  body = 97 ∷ [];
  body_encoded = refl;
  without_dot = refl;
  body_decoded = refl;
  signature_decoded = refl;
  text_decoded = refl;
  fields = to_fields token_payload;
  loaded = refl;
  same_values = λ k. refl;
  expiry_parsed = refl;
}

issue-verify_iff_example : is_ok (verify authority 2000000 "YQ.YQ" louder true).0 ≡ (
    ltb 2000000 61000000
    && (str_eq "audio.volume.up" "audio.volume.up"
        && str_eq "" ""
        && str_eq (arguments_digest louder) (arguments_digest louder)
        && str_eq "hermes" "hermes")
    && not (str_eq "j1" "" || elem "j1" []))
issue-verify_iff_example =
    issue-verify_iff authority authority "j1" "YQ.YQ" 1000000 60 2000000 louder louder true
      louder-issued refl louder-IsFaithful
