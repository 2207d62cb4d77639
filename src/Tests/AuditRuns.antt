-- ===== src/Tests/AuditRuns.antt =====
-- Runs of the theorems on src/clausis/audit.py.
use clausis.Prelude.{
  String, ◌↔◌, ap, sym, ◌∙◌, ◌≡◌, refl, true, false, [], ◌∷◌, none, some, ltb, any, arith, lookup,
  without,
}
use clausis.Outcome.{ok}
use clausis.Text.{codes}
use clausis.Stdlib.{Stdlib}
use clausis.Models.Value.{Dict, obj, to_fields, of_fields}
use clausis.Models.Request.{ActionRequest, medium}
use clausis.Policy.Rule.{ActionPolicy, spoken_text}
use clausis.Policy.Evaluate.{policy_of}
use clausis.Audit.File.{
  AuditLog, append, verify, open_log, verify_lines, verify_line, digest_of, entry_of, zeros,
}
use clausis.Audit.Privacy.{FoldsKeys, append_hides_token, append-hides_target}
use clausis.Audit.Lines.{text_of}
use clausis.Audit.Chain.{signed_entry, IsChained, ReadsBack, append-IsChained, verify_iff}
use clausis.Audit.Tamper.{
  IsDigestChain, stop, verify_lines-IsDigestChain, IsDigestChain-verify_lines,
}
use clausis.Tests.Fixtures.{ascii, louder, done, empty_log, key}

folds : FoldsKeys
folds c h = ground arith

append_hides_token_example :
    append 5 (record louder { capability_token = none }) done empty_log
    ≡ append 5 louder done empty_log
append_hides_token_example = append_hides_token 5 louder none done empty_log folds

abbrev dictated : ActionRequest
dictated = record louder { action = "desktop.text.set"; target = "geheim" }

abbrev dictated_policy : ActionPolicy
dictated_policy = record {
  minimum_risk = medium;
  reversible = true;
  command = none;
  validator = some spoken_text;
  privileged = false;
}

dictated-listed : policy_of "desktop.text.set" ≡ some dictated_policy
unfolding policy_of
dictated-listed = refl

append-hides_target_example :
    append 5 (record dictated { target = "anders" }) done empty_log
    ≡ append 5 dictated done empty_log
append-hides_target_example =
    append-hides_target 5 dictated "anders" done empty_log dictated_policy dictated-listed refl

-- the entry that the first append writes
abbrev first_entry : Dict
first_entry = signed_entry ⦃py = ascii⦄ 5 louder done empty_log

-- a codec that knows this one line
abbrev codec : Stdlib
codec = record ascii { loads = λ s. some (obj (to_fields first_entry)) }

of_fields-to_fields : (d : Dict) → of_fields (to_fields d) ≡ d
of_fields-to_fields [] = refl
of_fields-to_fields ((k, v) ∷ d) = ap (λ (d : Dict). (k, v) ∷ d) (of_fields-to_fields d)

empty-IsChained : IsChained ⦃py = codec⦄ empty_log
unfolding text_of
empty-IsChained = record { lines = []; written = refl; whole = refl; chained = stop }

same_entry : signed_entry ⦃py = codec⦄ 5 louder done empty_log ≡ first_entry
unfolding entry_of digest_of clausis.Audit.Redaction.redact_fields
    clausis.Audit.Redaction.sensitive_key clausis.Audit.Redaction.ends_with clausis.Text.text_eq
    clausis.Text.casefold clausis.Models.Request.to_dict clausis.Models.Request.result_to_dict
same_entry = refl

first-ReadsBack : ReadsBack ⦃py = codec⦄ (signed_entry ⦃py = codec⦄ 5 louder done empty_log)
first-ReadsBack = record {
  fields = to_fields first_entry;
  loaded = refl;
  same = λ k. ap (lookup k) (of_fields-to_fields first_entry ∙ sym same_entry);
  canonical = λ k. refl;
}

append-IsChained_example : IsChained ⦃py = codec⦄ (append ⦃py = codec⦄ 5 louder done empty_log)
append-IsChained_example =
    append-IsChained ⦃py = codec⦄ 5 louder done empty_log empty-IsChained first-ReadsBack refl

one_line-accepted : verify_lines key zeros ("L" ∷ []) ≡ ok (some "d1")
unfolding verify_lines verify_line digest_of lookup without
one_line-accepted = refl

verify_lines-IsDigestChain_example : IsDigestChain key zeros ("L" ∷ []) "d1"
verify_lines-IsDigestChain_example =
    verify_lines-IsDigestChain key zeros "d1" ("L" ∷ []) one_line-accepted

digests_ascii : (d : Dict) → any (λ c. ltb 127 c) (codes (digest_of key d)) ≡ false
unfolding digest_of
digests_ascii d = refl

linked_line : IsDigestChain key zeros ("L" ∷ []) "d1"
linked_line = verify_lines-IsDigestChain key zeros "d1" ("L" ∷ []) one_line-accepted

IsDigestChain-verify_lines_example : verify_lines key zeros ("L" ∷ []) ≡ ok (some "d1")
IsDigestChain-verify_lines_example = IsDigestChain-verify_lines key digests_ascii linked_line

abbrev one_line_log : AuditLog
one_line_log = record { contents = some (text_of ("L" ∷ [])); key = key; previous = zeros }

verify_iff_example : (verify one_line_log ≡ ok true) ↔ (
    (q : String) × IsDigestChain key zeros ("L" ∷ []) q
    × (open_log one_line_log.contents key ≡ ok (record one_line_log { previous = q })))
verify_iff_example = verify_iff one_line_log ("L" ∷ []) digests_ascii refl refl refl
