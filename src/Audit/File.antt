-- ===== src/Audit/File.antt =====
-- `AuditLog` of src/clausis/audit.py. The log file is a text, or absent; what the file system may
-- refuse is not modelled.
use Prim.Native.Char.{Char, code}
use Prim.Native.String
use clausis.Prelude.{
  ℕ, String, Bool, true, false, ◌||◌, ◌&&◌, List, [], ◌∷◌, ◌++◌, Option, none, some, if◌then◌else◌,
  ◌==◌, leb, ltb, length, lookup, without, str_eq, any,
}
use clausis.Outcome.{
  Outcome, ok, raised, value_error, type_error, key_error, attribute_error, reject_if, ◌>>=◌, ◌>>◌,
}
use clausis.Stdlib.{Stdlib, Bytes}
use clausis.Text.{codes}
use clausis.Models.Value.{Value, Dict, str, arr, obj, to_fields, of_fields}
use clausis.Models.Request.{ActionRequest, ActionResult, to_dict, result_to_dict}
use clausis.Audit.Redaction.{redact_fields, logged_request, logged_result}

pub record AuditLog : Type 0 where
  pub contents : Option String
  pub key : Bytes
  pub previous : String

-- The characters at which str.splitlines breaks a text.
abbrev pub is_boundary : ℕ → Bool
is_boundary c =
    leb 10 c && leb c 13 || leb 28 c && leb c 30 || c == 0x85 || c == 0x2028 || c == 0x2029

abbrev onto_line : Char → List String → List String
onto_line c [] = (String.◌∷◌ c String.[]) ∷ []
onto_line c (l ∷ ls) = (String.◌∷◌ c l) ∷ ls

-- s.splitlines(); "\r\n" counts as two boundaries here, and JSON text holds no "\r"
unfoldable pub splitlines : String → List String
splitlines String.[] = []
splitlines (String.◌∷◌ c s) =
    let rest = splitlines s in if is_boundary (code c) then "" ∷ rest else onto_line c rest

abbrev pub zeros : String
zeros = "0000000000000000000000000000000000000000000000000000000000000000"

abbrev pub last_line : List String → Option String
last_line [] = none
last_line (l ∷ []) = some l
last_line (l ∷ (m ∷ ls)) = last_line (m ∷ ls)

-- entry.pop("chain_hmac")
abbrev pub pop_chain : Value → Outcome (Value × Dict)
pop_chain (obj fields) = elim (lookup "chain_hmac" (of_fields fields)) [
  | none ↦ raised key_error
  | some signature ↦ ok (signature, without "chain_hmac" (of_fields fields))
]
pop_chain (arr _) = raised type_error
pop_chain _ = raised attribute_error

-- entry.get("previous") == previous
abbrev pub follows : Option Value → String → Bool
follows (some (str t)) previous = str_eq t previous
follows _ previous = false

-- hmac.compare_digest(signature, expected), for an ASCII text `expected`
abbrev pub compare_digest : Value → String → Outcome (Option String)
compare_digest (str s) expected =
    if any (λ c. ltb 127 c) (codes s)
    then raised type_error
    else ok (if str_eq s expected then some s else none)
compare_digest _ expected = raised type_error

module _ ⦃py : Stdlib⦄ where
  abbrev pub load_line : String → Outcome Value
  load_line line = elim (py.loads line) [
    | none ↦ raised (value_error "JSONDecodeError")
    | some v ↦ ok v
  ]

  unfoldable pub digest_of : Bytes → Dict → String
  digest_of key entry = py.hmac_hex key (py.encode (py.dumps_canonical entry))

  -- str(entry.get("chain_hmac", ""))
  abbrev pub chain_hmac_of : Value → Outcome String
  chain_hmac_of (obj fields) = elim (lookup "chain_hmac" (of_fields fields)) [
    | none ↦ ok ""
    | some (str t) ↦ ok t
    | some v ↦ ok (py.to_str v)
  ]
  chain_hmac_of (arr _) = raised attribute_error
  chain_hmac_of _ = raised attribute_error

  unfoldable pub load_tail_hash : Option String → Outcome String
  load_tail_hash none = ok zeros
  load_tail_hash (some contents) = elim (last_line (splitlines contents)) [
    | none ↦ ok zeros
    | some line ↦ load_line line >>= chain_hmac_of
  ]

  -- AuditLog.__init__
  unfoldable pub open_log : Option String → Bytes → Outcome AuditLog
  open_log contents key = do
    reject_if (ltb (length key) 32) "audit key must contain at least 32 bytes"
    previous ← load_tail_hash contents
    ok (record { contents = contents; key = key; previous = previous })

  -- The entry of a request and its result, before the digest is added.
  unfoldable pub entry_of : ℕ → ActionRequest → ActionResult → String → Dict
  entry_of now r result previous =
      ("timestamp", str (py.iso_format now))
      ∷ ("request", obj (redact_fields (to_fields (to_dict (logged_request r)))))
      ∷ ("result", obj (redact_fields (to_fields (result_to_dict (logged_result r.action result)))))
      ∷ ("previous", str previous)
      ∷ []

  unfoldable pub line_of : Dict → String → String
  line_of entry digest = py.dumps_line (entry ++ ("chain_hmac", str digest) ∷ [])

  abbrev pub contents_or_empty : Option String → String
  contents_or_empty none = ""
  contents_or_empty (some contents) = contents

  -- AuditLog.append at the time `now`; it also returns the new value of `previous`.
  unfoldable pub append : ℕ → ActionRequest → ActionResult → AuditLog → AuditLog
  append now r result log =
      let entry = entry_of now r result log.previous in
      let digest = digest_of log.key entry in
      record log {
        contents = some (
            String.◌++◌ (contents_or_empty log.contents) (String.◌++◌ (line_of entry digest) "\n"));
        previous = digest;
      }

  -- One round of the loop of `verify`: the new value of `previous`, or none where it returns False.
  unfoldable pub verify_line : Bytes → String → String → Outcome (Option String)
  verify_line key previous line = do
    value ← load_line line
    (signature, entry) ← pop_chain value
    elim (follows (lookup "previous" entry) previous) [
      | true ↦ compare_digest signature (digest_of key entry)
      | false ↦ ok none
    ]

  -- The loop of `verify`: the last value of `previous`, or none where it returns False.
  unfoldable pub verify_lines : Bytes → String → List String → Outcome (Option String)
  verify_lines key previous [] = ok (some previous)
  verify_lines key previous (line ∷ lines) = do
    next ← verify_line key previous line
    elim next [ none ↦ ok none | some p ↦ verify_lines key p lines ]

  abbrev is_true : Option String → Bool
  is_true none = false
  is_true (some _) = true

  -- AuditLog.verify
  unfoldable pub verify : AuditLog → Outcome Bool
  verify log = elim log.contents [
    | none ↦ ok true
    | some contents ↦ do last ← verify_lines log.key zeros (splitlines contents); ok (is_true last)
  ]
