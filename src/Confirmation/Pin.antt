-- ===== src/Confirmation/Pin.antt =====
-- `PinVerifier` of src/clausis/confirmation.py.
use clausis.Prelude.{
  ℕ, ◌≡◌, refl, String, Bool, true, false, not, ◌&&◌, ◌||◌, List, [], ◌∷◌, Option, none, some,
  arith, ◌==◌, leb, length, lookup, str_eq,
}
use clausis.Outcome.{Outcome, ok, raised, value_error, reject_if, ◌>>=◌, ◌>>◌, >>=-eq-ok}
use clausis.Stdlib.{Stdlib, Bytes}
use clausis.Text.{codes, is_digits, text_eq}
use clausis.Models.Value.{Value, Dict, str}
use clausis.Policy.Validators.Parameters.{keys_are}

pub record PinVerifier : Type 0 where
  pub salt : Bytes
  pub digest : Bytes

abbrev algorithm : String
algorithm = "pbkdf2-sha256-v1"

abbrev pub iterations : ℕ
iterations = 600000

abbrev iterations_text : String
iterations_text = "600000"

abbrev export_keys : List String
export_keys = "algorithm" ∷ "iterations" ∷ "salt" ∷ "digest" ∷ []

-- value == text
abbrev is_text : Option Value → String → Bool
is_text (some (str t)) s = str_eq t s
is_text _ s = false

module _ ⦃py : Stdlib⦄ where
  unfoldable pub derive : String → Bytes → Bytes
  derive pin salt = py.pbkdf2 (py.encode pin) salt iterations

  unfoldable pub validate_pin : String → Outcome (Unit {0})
  validate_pin pin =
      reject_if
        (not (is_digits (codes pin))
          || not (leb 6 (length (codes pin)) && leb (length (codes pin)) 12))
        "PIN must contain 6 to 12 digits"

  -- PinVerifier.enroll; `salt` is the result of secrets.token_bytes(16)
  unfoldable pub enroll : String → Bytes → Outcome PinVerifier
  enroll pin salt = do validate_pin pin; ok (record { salt = salt; digest = derive pin salt })

  abbrev hex_bytes : String → Outcome Bytes
  hex_bytes t = elim (py.from_hex t) [
    | none ↦ raised (value_error "non-hexadecimal number found in fromhex() arg")
    | some b ↦ ok b
  ]

  unfoldable pub of_hex : String → String → Outcome PinVerifier
  of_hex salt digest = do
    salt ← hex_bytes salt
    digest ← hex_bytes digest
    reject_if (not (length salt == 16) || not (length digest == 32)) "invalid PIN verifier size"
    ok (record { salt = salt; digest = digest })

  -- str(data[key]) of a key that is there
  abbrev text_of : Option Value → String
  text_of none = ""
  text_of (some (str t)) = t
  text_of (some v) = py.to_str v

  unfoldable pub from_export : Dict → Outcome PinVerifier
  unfolding lookup
  from_export d = do
    reject_if (not (keys_are export_keys d)) "invalid PIN verifier fields"
    reject_if (not (is_text (lookup "algorithm" d) algorithm)) "unsupported PIN verifier algorithm"
    reject_if (not (is_text (lookup "iterations" d) iterations_text))
        "unexpected PIN verifier work factor"
    of_hex (text_of (lookup "salt" d)) (text_of (lookup "digest" d))

  unfoldable pub export : PinVerifier → Dict
  export v =
      ("algorithm", str algorithm)
      ∷ ("iterations", str iterations_text)
      ∷ ("salt", str (py.hex v.salt))
      ∷ ("digest", str (py.hex v.digest))
      ∷ []

  -- PinVerifier.verify; encoding a text and deriving a key raise nothing here
  unfoldable pub verify_pin : PinVerifier → String → Bool
  verify_pin v pin = text_eq (derive pin v.salt) v.digest

  text_eq_refl : (s : Bytes) → text_eq s s ≡ true
  unfolding text_eq
  text_eq_refl [] = refl
  text_eq_refl (c ∷ s) = ground (arith, text_eq_refl s)

  -- A verifier that was enrolled with a 16-byte salt and has a 32-byte digest accepts its PIN, and
  -- exporting it and reading the export gives the same verifier, when the hexadecimal codec gives back
  -- the salt and the digest.
  pub enroll-export :
      (pin : String) (salt : Bytes) (v : PinVerifier)
      → enroll pin salt ≡ ok v
      → length salt ≡ 16
      → length (derive pin salt) ≡ 32
      → py.from_hex (py.hex salt) ≡ some salt
      → py.from_hex (py.hex (derive pin salt)) ≡ some (derive pin salt)
      → (verify_pin v pin ≡ true) × (from_export (export v) ≡ ok v)
  unfolding enroll verify_pin from_export export of_hex
  enroll-export pin salt v h s d hs hd =
      let (_, _, made) = >>=-eq-ok (validate_pin pin) _ h in
      (ground (arith, made, text_eq_refl (derive pin salt)), ground (arith, made, s, d, hs, hd))
