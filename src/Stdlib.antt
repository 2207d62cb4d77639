-- ===== src/Stdlib.antt =====
-- What the model takes from Python's standard library without spelling it out: the character
-- tables, the JSON, base64 and ISO 8601 codecs, and the cryptographic digests. Lists, texts,
-- dictionaries, slices and regular expressions are modelled by functions of their own.
use clausis.Prelude.{ℕ, String, Bool, List, Option}
use clausis.Outcome.{Outcome}
use clausis.Models.Value.{Value, Dict}

abbrev pub Bytes : Type 0
Bytes = List ℕ

-- A text as the list of its code points.
abbrev pub Text : Type 0
Text = List ℕ

-- A parsed `datetime`: microseconds since the epoch, and whether it carries a timezone.
pub record Stamp : Type 0 where
  pub aware : Bool
  pub instant : ℕ

pub record Stdlib : Type 0 where
  -- str.isspace, str.isdigit, str.isprintable and `\w` of one character
  pub is_space : ℕ → Bool
  pub is_digit : ℕ → Bool
  pub is_printable : ℕ → Bool
  pub is_word : ℕ → Bool
  -- str.isalnum
  pub is_alnum : ℕ → Bool
  -- the value that `int` reads a decimal digit as; none for digits such as superscripts
  pub digit_value : ℕ → Option ℕ
  -- the characters that str.casefold replaces one by
  pub fold : ℕ → List ℕ
  -- json.dumps(d, ensure_ascii=False); json.dumps(d, sort_keys=True, separators=(",", ":")) without
  -- and with ensure_ascii=False; json.dumps(d, sort_keys=True, ensure_ascii=False); json.loads
  pub dumps : Dict → String
  pub dumps_compact : Dict → String
  pub dumps_canonical : Dict → String
  pub dumps_line : Dict → String
  pub loads : String → Option Value
  -- datetime.isoformat of an instant in UTC, datetime.fromisoformat
  pub iso_format : ℕ → String
  pub from_iso : String → Option Stamp
  -- base64.urlsafe_b64encode without padding, urlsafe_b64decode
  pub b64 : Bytes → String
  pub unb64 : String → Option Bytes
  -- str.encode, bytes.decode
  pub encode : String → Bytes
  pub decode : Bytes → Option String
  -- hashlib.sha256().hexdigest(), hmac.new(key, body, sha256).digest() and .hexdigest()
  pub sha256_hex : Bytes → String
  pub hmac : Bytes → Bytes → Bytes
  pub hmac_hex : Bytes → Bytes → String
  -- hashlib.pbkdf2_hmac("sha256", password, salt, iterations, dklen = 32)
  pub pbkdf2 : Bytes → Bytes → ℕ → Bytes
  -- bytes.hex, bytes.fromhex
  pub hex : Bytes → String
  pub from_hex : String → Option Bytes
  -- str(x), f"{float(x):g}", f"{x / 100:.2f}" and "{x:02x}" of a JSON value, with what they raise
  pub to_str : Value → String
  pub format_general : Value → Outcome String
  pub format_hundredth : Value → Outcome String
  pub format_hex : Value → Outcome String
  -- f"{x:+d}"
  pub format_signed : Value → Outcome String
