-- ===== src/Tests/Fixtures.antt =====
-- Concrete inputs: a small standard library over ASCII whose codecs know one token and one log line,
-- a request of Hermes, and a broker that counts the runs of its executor.
use clausis.Prelude.{
  ℕ, zero, suc, ◌+◌, Bool, true, ◌&&◌, ◌||◌, [], ◌∷◌, none, some, if◌then◌else◌, ◌==◌, leb, length,
  str_eq,
}
use clausis.Prelude.Int.{pos}
use clausis.Outcome.{ok}
use clausis.Stdlib.{Stdlib, Bytes}
use clausis.Models.Value.{Dict, int, str, obj, to_fields}
use clausis.Models.Request.{ActionRequest, ActionResult, hermes, low}
use clausis.Capabilities.{CapabilityAuthority}
use clausis.Audit.File.{AuditLog, zeros}
use clausis.Broker.Executor.{Executor}
use clausis.Broker.Submit.{Broker, Clock}

abbrev pub repeated : ℕ → ℕ → Bytes
repeated zero b = []
repeated (suc n) b = b ∷ repeated n b

abbrev pub token_payload : Dict
token_payload =
    ("v", int (pos 1))
    ∷ ("jti", str "j1")
    ∷ ("action", str "audio.volume.up")
    ∷ ("target", str "")
    ∷ ("arguments_sha256", str "a1")
    ∷ ("origin", str "hermes")
    ∷ ("expires_at", str "t1")
    ∷ []

abbrev pub logged_fields : Dict
logged_fields = ("previous", str zeros) ∷ ("chain_hmac", str "d1") ∷ []

abbrev lower : ℕ → ℕ
lower c = if leb b'A' c && leb c b'Z' then c + 32 else c

abbrev letter : ℕ → Bool
letter c = leb b'a' (lower c) && leb (lower c) b'z'

abbrev digit : ℕ → Bool
digit c = leb b'0' c && leb c b'9'

instance abbrev pub ascii : Stdlib
ascii = record {
  is_space = λ c. c == 32;
  is_digit = digit;
  is_printable = λ c. leb 32 c && leb c 126;
  is_word = λ c. letter c || digit c || c == 95;
  is_alnum = λ c. letter c || digit c;
  digit_value = λ c. none;
  fold = λ c. lower c ∷ [];
  dumps = λ d. "{}";
  dumps_compact = λ d. "{}";
  dumps_canonical = λ d. "{}";
  dumps_line = λ d. "L";
  loads = λ s. some (obj (to_fields (if str_eq s "L" then logged_fields else token_payload)));
  iso_format = λ n. "t1";
  from_iso = λ s. some (record { aware = true; instant = 61000000 });
  b64 = λ b. "YQ";
  unb64 = λ s. some (97 ∷ []);
  encode = λ s. 97 ∷ [];
  decode = λ b. some "{}";
  sha256_hex = λ b. "a1";
  hmac = λ k b. 97 ∷ [];
  hmac_hex = λ k b. "d1";
  pbkdf2 = λ p s n. repeated 32 7;
  hex = λ b. if length b == 16 then "aa" else "bb";
  from_hex = λ s. some (if str_eq s "aa" then repeated 16 5 else repeated 32 7);
  to_str = λ v. "";
  format_general = λ v. ok "";
  format_hundredth = λ v. ok "";
  format_hex = λ v. ok "";
  format_signed = λ v. ok "";
}

abbrev pub key : Bytes
key = repeated 32 1

abbrev pub authority : CapabilityAuthority
authority = record { key = key; consumed = [] }

abbrev pub spent : CapabilityAuthority
spent = record { key = key; consumed = "j1" ∷ [] }

-- what Hermes asks for, with the token of `token_payload`
abbrev pub louder : ActionRequest
louder = record {
  action = "audio.volume.up";
  target = "";
  arguments = [];
  origin = hermes;
  risk = low;
  reversible = true;
  capability_token = some "YQ.YQ";
  expires_at = none;
}

abbrev pub louder_unasked : ActionRequest
louder_unasked = record louder { capability_token = none }

abbrev pub done : ActionResult
done = record {
  status = "completed";
  message = "action completed";
  action = "audio.volume.up";
  confirmation_id = none;
  details = [];
}

abbrev pub empty_log : AuditLog
empty_log = record { contents = none; key = key; previous = zeros }

-- The world counts the executions.
abbrev pub counting : Executor ℕ
counting = record { execute = λ r p w. (ok done, w + 1) }

abbrev pub broker : Broker ℕ
broker = record { authority = authority; audit = some empty_log; world = 0 }

abbrev pub clock : Clock
clock = record { at_entry = 1000000; at_verify = 1000001; at_record = 1000002 }
