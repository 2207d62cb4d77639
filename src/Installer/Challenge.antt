-- ===== src/Installer/Challenge.antt =====
-- `InstallConfirmationChallenge` of src/clausis/installer.py: one phrase, used once, in time.
use clausis.Prelude.{
  ℕ, ◌+◌, ◌≤◌, String, ◌≡◌, refl, Bool, true, false, Option, none, some, arith, if◌then◌else◌, leb,
  ltb,
}
use clausis.Outcome.{Outcome, ok, reject_if, ◌>>◌}
use clausis.Stdlib.{Stdlib}
use clausis.Confirmation.Phrase.{same_phrase}

pub record InstallConfirmationChallenge : Type 0 where
  pub ttl : ℕ
  pub phrase : Option String
  pub expires_at : ℕ

-- InstallConfirmationChallenge.__init__
unfoldable pub new_challenge : ℕ → Outcome InstallConfirmationChallenge
new_challenge ttl = do
  reject_if (leb ttl 0) "confirmation timeout must be positive"
  ok (record { ttl = ttl; phrase = none; expires_at = 0 })

-- `issue`, with the random phrase
unfoldable pub issue_challenge :
    ℕ → String → InstallConfirmationChallenge → InstallConfirmationChallenge
issue_challenge now phrase c = record c { phrase = some phrase; expires_at = now + c.ttl }

module _ ⦃py : Stdlib⦄ where
  abbrev pub compared : ℕ → String → Option String → ℕ → Outcome Bool
  compared now response none expires_at = ok false
  compared now response (some expected) expires_at =
      if ltb expires_at now then ok false else same_phrase response expected

  -- `confirm`; the phrase is taken before it is compared
  unfoldable pub confirm :
      ℕ → String → InstallConfirmationChallenge → Outcome Bool × InstallConfirmationChallenge
  confirm now response c =
      (compared now response c.phrase c.expires_at, record c { phrase = none; expires_at = 0 })

  -- A confirmation that succeeds had an issued phrase that was answered in time and matched, and the
  -- next one, without a new phrase, fails.
  pub confirm_once :
      (now later : ℕ) (response again : String) (c : InstallConfirmationChallenge)
      → (confirm now response c).0 ≡ ok true
      → ((phrase : String) × (c.phrase ≡ some phrase)
          × (now ≤ c.expires_at)
          × (same_phrase response phrase ≡ ok true))
        × ((confirm later again (confirm now response c).1).0 ≡ ok false)
  unfolding confirm
  confirm_once now later response again c h = (by_phrase c.phrase h, refl)
    where
      by_phrase :
          (o : Option String)
          → compared now response o c.expires_at ≡ ok true
          → (phrase : String) × (o ≡ some phrase)
            × (now ≤ c.expires_at)
            × (same_phrase response phrase ≡ ok true)
      by_phrase none h = absurd (cc h)
      by_phrase (some phrase) h = (phrase, refl, ground arith, ground arith)

  -- A phrase that was issued is confirmed by a response that comes in time and matches it.
  pub issue_challenge-confirm :
      (now later : ℕ) (phrase response : String) (c : InstallConfirmationChallenge)
      → later ≤ now + c.ttl
      → same_phrase response phrase ≡ ok true
      → (confirm later response (issue_challenge now phrase c)).0 ≡ ok true
  unfolding confirm issue_challenge
  issue_challenge-confirm now later phrase response c t h = ground arith
