-- ===== src/Audit/Tamper.antt =====
-- What `verify` of src/clausis/audit.py shows of a log that it accepts, and what it cannot see.
use clausis.Prelude.{
  String, ◌≡◌, refl, sym, ap, subst, ◌∙◌, Bool, true, false, List, [], ◌∷◌, ◌++◌, Option, none,
  some, arith, eq_iff, eq_refl, any, lookup, ltb,
}
use clausis.Outcome.{Outcome, ok, >>=-eq-ok}
use clausis.Stdlib.{Stdlib, Bytes}
use clausis.Text.{codes}
use clausis.Models.Value.{Value, Dict, null, bool, int, float, str, arr, obj}
use clausis.Audit.File.{
  pop_chain, follows, compare_digest, load_line, digest_of, verify_line, verify_lines,
}

follows-eq : (v : Option Value) (p : String) → follows v p ≡ true → v ≡ some (str p)
follows-eq none p h = cc
follows-eq (some (str t)) p h = cc ((eq_iff t p).0 h)
follows-eq (some null) p h = cc
follows-eq (some (bool _)) p h = cc
follows-eq (some (int _)) p h = cc
follows-eq (some (float _)) p h = cc
follows-eq (some (arr _)) p h = cc
follows-eq (some (obj _)) p h = cc

compare_digest-eq :
    (v : Value) (expected next : String)
    → compare_digest v expected ≡ ok (some next)
    → (v ≡ str next) × (next ≡ expected)
compare_digest-eq (str s) expected next h = ground (arith, eq_iff s expected)
compare_digest-eq null expected next h = absurd (ground arith)
compare_digest-eq (bool _) expected next h = absurd (ground arith)
compare_digest-eq (int _) expected next h = absurd (ground arith)
compare_digest-eq (float _) expected next h = absurd (ground arith)
compare_digest-eq (arr _) expected next h = absurd (ground arith)
compare_digest-eq (obj _) expected next h = absurd (ground arith)

abbrev with_entry : Dict → Value → Outcome (Value × Dict)
with_entry entry v = ok (v, entry)

accepted_branch :
    (b : Bool) (o : Outcome (Option String)) (next : String)
    → (elim b [ true ↦ o | false ↦ ok none ]) ≡ ok (some next)
    → (b ≡ true) × (o ≡ ok (some next))
accepted_branch true o next h = (refl, h)
accepted_branch false o next h = absurd (ground arith)

module _ ⦃py : Stdlib⦄ where
  -- What a line says of its place in the chain.
  pub record IsLinked (key : Bytes) (previous line next : String) : Type 0 where
    pub value : Value
    pub entry : Dict
    pub loaded : load_line line ≡ ok value
    pub popped : pop_chain value ≡ ok (str next, entry)
    pub linked : lookup "previous" entry ≡ some (str previous)
    pub signed : next ≡ digest_of key entry

  -- The lines form a chain of digests from the first to the last.
  pub data IsDigestChain (key : Bytes) : String → List String → String → Type 0 where
    stop : {p : String} → IsDigestChain key p [] p
    link :
        {p q s : String} {line : String} {lines : List String}
        → IsLinked key p line q
        → IsDigestChain key q lines s
        → IsDigestChain key p (line ∷ lines) s

  verify_line-IsLinked :
      (key : Bytes) (p line next : String)
      → verify_line key p line ≡ ok (some next)
      → IsLinked key p line next
  unfolding verify_line
  verify_line-IsLinked key p line next h =
      let (value, loaded, h) = >>=-eq-ok (load_line line) _ h in
      let ((signature, entry), popped, h) = >>=-eq-ok (pop_chain value) _ h in
      let (follow, h) = accepted_branch (follows (lookup "previous" entry) p) _ next h in
      let (text, signed) = compare_digest-eq signature (digest_of key entry) next h in
      record {
        value = value;
        entry = entry;
        loaded = loaded;
        popped = popped ∙ ap (with_entry entry) text;
        linked = follows-eq _ p follow;
        signed = signed;
      }

  after_line :
      (key : Bytes) (ls : List String) (next : Option String) (q : String)
      → (elim next [ none ↦ ok none | some p ↦ verify_lines key p ls ]) ≡ ok (some q)
      → (p : String) × (next ≡ some p) × (verify_lines key p ls ≡ ok (some q))
  after_line key ls none q h = absurd (ground arith)
  after_line key ls (some p) q h = (p, refl, h)

  -- An accepted log is a chain: every line was signed with the key over its other fields, and names
  -- the digest of the line before it.
  pub verify_lines-IsDigestChain :
      (key : Bytes) (p q : String) (lines : List String)
      → verify_lines key p lines ≡ ok (some q)
      → IsDigestChain key p lines q
  unfolding verify_lines
  verify_lines-IsDigestChain key p q [] h =
      subst (λ (t : String). IsDigestChain key p [] t) (ground arith) stop
  verify_lines-IsDigestChain key p q (l ∷ ls) h =
      let (next, first, h) = >>=-eq-ok (verify_line key p l) _ h in
      let (p', there, h) = after_line key ls next q h in
      link (verify_line-IsLinked key p l p' (first ∙ ap ok there))
        (verify_lines-IsDigestChain key p' q ls h)

  IsLinked-verify_line :
      (key : Bytes) (p line next : String)
      → any (λ c. ltb 127 c) (codes next) ≡ false
      → IsLinked key p line next
      → verify_line key p line ≡ ok (some next)
  unfolding verify_line
  IsLinked-verify_line key p line next a l =
      ground (arith, l.loaded, l.popped, l.linked, l.signed, a, eq_refl p, eq_refl next)

  -- The converse: `verify` accepts every chain of ASCII digests.
  pub IsDigestChain-verify_lines :
      (key : Bytes) {p q : String} {lines : List String}
      → ((d : Dict) → any (λ c. ltb 127 c) (codes (digest_of key d)) ≡ false)
      → IsDigestChain key p lines q
      → verify_lines key p lines ≡ ok (some q)
  unfolding verify_lines
  IsDigestChain-verify_lines key a stop = refl
  IsDigestChain-verify_lines key a (link {p = p} {q = q} {line = line} l c) =
      let ascii =
        subst (λ (t : String). any (λ c. ltb 127 c) (codes t) ≡ false) (sym l.signed) (a l.entry) in
      rw (IsLinked-verify_line key p line q ascii l) (IsDigestChain-verify_lines key a c)

  -- Cutting lines off the end of an accepted log leaves a log that is accepted: `verify` does not see
  -- the loss.
  pub verify_lines-prefix :
      (key : Bytes) (p q : String) (kept lost : List String)
      → verify_lines key p (kept ++ lost) ≡ ok (some q)
      → (s : String) × (verify_lines key p kept ≡ ok (some s))
  unfolding verify_lines
  verify_lines-prefix key p q [] lost h = (p, refl)
  verify_lines-prefix key p q (l ∷ ls) lost h =
      let (next, first, h) = >>=-eq-ok (verify_line key p l) _ h in
      let (p', there, h) = after_line key (ls ++ lost) next q h in
      let (s, rest) = verify_lines-prefix key p' q ls lost h in (s, rw (first, there) rest)
