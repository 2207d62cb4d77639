-- ===== src/Audit/Chain.antt =====
-- What `verify` accepts, and that `append` keeps the log acceptable.
use Prim.Native.String
use clausis.Prelude.{
  ℕ, String, ◌≡◌, ◌↔◌, refl, sym, ap, ◌∙◌, true, false, List, [], ◌∷◌, ◌++◌, Option, none, some,
  all, any, lookup, without, lookup-without, ltb, length,
}
use clausis.Outcome.{Outcome, ok, raised, key_error, ok-injective, ◌>>=◌, >>=-eq-ok}
use clausis.Stdlib.{Stdlib, Bytes}
use clausis.Text.{codes}
use clausis.Models.Value.{Value, Fields, Dict, null, bool, int, float, str, arr, obj, of_fields}
use clausis.Models.Request.{ActionRequest, ActionResult}
use clausis.Audit.File.{
  AuditLog, splitlines, zeros, load_line, digest_of, load_tail_hash, entry_of, append, line_of,
  verify_lines, verify, contents_or_empty, chain_hmac_of, last_line, open_log, pop_chain,
}
use clausis.Audit.Lines.{one_line, text_of, splitlines-text_of, text_of-append, all-append}
use clausis.Audit.Tamper.{
  IsLinked, IsDigestChain, stop, link, verify_lines-IsDigestChain, IsDigestChain-verify_lines,
}

module _ ⦃py : Stdlib⦄ where
  -- What json.loads gives back of the line that json.dumps made of a dictionary with sorted keys: the
  -- same value for every key, and the same canonical text, also without one of the keys.
  pub record ReadsBack (d : Dict) : Type 0 where
    pub fields : Fields
    pub loaded : py.loads (py.dumps_line d) ≡ some (obj fields)
    pub same : (k : String) → lookup k (of_fields fields) ≡ lookup k d
    pub canonical :
        (k : String)
        → py.dumps_canonical (without k (of_fields fields)) ≡ py.dumps_canonical (without k d)

  -- A log whose file consists of whole lines that form a chain of digests from the zeros to the one
  -- that the next entry will name.
  pub record IsChained (log : AuditLog) : Type 0 where
    pub lines : List String
    pub written : contents_or_empty log.contents ≡ text_of lines
    pub whole : all one_line lines ≡ true
    pub chained : IsDigestChain log.key zeros lines log.previous

  -- The entry of a request and its result with its digest.
  abbrev pub signed_entry : ℕ → ActionRequest → ActionResult → AuditLog → Dict
  signed_entry now r result log =
      entry_of now r result log.previous
      ++ ("chain_hmac", str (digest_of log.key (entry_of now r result log.previous))) ∷ []

  IsDigestChain-append :
      (key : Bytes) {p q s : String} {lines : List String} {line : String}
      → IsDigestChain key p lines q
      → IsLinked key q line s
      → IsDigestChain key p (lines ++ line ∷ []) s
  IsDigestChain-append key stop l = link l stop
  IsDigestChain-append key (link k c) l = link k (IsDigestChain-append key c l)

  popped_of :
      (fields : Fields) (v : Value)
      → lookup "chain_hmac" (of_fields fields) ≡ some v
      → pop_chain (obj fields) ≡ ok (v, without "chain_hmac" (of_fields fields))
  popped_of fields v h = rw (pop_chain, h)

  loaded_of : (line : String) (v : Value) → py.loads line ≡ some v → load_line line ≡ ok v
  loaded_of line v h = rw (load_line, h)

  -- The line that `append` writes continues the chain.
  line_of-IsLinked :
      (now : ℕ) (r : ActionRequest) (result : ActionResult) (log : AuditLog)
      → ReadsBack (signed_entry now r result log)
      → IsLinked log.key log.previous
          (line_of (entry_of now r result log.previous) (append now r result log).previous)
          (append now r result log).previous
  unfolding append line_of entry_of lookup without digest_of
  line_of-IsLinked now r result log s = record {
    value = obj s.fields;
    entry = without "chain_hmac" (of_fields s.fields);
    loaded = loaded_of _ (obj s.fields) s.loaded;
    popped = popped_of s.fields _ (s.same "chain_hmac");
    linked = lookup-without "chain_hmac" "previous" (of_fields s.fields) ∙ s.same "previous";
    signed =
        ap (λ (t : String). py.hmac_hex log.key (py.encode t)) (sym (s.canonical "chain_hmac"));
  }

  -- Appending to a chained log gives a chained log, when the line that is written holds no line
  -- boundary and JSON gives its entry back.
  pub append-IsChained :
      (now : ℕ) (r : ActionRequest) (result : ActionResult) (log : AuditLog)
      → IsChained log
      → ReadsBack (signed_entry now r result log)
      → one_line (py.dumps_line (signed_entry now r result log)) ≡ true
      → IsChained (append now r result log)
  unfolding append line_of
  append-IsChained now r result log c s one =
      let line = py.dumps_line (signed_entry now r result log) in
      record {
        lines = c.lines ++ line ∷ [];
        written =
            ap (λ (t : String). String.◌++◌ t (String.◌++◌ line "\n")) c.written
            ∙ sym (text_of-append c.lines line);
        whole = all-append c.lines line c.whole one;
        chained = IsDigestChain-append log.key c.chained (line_of-IsLinked now r result log s);
      }

  popped_tail :
      (v : Value) (entry : Dict) (q : String)
      → pop_chain v ≡ ok (str q, entry)
      → chain_hmac_of v ≡ ok q
  popped_tail (obj fields) entry q h = step (lookup "chain_hmac" (of_fields fields)) (same _ ∙ h)
    where
      step_eq :
          (v : Value) (q : String)
          → v ≡ str q
          → (elim v [ str t ↦ ok t | v ↦ ok (py.to_str v) ]) ≡ ok q
      step_eq v q e = rw e

      popped : Option Value → Outcome (Value × Dict)
      popped none = raised key_error
      popped (some signature) = ok (signature, without "chain_hmac" (of_fields fields))

      same :
          (o : Option Value)
          → popped o ≡ elim o [
            | none ↦ raised key_error
            | some signature ↦ ok (signature, without "chain_hmac" (of_fields fields))
          ]
      same none = refl
      same (some v) = refl

      step :
          (o : Option Value)
          → popped o ≡ ok (str q, entry)
          → (elim o [ none ↦ ok "" | some (str t) ↦ ok t | some v ↦ ok (py.to_str v) ]) ≡ ok q
      step none h = absurd (cc h)
      step (some v) h = step_eq v q (ap (λ (p : Value × Dict). p.0) (ok-injective h))
  popped_tail (arr _) entry q h = absurd (cc h)
  popped_tail null entry q h = absurd (cc h)
  popped_tail (bool _) entry q h = absurd (cc h)
  popped_tail (int _) entry q h = absurd (cc h)
  popped_tail (float _) entry q h = absurd (cc h)
  popped_tail (str _) entry q h = absurd (cc h)

  -- what `load_tail_hash` reads in these lines
  abbrev tail_of : List String → Outcome String
  tail_of lines = elim (last_line lines) [
    | none ↦ ok zeros
    | some line ↦ load_line line >>= chain_hmac_of
  ]

  IsDigestChain-tail_of :
      (key : Bytes) (p q line : String) (lines : List String)
      → IsDigestChain key p (line ∷ lines) q
      → tail_of (line ∷ lines) ≡ ok q
  IsDigestChain-tail_of key p q line [] (link l stop) =
      rw l.loaded (popped_tail l.value l.entry _ l.popped)
  IsDigestChain-tail_of key p q line (next ∷ lines) (link {q = s} l c) =
      IsDigestChain-tail_of key s q next lines c

  zeros-tail_of :
      (key : Bytes) (q : String) (lines : List String)
      → IsDigestChain key zeros lines q
      → tail_of lines ≡ ok q
  zeros-tail_of key q [] stop = refl
  zeros-tail_of key q (line ∷ lines) c = IsDigestChain-tail_of key zeros q line lines c

  load_tail_hash-splitlines :
      (o : Option String) → load_tail_hash o ≡ tail_of (splitlines (contents_or_empty o))
  unfolding load_tail_hash splitlines
  load_tail_hash-splitlines none = refl
  load_tail_hash-splitlines (some s) = refl

  verify-last :
      (o : Option String) (key : Bytes) (p : String)
      → verify (record { contents = o; key = key; previous = p }) ≡ ok true
      → (q : String) × (verify_lines key zeros (splitlines (contents_or_empty o)) ≡ ok (some q))
  unfolding verify verify_lines splitlines
  verify-last none key p h = (zeros, refl)
  verify-last (some s) key p h =
      let (last, ran, h) = >>=-eq-ok (verify_lines key zeros (splitlines s)) _ h in
      step last ran (ok-injective h)
    where
      step :
          (last : Option String)
          → verify_lines key zeros (splitlines s) ≡ ok last
          → (elim last [ none ↦ false | some _ ↦ true ]) ≡ true
          → (q : String) × (verify_lines key zeros (splitlines s) ≡ ok (some q))
      step none ran h = absurd (cc h)
      step (some q) ran h = (q, ran)

  last-verify :
      (o : Option String) (key : Bytes) (p q : String)
      → verify_lines key zeros (splitlines (contents_or_empty o)) ≡ ok (some q)
      → verify (record { contents = o; key = key; previous = p }) ≡ ok true
  unfolding verify
  last-verify none key p q h = refl
  last-verify (some s) key p q h = rw h

  -- `verify` accepts a file of whole lines exactly if they form a chain of digests from the zeros on,
  -- and opening such a file again with the same key of at least 32 bytes gives a log that continues
  -- at the chain's last digest. The digests are ASCII texts.
  pub verify_iff :
      (log : AuditLog) (lines : List String)
      → ((d : Dict) → any (λ c. ltb 127 c) (codes (digest_of log.key d)) ≡ false)
      → ltb (length log.key) 32 ≡ false
      → contents_or_empty log.contents ≡ text_of lines
      → all one_line lines ≡ true
      → (verify log ≡ ok true) ↔ (
          (q : String) × IsDigestChain log.key zeros lines q
          × (open_log log.contents log.key ≡ ok (record log { previous = q })))
  unfolding open_log
  verify_iff log lines ascii long written whole = (
    λ h.
        let (q, ran) = verify-last log.contents log.key log.previous h in
        let c = verify_lines-IsDigestChain log.key zeros q lines (rw there at ran) in
        let tail =
          load_tail_hash-splitlines log.contents
          ∙ ap tail_of there
          ∙ zeros-tail_of log.key q lines c in
        (q, c, rw (long, tail)),
    λ (q, c, _).
        last-verify log.contents log.key log.previous q
          (ap (verify_lines log.key zeros) there ∙ IsDigestChain-verify_lines log.key ascii c),
  )
    where
      there : splitlines (contents_or_empty log.contents) ≡ lines
      there = ap splitlines written ∙ splitlines-text_of lines whole
