-- ===== src/Desktop/Aims.antt =====
-- Where the operations of src/clausis/gnome_adapter.py that move the caret are to put it.
use clausis.Prelude.{
  ℕ, ◌+◌, ◌-◌, ◌≤◌, ◌<◌, Bool, true, false, ◌≡◌, ◌⊎◌, inl, inr, refl, sym, ap, subst, String, [],
  ◌∷◌, arith, if◌then◌else◌,
}
use clausis.Outcome.{Outcome, ok, ok-injective}
use clausis.Stdlib.{Stdlib, Text}
use clausis.Text.{codes, text_eq}
use clausis.Desktop.Provider.{AtSpi}
use clausis.Desktop.Field.{refuse, field_name, Direction, backward, forward, direction_of}
use clausis.Desktop.Lines.{LineContext, line_context}
use clausis.Desktop.Caret.{
  Position, first, last, previous, next, position_of, target_of, boundary_of, metadata_of,
  word_target,
}

-- An operation with its argument.
pub data CaretOperation : Type 0 where
  to_position by_word to_line_boundary : Text → CaretOperation

-- The caret goes to the start, to the end, or one character back or forth within the text.
abbrev pub GoesTo : Text → ℕ → ℕ → ℕ → Type 0
GoesTo t count caret target =
    ((t ≡ codes "start") × (target ≡ 0))
    ⊎ (((t ≡ codes "end") × (target ≡ count))
        ⊎ (((t ≡ codes "previous") × (target ≡ caret - 1))
            ⊎ ((t ≡ codes "next")
                × (((caret < count) × (target ≡ caret + 1))
                    ⊎ ((count ≤ caret) × (target ≡ count))))))

-- "previous" and "next"
abbrev pub Directs : Text → Direction → Type 0
Directs t d = ((t ≡ codes "previous") × (d ≡ backward)) ⊎ ((t ≡ codes "next") × (d ≡ forward))

module _ {World : Type 0} ⦃spi : AtSpi World⦄ ⦃py : Stdlib⦄ where
  -- What an operation moves the caret of a field from and to, the name it has when nothing is to be
  -- moved, and the one it falls back on.
  abbrev pub Aims : CaretOperation → World → spi.Node → Text → Text → ℕ → ℕ → Type 0
  Aims (to_position t) w n settled fallback caret target =
      (settled ≡ field_name w n)
      × (fallback ≡ codes "Textfeld")
      × ((count : ℕ) × (metadata_of w n ≡ ok (count, caret)) × GoesTo t count caret target)
  Aims (by_word t) w n settled fallback caret target =
      (settled ≡ field_name w n)
      × (fallback ≡ codes "Textfeld")
      × ((d : Direction) × Directs t d × (word_target d w n ≡ ok (caret, target)))
  Aims (to_line_boundary t) w n settled fallback caret target =
      (line : LineContext spi.Node) × (line_context true w ≡ ok line)
      × (n ≡ line.node)
      × (settled ≡ line.name)
      × (fallback ≡ line.name)
      × (caret ≡ line.caret)
      × (((t ≡ codes "start") × (target ≡ line.start)) ⊎ ((t ≡ codes "end") × (target ≡ line.end)))

text_eq-eq : (s t : Text) → text_eq s t ≡ true → s ≡ t
unfolding text_eq
text_eq-eq [] [] h = refl
text_eq-eq [] (_ ∷ _) h = absurd (cc h)
text_eq-eq (_ ∷ _) [] h = absurd (cc h)
text_eq-eq (a ∷ s) (b ∷ t) h = ground (arith, text_eq-eq s t)

target_of-next :
    (count caret : ℕ)
    → ((caret < count) × (target_of next count caret ≡ caret + 1))
      ⊎ ((count ≤ caret) × (target_of next count caret ≡ count))
unfolding target_of
target_of-next count caret = ground arith

pub position_of-GoesTo :
    (t : Text) (p : Position) (count caret : ℕ)
    → position_of t ≡ ok p
    → GoesTo t count caret (target_of p count caret)
unfolding target_of
position_of-GoesTo t p count caret h =
    step (text_eq t (codes "start")) (text_eq t (codes "end")) (text_eq t (codes "previous"))
      (text_eq t (codes "next")) (text_eq-eq t _) (text_eq-eq t _) (text_eq-eq t _) (text_eq-eq t _)
      h
  where
    goes :
        (q : Position)
        → ok q ≡ ok p
        → GoesTo t count caret (target_of q count caret)
        → GoesTo t count caret (target_of p count caret)
    goes q same = subst (λ q. GoesTo t count caret (target_of q count caret)) (ok-injective same)

    step :
        (a b c d : Bool)
        → (a ≡ true → t ≡ codes "start")
        → (b ≡ true → t ≡ codes "end")
        → (c ≡ true → t ≡ codes "previous")
        → (d ≡ true → t ≡ codes "next")
        → (if◌then◌else◌ {A = Outcome Position} (if a then true else false) (ok first) (
            if◌then◌else◌ {A = Outcome Position} (if b then true else false) (ok last) (
              if◌then◌else◌ {A = Outcome Position} (if c then true else false) (ok previous) (
                if◌then◌else◌ {A = Outcome Position}
                  (if d then true else false)
                  (ok next)
                  (refuse "Unzulässige Textcursor-Position.")))))
          ≡ ok p
        → GoesTo t count caret (target_of p count caret)
    step true _ _ _ e _ _ _ h = goes first h (inl (e refl, refl))
    step false true _ _ _ e _ _ h = goes last h (inr (inl (e refl, refl)))
    step false false true _ _ _ e _ h = goes previous h (inr (inr (inl (e refl, refl))))
    step false false false true _ _ _ e h =
        goes next h (inr (inr (inr (e refl, target_of-next count caret))))
    step false false false false _ _ _ _ h = absurd (cc h)

pub direction_of-Directs :
    (message : String) (t : Text) (d : Direction) → direction_of message t ≡ ok d → Directs t d
direction_of-Directs message t d h =
    step (text_eq t (codes "previous")) (text_eq t (codes "next")) (text_eq-eq t _) (text_eq-eq t _)
      h
  where
    step :
        (a b : Bool)
        → (a ≡ true → t ≡ codes "previous")
        → (b ≡ true → t ≡ codes "next")
        → (if◌then◌else◌ {A = Outcome Direction} (if a then true else false) (ok backward) (
            if◌then◌else◌ {A = Outcome Direction}
              (if b then true else false)
              (ok forward)
              (refuse message)))
          ≡ ok d
        → Directs t d
    step true _ e _ h = inl (e refl, sym (ok-injective h))
    step false true _ e h = inr (e refl, sym (ok-injective h))
    step false false _ _ h = absurd (cc h)

pub boundary_of-target :
    {Node : Type 0} (t : Text) (target : LineContext Node → ℕ) (line : LineContext Node)
    → boundary_of t ≡ ok target
    → ((t ≡ codes "start") × (target line ≡ line.start))
      ⊎ ((t ≡ codes "end") × (target line ≡ line.end))
boundary_of-target {Node = Node} t target line h =
    step (text_eq t (codes "start")) (text_eq t (codes "end")) (text_eq-eq t _) (text_eq-eq t _) h
  where
    step :
        (a b : Bool)
        → (a ≡ true → t ≡ codes "start")
        → (b ≡ true → t ≡ codes "end")
        → (if◌then◌else◌ {A = Outcome (LineContext Node → ℕ)}
            (if a then true else false)
            (ok (λ line. line.start))
            (if◌then◌else◌ {A = Outcome (LineContext Node → ℕ)}
              (if b then true else false)
              (ok (λ line. line.end))
              (refuse "Unzulässige Zeilengrenze für den Textcursor.")))
          ≡ ok target
        → ((t ≡ codes "start") × (target line ≡ line.start))
          ⊎ ((t ≡ codes "end") × (target line ≡ line.end))
    step true _ e _ h = inl (e refl, ap (λ f. f line) (sym (ok-injective h)))
    step false true _ e h = inr (e refl, ap (λ f. f line) (sym (ok-injective h)))
    step false false _ _ h = absurd (cc h)
