-- ===== src/Tests/Editor.antt =====
-- A desktop with one window whose focused element is a text field that does what it is told.
use clausis.Prelude.{
  ℕ, ◌+◌, ◌-◌, Bool, true, false, List, [], ◌∷◌, ◌++◌, Option, none, some, if◌then◌else◌, ◌==◌, leb,
  length, take, drop, zero, suc,
}
use clausis.Prelude.Int.{ℤ, pos}
use clausis.Stdlib.{Text}
use clausis.Text.{codes}
use clausis.Desktop.Provider.{AtSpi, State, focused, active, showing}
use clausis.Desktop.Field.{inserted, cut}

pub record Screen : Type 0 where
  pub content : Text
  pub caret : ℕ
  pub spans : List (ℕ × ℕ)

abbrev pub screen : Text → ℕ → List (ℕ × ℕ) → Screen
screen content caret spans = record { content = content; caret = caret; spans = spans }

abbrev shows_state : ℕ → State → Bool
shows_state n focused = n == 3
shows_state n active = n == 2
shows_state n showing = true

abbrev nth : ℕ → List (ℕ × ℕ) → Option (ℤ × ℤ)
nth i [] = none
nth zero ((a, b) ∷ l) = some (pos a, pos b)
nth (suc i) (x ∷ l) = nth i l

abbrev without_nth : ℕ → List (ℕ × ℕ) → List (ℕ × ℕ)
without_nth i [] = []
without_nth zero (x ∷ l) = l
without_nth (suc i) (x ∷ l) = x ∷ without_nth i l

abbrev done : Screen → Option Bool × Screen
done s = (some true, s)

-- The desktop is 0, the application 1, its window 2 and the field in it 3.
instance abbrev pub editor : AtSpi Screen
editor = record {
  Node = ℕ;
  desktop = 0;
  child_count = λ s n. some (pos (if n == 3 then 0 else 1));
  child_at = λ s n i. some (some (n + 1));
  node_name = λ s n. some (codes "note");
  role_name = λ s n. some (if n == 2 then codes "frame" else codes "text");
  has_state = λ s n state. some (shows_state n state);
  attributes = λ s n. some [];
  has_text = λ s n. true;
  has_editable_text = λ s n. true;
  character_count = λ s n. some (pos (length s.content));
  caret_offset = λ s n. some (pos s.caret);
  selection_count = λ s n. some (pos (length s.spans));
  selection = λ s n i. nth i s.spans;
  text_between = λ s n i j. some (take (j - i) (drop i s.content));
  whole_text = λ s n. some s.content;
  set_caret_offset = λ n k s.
      if leb k (length s.content) then done (screen s.content k s.spans) else (some false, s);
  add_selection = λ n i j s. done (screen s.content s.caret (s.spans ++ ((i, j) ∷ [])));
  remove_selection = λ n i s. done (screen s.content s.caret (without_nth i s.spans));
  insert_text = λ n i t s. done (screen (inserted i t s.content) s.caret s.spans);
  delete_text = λ n i j s. done (screen (cut i j s.content) i s.spans);
  set_text_contents = λ n t s. done (screen t 0 []);
}
