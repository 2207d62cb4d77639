-- ===== src/Policy/Table/TextFields.antt =====
-- The entries of `ACTION_POLICIES` of src/clausis/policy.py for text fields.
use clausis.Prelude.{String, true, false, List, [], ◌∷◌, none, some}
use clausis.Models.Request.{low, medium}
use clausis.Policy.Rule.{ActionPolicy, no_parameters, spoken_text}
use clausis.Policy.Table.Entry.{listed}

abbrev pub text_policies : List (String × ActionPolicy)
text_policies =
    ("desktop.text.read_focused", listed low true none none false)
    ∷ ("desktop.text.copy_focused", listed medium false none (some no_parameters) false)
    ∷ ("desktop.text.copy_selection", listed medium false none (some no_parameters) false)
    ∷ ("desktop.text.read_selection", listed medium true none (some no_parameters) false)
    ∷ ("desktop.text.select_all", listed low true none (some no_parameters) false)
    ∷ ("desktop.text.clear_selection", listed low true none (some no_parameters) false)
    ∷ ("desktop.text.delete_selection", listed medium true none (some no_parameters) false)
    ∷ ("desktop.text.insert_at_caret", listed medium true none (some spoken_text) false)
    ∷ ("desktop.text.delete_previous_character", listed medium true none (some no_parameters) false)
    ∷ ("desktop.text.delete_next_character", listed medium true none (some no_parameters) false)
    ∷ ("desktop.text.delete_previous_word", listed medium true none (some no_parameters) false)
    ∷ ("desktop.text.delete_next_word", listed medium true none (some no_parameters) false)
    ∷ ("desktop.text.replace_previous_word", listed medium true none (some spoken_text) false)
    ∷ ("desktop.text.replace_next_word", listed medium true none (some spoken_text) false)
    ∷ ("desktop.text.select_previous_character", listed low true none (some no_parameters) false)
    ∷ ("desktop.text.select_next_character", listed low true none (some no_parameters) false)
    ∷ ("desktop.text.select_previous_word", listed low true none (some no_parameters) false)
    ∷ ("desktop.text.select_next_word", listed low true none (some no_parameters) false)
    ∷ ("desktop.text.replace_selection", listed medium true none (some spoken_text) false)
    ∷ ("desktop.text.read_previous_character", listed medium true none (some no_parameters) false)
    ∷ ("desktop.text.read_next_character", listed medium true none (some no_parameters) false)
    ∷ ("desktop.text.read_previous_word", listed medium true none (some no_parameters) false)
    ∷ ("desktop.text.read_next_word", listed medium true none (some no_parameters) false)
    ∷ ("desktop.text.read_current_line", listed medium true none (some no_parameters) false)
    ∷ ("desktop.text.caret_start", listed low true none (some no_parameters) false)
    ∷ ("desktop.text.caret_end", listed low true none (some no_parameters) false)
    ∷ ("desktop.text.caret_previous", listed low true none (some no_parameters) false)
    ∷ ("desktop.text.caret_next", listed low true none (some no_parameters) false)
    ∷ ("desktop.text.caret_previous_word", listed low true none (some no_parameters) false)
    ∷ ("desktop.text.caret_next_word", listed low true none (some no_parameters) false)
    ∷ ("desktop.text.caret_line_start", listed low true none (some no_parameters) false)
    ∷ ("desktop.text.caret_line_end", listed low true none (some no_parameters) false)
    ∷ ("desktop.text.select_current_line", listed low true none (some no_parameters) false)
    ∷ ("desktop.text.delete_current_line", listed medium true none (some no_parameters) false)
    ∷ ("desktop.text.replace_current_line", listed medium true none (some spoken_text) false)
    ∷ ("desktop.text.insert_line_above", listed medium true none (some spoken_text) false)
    ∷ ("desktop.text.insert_line_below", listed medium true none (some spoken_text) false)
    ∷ ("desktop.text.duplicate_line_above", listed medium true none (some no_parameters) false)
    ∷ ("desktop.text.duplicate_line_below", listed medium true none (some no_parameters) false)
    ∷ ("desktop.text.move_line_up", listed medium true none (some no_parameters) false)
    ∷ ("desktop.text.move_line_down", listed medium true none (some no_parameters) false)
    ∷ ("desktop.text.join_previous_line", listed medium true none (some no_parameters) false)
    ∷ ("desktop.text.join_next_line", listed medium true none (some no_parameters) false)
    ∷ ("desktop.text.split_line_at_caret", listed medium true none (some no_parameters) false)
    ∷ ("desktop.text.indent_current_line", listed medium true none (some no_parameters) false)
    ∷ ("desktop.text.outdent_current_line", listed medium true none (some no_parameters) false)
    ∷ ("desktop.text.caret_describe", listed low true none (some no_parameters) false)
    ∷ ("desktop.text.paste_focused", listed medium false none (some no_parameters) false)
    ∷ ("desktop.text.set", listed medium true none (some spoken_text) false)
    ∷ ("desktop.text.clear", listed medium true none none false)
    ∷ []
