-- ===== src/Router/Commands/Reading.antt =====
-- The entries of `COMMANDS` of src/clausis/router.py for reading, the caret and selections.
use clausis.Prelude.{true, false, List, [], ◌∷◌}
use clausis.Models.Request.{low, medium}
use clausis.Router.Builder.{CommandPattern, command, simple, targeted}

abbrev pub reading_commands : List CommandPattern
reading_commands =
    command "stop"
      ("stopp (?:hermes|clausis)" ∷ "(?:hermes|clausis) stopp" ∷ "stop (?:hermes|clausis)" ∷ [])
      (simple "voice.stop" low true)
    ∷ command "where-am-i" ("wo bin ich" ∷ "where am i" ∷ [])
        (simple "desktop.context.describe" low true)
    ∷ command "read-window" ("lies (?:das )?fenster vor" ∷ "read (?:the )?window" ∷ [])
        (simple "desktop.context.describe" low true)
    ∷ command "read-focused-text" ("lies (?:das )?textfeld vor" ∷ "read (?:the )?text field" ∷ [])
        (simple "desktop.text.read_focused" low true)
    ∷ command "copy-focused-text" ("kopiere (?:das )?textfeld" ∷ "copy (?:the )?text field" ∷ [])
        (simple "desktop.text.copy_focused" medium false)
    ∷ command "copy-text-selection"
        ("kopiere (?:die )?textauswahl" ∷ "copy (?:the )?text selection" ∷ [])
        (simple "desktop.text.copy_selection" medium false)
    ∷ command "read-text-selection"
        ("lies (?:die )?textauswahl vor" ∷ "read (?:the )?text selection" ∷ [])
        (simple "desktop.text.read_selection" medium true)
    ∷ command "select-all-text"
        ("wähle (?:den )?ganzen text (?:im|in dem) textfeld aus" ∷ "alles im textfeld auswählen"
          ∷ "select all (?:the )?text(?: in (?:the )?text field)?" ∷ [])
        (simple "desktop.text.select_all" low true)
    ∷ command "clear-text-selection"
        ("hebe (?:die )?textauswahl auf" ∷ "textauswahl aufheben" ∷ "clear (?:the )?text selection"
          ∷ "deselect (?:the )?text" ∷ [])
        (simple "desktop.text.clear_selection" low true)
    ∷ command "delete-text-selection"
        ("lösche (?:die )?textauswahl" ∷ "ausgewählten text löschen"
          ∷ "delete (?:the )?(?:selected text|text selection)" ∷ [])
        (simple "desktop.text.delete_selection" medium true)
    ∷ command "caret-to-start"
        ("(?:setze |bewege )?(?:den )?(?:text)?cursor an (?:den )?anfang"
          ∷ "move (?:the )?(?:text )?cursor to (?:the )?(?:start|beginning)" ∷ [])
        (simple "desktop.text.caret_start" low true)
    ∷ command "caret-to-end"
        ("(?:setze |bewege )?(?:den )?(?:text)?cursor an (?:das )?ende"
          ∷ "move (?:the )?(?:text )?cursor to (?:the )?end" ∷ [])
        (simple "desktop.text.caret_end" low true)
    ∷ command "caret-previous-character"
        ("(?:bewege )?(?:den )?(?:text)?cursor (?:ein zeichen )?(?:zurück|nach links)"
          ∷ "move (?:the )?(?:text )?cursor (?:one character )?(?:back|left)" ∷ [])
        (simple "desktop.text.caret_previous" low true)
    ∷ command "caret-next-character"
        ("(?:bewege )?(?:den )?(?:text)?cursor (?:ein zeichen )?(?:vor|nach rechts)"
          ∷ "move (?:the )?(?:text )?cursor (?:one character )?(?:forward|right)" ∷ [])
        (simple "desktop.text.caret_next" low true)
    ∷ command "caret-previous-word"
        ("(?:bewege )?(?:den )?(?:text)?cursor (?:ein wort )?(?:zurück|zum vorherigen wort)"
          ∷ "move (?:the )?(?:text )?cursor (?:one word back|to (?:the )?previous word)" ∷ [])
        (simple "desktop.text.caret_previous_word" low true)
    ∷ command "caret-next-word"
        ("(?:bewege )?(?:den )?(?:text)?cursor (?:ein wort vor|zum nächsten wort)"
          ∷ "move (?:the )?(?:text )?cursor (?:one word forward|to (?:the )?next word)" ∷ [])
        (simple "desktop.text.caret_next_word" low true)
    ∷ command "caret-line-start"
        ("(?:bewege )?(?:den )?(?:text)?cursor an (?:den )?zeilenanfang"
          ∷ "move (?:the )?(?:text )?cursor to (?:the )?(?:start|beginning) of (?:the )?(?:current )?line"
          ∷ [])
        (simple "desktop.text.caret_line_start" low true)
    ∷ command "caret-line-end"
        ("(?:bewege )?(?:den )?(?:text)?cursor an (?:das )?zeilenende"
          ∷ "move (?:the )?(?:text )?cursor to (?:the )?end of (?:the )?(?:current )?line" ∷ [])
        (simple "desktop.text.caret_line_end" low true)
    ∷ command "describe-caret-position"
        ("wo ist (?:der )?(?:text)?cursor" ∷ "lies (?:die )?(?:text)?cursorposition vor"
          ∷ "where is (?:the )?(?:text )?cursor" ∷ "read (?:the )?(?:text )?cursor position" ∷ [])
        (simple "desktop.text.caret_describe" low true)
    ∷ command "insert-text-at-caret"
        ("füge (?:am|an dem) (?:text)?cursor (?P<target>.+) ein"
          ∷ "insert (?P<target>.+) at (?:the )?(?:text )?cursor" ∷ [])
        (targeted "desktop.text.insert_at_caret" medium true)
    ∷ command "delete-previous-character"
        ("lösche (?:das )?zeichen vor (?:dem )?(?:text)?cursor"
          ∷ "lösche rückwärts am (?:text)?cursor"
          ∷ "delete (?:the )?character before (?:the )?(?:text )?cursor"
          ∷ "backspace at (?:the )?(?:text )?cursor" ∷ [])
        (simple "desktop.text.delete_previous_character" medium true)
    ∷ command "delete-next-character"
        ("lösche (?:das )?zeichen nach (?:dem )?(?:text)?cursor"
          ∷ "lösche vorwärts am (?:text)?cursor"
          ∷ "delete (?:the )?character after (?:the )?(?:text )?cursor"
          ∷ "delete forward at (?:the )?(?:text )?cursor" ∷ [])
        (simple "desktop.text.delete_next_character" medium true)
    ∷ command "delete-previous-word"
        ("lösche (?:das )?wort vor (?:dem )?(?:text)?cursor"
          ∷ "delete (?:the )?word before (?:the )?(?:text )?cursor" ∷ [])
        (simple "desktop.text.delete_previous_word" medium true)
    ∷ command "delete-next-word"
        ("lösche (?:das )?wort nach (?:dem )?(?:text)?cursor"
          ∷ "delete (?:the )?word after (?:the )?(?:text )?cursor" ∷ [])
        (simple "desktop.text.delete_next_word" medium true)
    ∷ command "replace-previous-word"
        ("ersetze (?:das )?wort vor (?:dem )?(?:text)?cursor durch (?P<target>.+)"
          ∷ "replace (?:the )?word before (?:the )?(?:text )?cursor with (?P<target>.+)" ∷ [])
        (targeted "desktop.text.replace_previous_word" medium true)
    ∷ command "replace-next-word"
        ("ersetze (?:das )?wort nach (?:dem )?(?:text)?cursor durch (?P<target>.+)"
          ∷ "replace (?:the )?word after (?:the )?(?:text )?cursor with (?P<target>.+)" ∷ [])
        (targeted "desktop.text.replace_next_word" medium true)
    ∷ command "select-previous-character"
        ("wähle (?:das )?zeichen vor (?:dem )?(?:text)?cursor aus"
          ∷ "select (?:the )?character before (?:the )?(?:text )?cursor" ∷ [])
        (simple "desktop.text.select_previous_character" low true)
    ∷ command "select-next-character"
        ("wähle (?:das )?zeichen nach (?:dem )?(?:text)?cursor aus"
          ∷ "select (?:the )?character after (?:the )?(?:text )?cursor" ∷ [])
        (simple "desktop.text.select_next_character" low true)
    ∷ command "select-previous-word"
        ("wähle (?:das )?wort vor (?:dem )?(?:text)?cursor aus"
          ∷ "select (?:the )?word before (?:the )?(?:text )?cursor" ∷ [])
        (simple "desktop.text.select_previous_word" low true)
    ∷ command "select-next-word"
        ("wähle (?:das )?wort nach (?:dem )?(?:text)?cursor aus"
          ∷ "select (?:the )?word after (?:the )?(?:text )?cursor" ∷ [])
        (simple "desktop.text.select_next_word" low true)
    ∷ command "select-current-line"
        ("wähle (?:die )?aktuelle zeile aus" ∷ "wähle (?:die )?zeile am (?:text)?cursor aus"
          ∷ "select (?:the )?current line" ∷ "select (?:the )?line at (?:the )?(?:text )?cursor"
          ∷ [])
        (simple "desktop.text.select_current_line" low true)
    ∷ []
