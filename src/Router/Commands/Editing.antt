-- ===== src/Router/Commands/Editing.antt =====
-- The entries of `COMMANDS` of src/clausis/router.py for changes of the text.
use clausis.Prelude.{true, false, List, [], ◌∷◌}
use clausis.Models.Request.{low, medium}
use clausis.Router.Builder.{CommandPattern, command, simple, targeted}

abbrev pub editing_commands : List CommandPattern
editing_commands =
    command "delete-current-line"
      ("lösche (?:die )?aktuelle zeile" ∷ "lösche (?:die )?zeile am (?:text)?cursor"
        ∷ "delete (?:the )?current line" ∷ "delete (?:the )?line at (?:the )?(?:text )?cursor" ∷ [])
      (simple "desktop.text.delete_current_line" medium true)
    ∷ command "replace-current-line"
        ("ersetze (?:die )?aktuelle zeile durch (?P<target>.+)"
          ∷ "ersetze (?:die )?zeile am (?:text)?cursor durch (?P<target>.+)"
          ∷ "replace (?:the )?current line with (?P<target>.+)"
          ∷ "replace (?:the )?line at (?:the )?(?:text )?cursor with (?P<target>.+)" ∷ [])
        (targeted "desktop.text.replace_current_line" medium true)
    ∷ command "insert-line-above"
        ("füge (?:die )?zeile (?P<target>.+) (?:oberhalb|über) (?:der )?aktuellen zeile ein"
          ∷ "füge oberhalb (?:der )?aktuellen zeile (?P<target>.+) ein"
          ∷ "insert (?:the )?line (?P<target>.+) above (?:the )?current line" ∷ [])
        (targeted "desktop.text.insert_line_above" medium true)
    ∷ command "insert-line-below"
        ("füge (?:die )?zeile (?P<target>.+) unterhalb (?:der )?aktuellen zeile ein"
          ∷ "füge unterhalb (?:der )?aktuellen zeile (?P<target>.+) ein"
          ∷ "insert (?:the )?line (?P<target>.+) below (?:the )?current line" ∷ [])
        (targeted "desktop.text.insert_line_below" medium true)
    ∷ command "duplicate-line-above"
        ("dupliziere (?:die )?aktuelle zeile (?:oberhalb|nach oben)"
          ∷ "duplicate (?:the )?current line above" ∷ [])
        (simple "desktop.text.duplicate_line_above" medium true)
    ∷ command "duplicate-line-below"
        ("dupliziere (?:die )?aktuelle zeile (?:unterhalb|nach unten)"
          ∷ "duplicate (?:the )?current line below" ∷ [])
        (simple "desktop.text.duplicate_line_below" medium true)
    ∷ command "move-line-up"
        ("verschiebe (?:die )?aktuelle zeile nach oben" ∷ "move (?:the )?current line up" ∷ [])
        (simple "desktop.text.move_line_up" medium true)
    ∷ command "move-line-down"
        ("verschiebe (?:die )?aktuelle zeile nach unten" ∷ "move (?:the )?current line down" ∷ [])
        (simple "desktop.text.move_line_down" medium true)
    ∷ command "join-previous-line"
        ("verbinde (?:die )?aktuelle zeile mit (?:der )?vorherigen"
          ∷ "join (?:the )?current line with (?:the )?previous line" ∷ [])
        (simple "desktop.text.join_previous_line" medium true)
    ∷ command "join-next-line"
        ("verbinde (?:die )?aktuelle zeile mit (?:der )?nächsten"
          ∷ "join (?:the )?current line with (?:the )?next line" ∷ [])
        (simple "desktop.text.join_next_line" medium true)
    ∷ command "split-line-at-caret"
        ("teile (?:die )?aktuelle zeile am (?:text)?cursor"
          ∷ "split (?:the )?current line at (?:the )?(?:text )?cursor" ∷ [])
        (simple "desktop.text.split_line_at_caret" medium true)
    ∷ command "indent-current-line"
        ("rücke (?:die )?aktuelle zeile ein" ∷ "indent (?:the )?current line" ∷ [])
        (simple "desktop.text.indent_current_line" medium true)
    ∷ command "outdent-current-line"
        ("rücke (?:die )?aktuelle zeile aus" ∷ "outdent (?:the )?current line" ∷ [])
        (simple "desktop.text.outdent_current_line" medium true)
    ∷ command "replace-text-selection"
        ("ersetze (?:die )?textauswahl durch (?P<target>.+)"
          ∷ "replace (?:the )?text selection with (?P<target>.+)" ∷ [])
        (targeted "desktop.text.replace_selection" medium true)
    ∷ command "read-previous-character"
        ("lies (?:das )?zeichen vor (?:dem )?(?:text)?cursor vor"
          ∷ "read (?:the )?character before (?:the )?(?:text )?cursor" ∷ [])
        (simple "desktop.text.read_previous_character" medium true)
    ∷ command "read-next-character"
        ("lies (?:das )?zeichen nach (?:dem )?(?:text)?cursor vor"
          ∷ "read (?:the )?character after (?:the )?(?:text )?cursor" ∷ [])
        (simple "desktop.text.read_next_character" medium true)
    ∷ command "read-previous-word"
        ("lies (?:das )?wort vor (?:dem )?(?:text)?cursor vor"
          ∷ "read (?:the )?word before (?:the )?(?:text )?cursor" ∷ [])
        (simple "desktop.text.read_previous_word" medium true)
    ∷ command "read-next-word"
        ("lies (?:das )?wort nach (?:dem )?(?:text)?cursor vor"
          ∷ "read (?:the )?word after (?:the )?(?:text )?cursor" ∷ [])
        (simple "desktop.text.read_next_word" medium true)
    ∷ command "read-current-line"
        ("lies (?:die )?aktuelle zeile vor" ∷ "lies (?:die )?zeile am (?:text)?cursor vor"
          ∷ "read (?:the )?current line" ∷ "read (?:the )?line at (?:the )?(?:text )?cursor" ∷ [])
        (simple "desktop.text.read_current_line" medium true)
    ∷ command "paste-focused-text"
        ("füge (?:die )?zwischenablage (?:in das )?textfeld ein"
          ∷ "paste (?:the )?clipboard (?:into|in) (?:the )?text field" ∷ [])
        (simple "desktop.text.paste_focused" medium false)
    ∷ command "read-named-progress"
        ("lies fortschritt (?P<target>.+) vor" ∷ "read progress (?P<target>.+)" ∷ [])
        (targeted "desktop.progress.read_named" low true)
    ∷ []
