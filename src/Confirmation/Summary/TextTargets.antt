-- ===== src/Confirmation/Summary/TextTargets.antt =====
-- The entries of `fixed_targets` of src/clausis/confirmation.py for text fields.
use clausis.Prelude.{String, List, [], ◌∷◌}

abbrev pub text_targets : List (String × String)
text_targets =
    ("desktop.text.set", "das aktuell fokussierte Textfeld; der Inhalt wird nicht wiederholt")
    ∷ (
      "desktop.text.copy_focused",
      "den vollständigen Inhalt des aktuell fokussierten, nicht geschützten Textfelds in die Wayland-Zwischenablage kopieren; der Inhalt wird nicht wiederholt und der bisherige Zwischenablageinhalt wird überschrieben",
    )
    ∷ (
      "desktop.text.copy_selection",
      "die aktuell eindeutig ausgewählte Textspanne aus dem fokussierten, nicht geschützten Textfeld in die Wayland-Zwischenablage kopieren; der Inhalt wird nicht wiederholt und der bisherige Zwischenablageinhalt wird überschrieben",
    )
    ∷ (
      "desktop.text.read_selection",
      "die aktuell eindeutig ausgewählte Textspanne aus dem fokussierten, nicht geschützten Textfeld laut vorlesen; der Inhalt selbst wird weder in dieser Bestätigung noch im Audit gespeichert",
    )
    ∷ (
      "desktop.text.delete_selection",
      "die aktuell eindeutig ausgewählte Textspanne aus dem fokussierten, nicht geschützten Textfeld löschen; der Inhalt wird nicht wiederholt und bei einer Abweichung wird der vorherige Feldzustand wiederhergestellt",
    )
    ∷ (
      "desktop.text.delete_current_line",
      "die aktuelle begrenzte Zeile am Textcursor einschließlich genau eines zugehörigen Zeilenumbruchs aus dem fokussierten, nicht geschützten Textfeld löschen; der Inhalt wird nicht wiederholt und bei einer Abweichung werden Text und Cursor wiederhergestellt",
    )
    ∷ (
      "desktop.text.replace_current_line",
      "die aktuelle begrenzte Zeile am Textcursor im fokussierten, nicht geschützten Textfeld durch den diktierten Text ersetzen; alter und neuer Inhalt werden nicht wiederholt, der vorhandene Zeilenumbruch bleibt erhalten und bei einer Abweichung werden Text und Cursor wiederhergestellt",
    )
    ∷ (
      "desktop.text.insert_line_above",
      "eine neue einzeilige Textzeile direkt oberhalb der aktuellen begrenzten Zeile im fokussierten, nicht geschützten Textfeld einfügen; der diktierte Inhalt wird nicht wiederholt und bei einer Abweichung werden Text und Cursor wiederhergestellt",
    )
    ∷ (
      "desktop.text.insert_line_below",
      "eine neue einzeilige Textzeile direkt unterhalb der aktuellen begrenzten Zeile im fokussierten, nicht geschützten Textfeld einfügen; der diktierte Inhalt wird nicht wiederholt und bei einer Abweichung werden Text und Cursor wiederhergestellt",
    )
    ∷ (
      "desktop.text.duplicate_line_above",
      "die aktuelle begrenzte nicht leere Zeile im fokussierten, nicht geschützten Textfeld direkt oberhalb duplizieren; der Zeileninhalt wird weder wiederholt noch auditiert und bei einer Abweichung werden Text und Cursor wiederhergestellt",
    )
    ∷ (
      "desktop.text.duplicate_line_below",
      "die aktuelle begrenzte nicht leere Zeile im fokussierten, nicht geschützten Textfeld direkt unterhalb duplizieren; der Zeileninhalt wird weder wiederholt noch auditiert und bei einer Abweichung werden Text und Cursor wiederhergestellt",
    )
    ∷ (
      "desktop.text.move_line_up",
      "die aktuelle begrenzte Zeile im fokussierten, nicht geschützten Textfeld exakt mit der Zeile darüber vertauschen; beide Inhalte werden weder wiederholt noch auditiert, die relative Cursorposition bleibt erhalten und bei einer Abweichung werden Text und Cursor wiederhergestellt",
    )
    ∷ (
      "desktop.text.move_line_down",
      "die aktuelle begrenzte Zeile im fokussierten, nicht geschützten Textfeld exakt mit der Zeile darunter vertauschen; beide Inhalte werden weder wiederholt noch auditiert, die relative Cursorposition bleibt erhalten und bei einer Abweichung werden Text und Cursor wiederhergestellt",
    )
    ∷ (
      "desktop.text.join_previous_line",
      "genau den Zeilenumbruch zwischen der aktuellen begrenzten Zeile und der begrenzten Zeile davor im fokussierten, nicht geschützten Textfeld entfernen; beide Inhalte werden weder wiederholt noch auditiert und bei einer Abweichung werden Text und Cursor wiederhergestellt",
    )
    ∷ (
      "desktop.text.join_next_line",
      "genau den Zeilenumbruch zwischen der aktuellen begrenzten Zeile und der begrenzten Zeile danach im fokussierten, nicht geschützten Textfeld entfernen; beide Inhalte werden weder wiederholt noch auditiert und bei einer Abweichung werden Text und Cursor wiederhergestellt",
    )
    ∷ (
      "desktop.text.split_line_at_caret",
      "genau einen Zeilenumbruch an der aktuellen Textcursorposition in der begrenzten aktuellen Zeile des fokussierten, nicht geschützten Textfelds einfügen; der Zeileninhalt wird weder wiederholt noch auditiert und bei einer Abweichung werden Text und Cursor wiederhergestellt",
    )
    ∷ (
      "desktop.text.indent_current_line",
      "genau vier Leerzeichen vor der aktuellen begrenzten Zeile im fokussierten, nicht geschützten Textfeld einfügen; der Zeileninhalt wird weder wiederholt noch auditiert und bei einer Abweichung werden Text und Cursor wiederhergestellt",
    )
    ∷ (
      "desktop.text.outdent_current_line",
      "genau einen führenden Tabulator oder bis zu vier führende Leerzeichen aus der aktuellen begrenzten Zeile im fokussierten, nicht geschützten Textfeld entfernen; der Zeileninhalt wird weder wiederholt noch auditiert und bei einer Abweichung werden Text und Cursor wiederhergestellt",
    )
    ∷ (
      "desktop.text.insert_at_caret",
      "den diktierten Text an der aktuellen Textcursorposition im fokussierten, nicht geschützten Textfeld einfügen; der Inhalt wird nicht wiederholt und bei einer Abweichung wird der vorherige Feldzustand wiederhergestellt",
    )
    ∷ (
      "desktop.text.delete_previous_character",
      "genau ein vorhandenes Zeichen unmittelbar vor dem Textcursor im fokussierten, nicht geschützten Textfeld löschen; der Inhalt wird nicht wiederholt und bei einer Abweichung wird der vorherige Feldzustand wiederhergestellt",
    )
    ∷ (
      "desktop.text.delete_next_character",
      "genau ein vorhandenes Zeichen unmittelbar nach dem Textcursor im fokussierten, nicht geschützten Textfeld löschen; der Inhalt wird nicht wiederholt und bei einer Abweichung wird der vorherige Feldzustand wiederhergestellt",
    )
    ∷ (
      "desktop.text.delete_previous_word",
      "genau ein vorhandenes Wort vor dem Textcursor im fokussierten, nicht geschützten Textfeld löschen; der Inhalt wird nicht wiederholt und bei einer Abweichung wird der vorherige Feldzustand wiederhergestellt",
    )
    ∷ (
      "desktop.text.delete_next_word",
      "genau ein vorhandenes Wort nach dem Textcursor im fokussierten, nicht geschützten Textfeld löschen; der Inhalt wird nicht wiederholt und bei einer Abweichung wird der vorherige Feldzustand wiederhergestellt",
    )
    ∷ (
      "desktop.text.replace_previous_word",
      "genau ein vorhandenes Wort vor dem Textcursor im fokussierten, nicht geschützten Textfeld durch den diktierten Text ersetzen; alter und neuer Inhalt werden nicht wiederholt und bei einer Abweichung wird der vorherige Feldzustand wiederhergestellt",
    )
    ∷ (
      "desktop.text.replace_next_word",
      "genau ein vorhandenes Wort nach dem Textcursor im fokussierten, nicht geschützten Textfeld durch den diktierten Text ersetzen; alter und neuer Inhalt werden nicht wiederholt und bei einer Abweichung wird der vorherige Feldzustand wiederhergestellt",
    )
    ∷ (
      "desktop.text.replace_selection",
      "die aktuell eindeutig ausgewählte Textspanne im fokussierten, nicht geschützten Textfeld durch den diktierten Text ersetzen; Auswahl- und Ersatzinhalt werden nicht wiederholt und bei einer Abweichung wird der vorherige Feldzustand wiederhergestellt",
    )
    ∷ (
      "desktop.text.read_previous_character",
      "genau ein vorhandenes Zeichen unmittelbar vor dem Textcursor im fokussierten, nicht geschützten Textfeld laut vorlesen; das Zeichen selbst wird weder in dieser Bestätigung noch im Audit gespeichert",
    )
    ∷ (
      "desktop.text.read_next_character",
      "genau ein vorhandenes Zeichen unmittelbar nach dem Textcursor im fokussierten, nicht geschützten Textfeld laut vorlesen; das Zeichen selbst wird weder in dieser Bestätigung noch im Audit gespeichert",
    )
    ∷ (
      "desktop.text.read_previous_word",
      "genau ein vorhandenes Wort vor dem Textcursor im fokussierten, nicht geschützten Textfeld innerhalb einer begrenzten Suche laut vorlesen; das Wort selbst wird weder in dieser Bestätigung noch im Audit gespeichert",
    )
    ∷ (
      "desktop.text.read_next_word",
      "genau ein vorhandenes Wort nach dem Textcursor im fokussierten, nicht geschützten Textfeld innerhalb einer begrenzten Suche laut vorlesen; das Wort selbst wird weder in dieser Bestätigung noch im Audit gespeichert",
    )
    ∷ (
      "desktop.text.read_current_line",
      "die aktuelle, auf höchstens 1.000 Zeichen begrenzte Zeile am Textcursor im fokussierten, nicht geschützten Textfeld laut vorlesen; der Zeileninhalt selbst wird weder in dieser Bestätigung noch im Audit gespeichert",
    )
    ∷ (
      "desktop.text.paste_focused",
      "den begrenzten Textinhalt der Wayland-Zwischenablage in das aktuell fokussierte, nicht geschützte und editierbare Textfeld einfügen; der Inhalt wird nicht wiederholt und der bisherige Feldinhalt wird überschrieben",
    )
    ∷ []
