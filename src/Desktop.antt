-- ===== src/Desktop.antt =====
-- src/clausis/gnome_adapter.py: the focused text field of the GNOME desktop.
pub mod Provider
pub mod Tree
pub mod Attempt
pub mod Change
pub mod Field
pub mod Words
pub mod Lines
pub mod Edit
pub mod TextEdits
pub mod LineEdits
pub mod LineMoves
pub mod Caret
pub mod Reading
pub mod Selection
pub mod SelectionEdits
pub mod Snapshot
pub mod Shows
pub mod Restored
pub mod Ends
pub mod Aims
pub mod Safe
pub mod Planned
pub mod LineShows
pub mod PlannedLines
pub mod Operations
pub mod WordBounds
pub mod Inverse
pub mod Copy
pub mod Moves
pub mod CaretOperations
pub mod Session
pub mod DryRun
