-- ===== src/Conflict.antt =====
-- The conflict editor of gui/src/main.rs: its data, `parse_conflict_sections`,
-- `compose_conflict_editor_output` and `apply_conflict_choice_to_all_hunks`.
pub mod Compose
pub mod Choices
pub mod Sides
pub mod SameLines
pub mod Grammar
pub mod Sound
use dqrvcs.Prelude.{
  ℕ, zero, suc, Bool, true, false, List, [], ◌∷◌, ◌++◌, if◌then◌else◌, is_empty, ltb, length,
  get_elem?, some_or, map, max, Option, none, some, Result, ok, err,
}
use dqrvcs.Text.{Text, codes, starts_with}
use dqrvcs.Text.Split.{split_inclusive}

pub data ConflictLineSource : Type 0 where
  ours theirs : ConflictLineSource

pub record ConflictHunk : Type 0 where
  pub ours_lines : List Text
  pub theirs_lines : List Text
  pub choices : List ConflictLineSource

pub data ConflictSection : Type 0 where
  plain : Text → ConflictSection
  hunk : ConflictHunk → ConflictSection

pub record ConflictEditorState : Type 0 where
  pub file_path : Text
  pub sections : List ConflictSection
  pub parse_error : Text

unfoldable pub opens : Text → Bool
opens line = starts_with line (codes "<<<<<<<")

unfoldable pub separates : Text → Bool
separates line = starts_with line (codes "=======")

unfoldable pub closes : Text → Bool
closes line = starts_with line (codes ">>>>>>>")

-- `for line_idx in 0..max_lines { choices.push(..) }`, `rounds` of it from `line_idx` on.
unfoldable pub choices_from : ℕ → ℕ → ℕ → List ConflictLineSource
choices_from zero line_idx ours_len = []
choices_from (suc rounds) line_idx ours_len =
    (if ltb line_idx ours_len then ours else theirs) ∷ choices_from rounds (suc line_idx) ours_len

-- A hunk as it is pushed after its closing marker.
unfoldable pub new_hunk : List Text → List Text → ConflictHunk
new_hunk os ts = record {
  ours_lines = os;
  theirs_lines = ts;
  choices = choices_from (max (length os) (length ts)) 0 (length os);
}

-- `if !plain.is_empty() { sections.push(Plain(take(&mut plain))) }`
abbrev pub push_plain : Text → List ConflictSection → List ConflictSection
push_plain text sections = if is_empty text then sections else sections ++ plain text ∷ []

-- The outer `while`, and the two inner ones that collect `ours` and `theirs`. The argument that
-- shrinks is `lines[idx..]`.
unfoldable mutual
  pub parse_outer : List Text → Text → List ConflictSection → Result (List ConflictSection)
  parse_outer [] text sections = ok (push_plain text sections)
  parse_outer (line ∷ rest) text sections = elim (opens line) [
    | true ↦ parse_ours rest [] (push_plain text sections)
    | false ↦ parse_outer rest (text ++ line) sections
  ]

  pub parse_ours : List Text → List Text → List ConflictSection → Result (List ConflictSection)
  parse_ours [] os sections = err (codes "conflict parse error: missing `=======` marker")
  parse_ours (line ∷ rest) os sections = elim (separates line) [
    | true ↦ parse_theirs rest os [] sections
    | false ↦ parse_ours rest (os ++ line ∷ []) sections
  ]

  pub parse_theirs :
      List Text → List Text → List Text → List ConflictSection → Result (List ConflictSection)
  parse_theirs [] os ts sections = err (codes "conflict parse error: missing `>>>>>>>` marker")
  parse_theirs (line ∷ rest) os ts sections = elim (closes line) [
    | true ↦ parse_outer rest [] (sections ++ hunk (new_hunk os ts) ∷ [])
    | false ↦ parse_theirs rest os (ts ++ line ∷ []) sections
  ]

unfoldable pub parse_conflict_sections : Text → Result (List ConflictSection)
unfolding parse_outer split_inclusive
parse_conflict_sections raw = parse_outer (split_inclusive raw) [] []

-- `if let Some(line) = ..get(idx) { out.push_str(line) }`
abbrev pub line_at : List Text → ℕ → Text
line_at ls idx = some_or (get_elem? ls idx) []

abbrev pub chosen : ConflictLineSource → List Text → List Text → ℕ → Text
chosen ours os ts idx = line_at os idx
chosen theirs os ts idx = line_at ts idx

-- `for idx in 0..max_lines`, `rounds` of it from `idx` on: what it appends.
unfoldable pub compose_from : ℕ → ℕ → ConflictHunk → Text
compose_from zero idx h = []
compose_from (suc rounds) idx h =
    chosen (some_or (get_elem? h.choices idx) ours) h.ours_lines h.theirs_lines idx
    ++ compose_from rounds (suc idx) h

unfoldable pub compose_section : ConflictSection → Text
unfolding compose_from
compose_section (plain text) = text
compose_section (hunk h) = compose_from (max (length h.ours_lines) (length h.theirs_lines)) 0 h

unfoldable pub compose_conflict_editor_output : List ConflictSection → Text
unfolding compose_section
compose_conflict_editor_output [] = []
compose_conflict_editor_output (s ∷ sections) =
    compose_section s ++ compose_conflict_editor_output sections

-- `for choice in &mut hunk.choices { *choice = source }`
abbrev pub choose : ConflictLineSource → ConflictSection → ConflictSection
choose source (plain text) = plain text
choose source (hunk h) = hunk (record h { choices = map (λ _. source) h.choices })

unfoldable pub apply_conflict_choice_to_all_hunks :
    List ConflictSection → ConflictLineSource → List ConflictSection
apply_conflict_choice_to_all_hunks sections source = map (choose source) sections
