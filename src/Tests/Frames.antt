-- ===== src/Tests/Frames.antt =====
-- Frames of the client (gui/src/main.rs) on a repository with one conflicted file, and on one whose
-- git prints the same for every command.
use dqrvcs.Prelude.{
  arith, not, ◌++◌, ℕ, ◌+◌, ◌==◌, ◌||◌, true, false, List, [], ◌∷◌, ◌≡◌, refl, if◌then◌else◌, Bool,
  Option, none, some, ok, any, retain,
}
use dqrvcs.Text.{Text, codes, contains, eqb, is_whitespace, starts_with, utf8_width, byte_len}
use dqrvcs.Text.Bytes.{split_at_byte, show_from, show_nat}
use dqrvcs.Text.Split.{split_inclusive, split_by, split_str, split_whitespace, lines, concat, join}
use dqrvcs.Text.Trim.{trim_start, trim_end, trim}
use dqrvcs.Paths.{
  is_absolute, join_path, components, is_component_prefix, path_starts_with, file_name,
  before_last_slash, parent,
}
use dqrvcs.Status.{
  ends_with_quote, normalize_status_path, parse_status_line, parse_status_entries, status_lines,
}
use dqrvcs.Conflict.{
  ours, theirs, ConflictHunk, ConflictSection, compose_conflict_editor_output, hunk,
  compose_section, opens, separates, closes, choices_from, new_hunk, parse_conflict_sections,
  compose_from, parse_outer, parse_ours, parse_theirs,
}
use dqrvcs.Act.{ret, fail, lift, call, try_call, expect, map_err, attempt, then_do, ◌>>=◌, ◌>>◌}
use dqrvcs.Git.{
  trimmed_lines, git_result, run_git, resolve_git_path, git_path_exists, describe_diff, diff_args,
  load_diff_output, load_branch, load_branch_graph, load_recent_commits, load_rebase_in_progress,
  load_repo_data,
}
use dqrvcs.Gossip.{
  default_gossip, read_json_if_exists, read_ops, read_ops_log, repo_identity_key, config_dir,
  identity_place, resolve_config_base_dir, resolve_global_identity_path,
  resolve_legacy_global_identity_path, or_identity_at, gossip_of, load_gossip_data,
}
use dqrvcs.Files.{resolve_repo_relative_path, load_conflict_editor_state}
use dqrvcs.Binary.{in_repo_or, resolve_vcs_binary, default_vcs_binary}
use dqrvcs.App.Refresh.{
  reselect, follow_propose, follow_git, follow_merge, follow_history, follow_consensus, diff_text,
  refresh_diff_output, follow_before_diff, follow_after_diff, follow_data, take_gossip, load_gossip,
  take_repo, refresh,
}
use dqrvcs.App.Editor.{take_editor, load_selected_conflict_editor}
use dqrvcs.App.Start.{
  new, root_above, guess_repo_root, repo_guess, initial_state, build_app, new_with_runner,
}
use dqrvcs.Draw.{
  Ui, Item, run_all, observe, when, either, paint, act, assign, button_enabled, on_click,
  choose_value, combo_box, text_edit, checkbox,
}
use dqrvcs.Draw.Labels.{short_hash, non_empty, show_right_3, trim_newlines}
use dqrvcs.Draw.Repo.{
  file_choices, draw_repo_panel, draw_branch_graph_panel, drag_period, draw_top_controls,
  draw_git_panel, draw_diff_panel,
}
use dqrvcs.Draw.Hunks.{
  edit_section, edit_sections, set_at, push_missing, shown_line, radio, edit_line, edit_lines,
  draw_sections,
}
use dqrvcs.Draw.Merge.{
  load_in_diff_panel, conflict_choices, any_changed, select_conflict_file, draw_operation_buttons,
  draw_line_editor, draw_conflicts, draw_merge_panel,
}
use dqrvcs.Draw.History.{
  selected_commit_label, add_to_cherry_pick, use_for_squash, commit_choices, reflog_rows,
  draw_commit_actions, draw_rebase, draw_cherry_pick, draw_reset, draw_history_panel,
}
use dqrvcs.Draw.Screen.{
  update, refresh_period, refresh_when_due, draw_cli_row, draw_cli_input_panel, draw_bottom_panel,
  draw_middle_tab_selector, draw_staging_tab, draw_advanced_tab, draw_collaboration_tab, draw_tab,
  draw_window, update_frame,
}
use dqrvcs.History.{commit_of, reflog_of, parse_recent_commits, parse_reflog_entries}
use dqrvcs.System.{System}
use dqrvcs.App.{VcsGuiApp}
use dqrvcs.Draw.Hunks.Sections.{
  picked_text, IsEdited, edit_section-picked_text, edit_sections-IsEdited,
}
use dqrvcs.Conflict.SameLines.{max_lines}
use dqrvcs.Draw.Idle.{idle}
use dqrvcs.Draw.Idle.Frames.{unless_none, update-idle}
use dqrvcs.Draw.Ends.{StatusIsAscii, ClocksRun, update-ends}
use dqrvcs.Status.Ascii.{AllAscii, entries_of, parse_status_entries-ascii}
use dqrvcs.Draw.Reach.{
  Reached, started, framed, IsEditable, SavesSide, client-IsEditable, client-SavesSide,
}
use dqrvcs.Tests.Sample.{tiny, answer, git_prints}

abbrev conflicted_text : Text
conflicted_text = codes "a\n<<<<<<< x\nb\n=======\nc\nd\n>>>>>>> y\n"

abbrev conflicted_prints : List Text → Text
conflicted_prints args =
    if contains args (codes "--diff-filter=U") then codes "f\n" else git_prints args

abbrev conflicted : System
conflicted = record tiny {
  process_output = λ program args w. (ok (answer (conflicted_prints args)), w + 1);
  read_to_string = λ path w. (ok conflicted_text, w);
}

-- The automatic refresh off, the tab "Advanced", the button "Load line editor", and the first "theirs" of its hunk.
abbrev chooses_theirs : Ui conflicted
chooses_theirs = record {
  clicked = λ k. k == 65;
  changed = λ k. k == 15 || k == 79;
  opened = λ k. false;
  entered = λ k. false;
  checked = λ k b. false;
  typed = λ k t. t;
  dragged = λ k s. s;
}

abbrev left_by :
    Option (VcsGuiApp conflicted × ℕ) → VcsGuiApp conflicted × ℕ → VcsGuiApp conflicted × ℕ
left_by none d = d
left_by (some result) d = result

abbrev ends : Option (VcsGuiApp conflicted × ℕ) → Bool
ends none = false
ends (some result) = true

ends-left_by :
    (o : Option (VcsGuiApp conflicted × ℕ)) (d : VcsGuiApp conflicted × ℕ)
    → ends o ≡ true
    → o ≡ some (left_by o d)
ends-left_by none d e = absurd (cc)
ends-left_by (some result) d e = refl

any_state : VcsGuiApp conflicted × ℕ
any_state = (initial_state conflicted [] [] tt, 0)

first : VcsGuiApp conflicted × ℕ
first = left_by (new conflicted 0) any_state

second : VcsGuiApp conflicted × ℕ
second = left_by (update chooses_theirs first.0 first.1) any_state

-- Both the start and the frame end, the period of the refreshes has a duration, and the editor then composes to the chosen text.
runs :
    (ends (new conflicted 0) ≡ true)
    × (ends (update chooses_theirs first.0 first.1) ≡ true)
    × (second.0.auto_refresh ≡ false)
    × (refresh_period conflicted second.0 ≡ some 3)
    × (compose_conflict_editor_output second.0.merge_form.editor.sections ≡ codes "a\nc\nd\n")
unfolding any retain codes eqb is_whitespace starts_with contains utf8_width byte_len split_at_byte
    show_from show_nat split_inclusive split_by split_str split_whitespace lines concat join
    trim_start trim_end trim is_absolute join_path components is_component_prefix path_starts_with
    file_name before_last_slash parent ends_with_quote normalize_status_path parse_status_line
    parse_status_entries status_lines opens separates closes choices_from new_hunk
    parse_conflict_sections compose_from compose_section compose_conflict_editor_output parse_outer
    parse_ours parse_theirs ret fail lift call try_call expect map_err attempt then_do ◌>>=◌ ◌>>◌
    trimmed_lines git_result run_git resolve_git_path git_path_exists describe_diff diff_args
    load_diff_output load_branch load_branch_graph load_recent_commits load_rebase_in_progress
    load_repo_data default_gossip read_json_if_exists read_ops read_ops_log repo_identity_key
    config_dir identity_place resolve_config_base_dir resolve_global_identity_path
    resolve_legacy_global_identity_path or_identity_at gossip_of load_gossip_data
    resolve_repo_relative_path load_conflict_editor_state in_repo_or resolve_vcs_binary
    default_vcs_binary reselect follow_propose follow_git follow_merge follow_history
    follow_consensus diff_text refresh_diff_output follow_before_diff follow_after_diff follow_data
    take_gossip load_gossip take_repo refresh take_editor load_selected_conflict_editor root_above
    guess_repo_root repo_guess initial_state build_app new_with_runner new run_all observe when
    either paint act assign button_enabled on_click choose_value combo_box text_edit checkbox
    short_hash non_empty show_right_3 trim_newlines file_choices draw_repo_panel
    draw_branch_graph_panel drag_period draw_top_controls draw_git_panel draw_diff_panel set_at
    push_missing shown_line radio edit_line edit_lines edit_section edit_sections draw_sections
    load_in_diff_panel conflict_choices any_changed select_conflict_file draw_operation_buttons
    draw_line_editor draw_conflicts draw_merge_panel selected_commit_label add_to_cherry_pick
    use_for_squash commit_choices reflog_rows draw_commit_actions draw_rebase draw_cherry_pick
    draw_reset draw_history_panel refresh_period refresh_when_due draw_cli_row draw_cli_input_panel
    draw_bottom_panel draw_middle_tab_selector draw_staging_tab draw_advanced_tab
    draw_collaboration_tab draw_tab draw_window update_frame update commit_of reflog_of
    parse_recent_commits parse_reflog_entries first second
runs = (refl, refl, refl, refl, refl)

second-Reached : Reached conflicted second.0
unfolding first second
second-Reached =
    framed chooses_theirs first.1 second.1 first.0 second.0
      (started 0 first.1 first.0 (ends-left_by (new conflicted 0) any_state runs.0))
      (ends-left_by (update chooses_theirs first.0 first.1) any_state runs.1)

client-IsEditable_example : IsEditable conflicted second.0.merge_form.editor
client-IsEditable_example = client-IsEditable conflicted second.0 second-Reached

client-SavesSide_example : SavesSide conflicted theirs second.0
client-SavesSide_example = client-SavesSide conflicted theirs second.0 second-Reached

update-idle_example :
    update idle second.0 second.1
    ≡ unless_none conflicted (refresh_period conflicted second.0) second.0 second.1
update-idle_example = update-idle conflicted second.0 second.1 second-Reached runs.2

-- A hunk with one line of ours, two of theirs, and a choice for the first only.
abbrev short_hunk : ConflictHunk
short_hunk = record {
  ours_lines = codes "b\n" ∷ [];
  theirs_lines = codes "c\n" ∷ codes "d\n" ∷ [];
  choices = ours ∷ [];
}

edit_section-picked_text_example :
    (h' : ConflictHunk) × (items' : List Item) × (edit_section chooses_theirs 3 (hunk short_hunk) []
      ≡ some (hunk h', items'))
    × (h'.ours_lines ≡ short_hunk.ours_lines)
    × (h'.theirs_lines ≡ short_hunk.theirs_lines)
    × (compose_section (hunk h') ≡ picked_text chooses_theirs (max_lines short_hunk) 0 1 short_hunk)
edit_section-picked_text_example = edit_section-picked_text chooses_theirs 3 short_hunk []

edit_sections-IsEdited_example :
    (ss' : List ConflictSection) × (items' : List Item) × (edit_sections chooses_theirs 0
        (hunk short_hunk ∷ [])
        []
      ≡ some (ss', items'))
    × IsEdited (hunk short_hunk ∷ []) ss'
edit_sections-IsEdited_example = edit_sections-IsEdited chooses_theirs 0 (hunk short_hunk ∷ []) []

abbrev status_line : Text
status_line = codes "M  a\n"

-- Git prints the same for every command.
abbrev one_change : System
one_change = record tiny { process_output = λ program args w. (ok (answer status_line), w + 1) }

status_line-AllAscii : AllAscii status_line
unfolding codes
status_line-AllAscii = (omega arith, (omega arith, (omega arith, (omega arith, (omega arith, tt)))))

one_change-StatusIsAscii : StatusIsAscii one_change
one_change-StatusIsAscii repo w output e =
    let same : output.stdout ≡ status_line = cc in rw same status_line-AllAscii

one_change-ClocksRun : ClocksRun one_change
one_change-ClocksRun w = ((((λ id. 0), w), refl), ((codes "0", w), refl))

three_seconds : refresh_period one_change (initial_state one_change [] [] tt) ≡ some 3
unfolding refresh_period initial_state
three_seconds = refl

-- Every button is clicked, and every choice is changed.
abbrev clicks_all : Ui one_change
clicks_all = record {
  clicked = λ k. true;
  changed = λ k. true;
  opened = λ k. true;
  entered = λ k. true;
  checked = λ k b. not b;
  typed = λ k t. codes "x" ++ t;
  dragged = λ k s. s + 1;
}

update-ends_example :
    (after : VcsGuiApp one_change) × (w' : ℕ) × (update clicks_all
        (initial_state one_change [] [] tt)
        0
      ≡ some (after, w'))
update-ends_example =
    update-ends one_change one_change-StatusIsAscii one_change-ClocksRun refl clicks_all
      (initial_state one_change [] [] tt) 0 3 three_seconds

parse_status_entries-ascii_example :
    parse_status_entries (status_lines status_line) ≡ some (entries_of (status_lines status_line))
parse_status_entries-ascii_example = parse_status_entries-ascii status_line status_line-AllAscii
