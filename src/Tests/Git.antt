-- ===== src/Tests/Git.antt =====
-- Runs of the functions on texts of internal/gitstore/gitstore.go.
use gitfs.Prelude.{Text, List, ◌++◌, true, bytes, text_eq, [], ◌∷◌, some, map, false, ◌≡◌, refl}
use gitfs.Errors.{ok}
use gitfs.Model.{BaseNode}
use gitfs.Git.Tree.{GitCommands, add_implicit_dirs, build_tree_index}
use gitfs.Git.Tree.Walks.{Added, all_have_parents}
use gitfs.Git.Tree.Closed.{git_nodes, build_tree_index-closed}
use gitfs.Git.Refs.{fetch_ref_target}
use gitfs.Git.Records.{index_records, new_index, read_null_delimited, parse_mode}
use gitfs.Strings.{trim_space}
use gitfs.Git.Shell.{split_shell_fields, ssh_batch_mode_command}
use gitfs.Git.Shell.BatchMode.{WithoutBatchMode, named}
use gitfs.Git.Shell.RoundTrip.{split_shell_fields-ssh_batch_mode_command}

command_is_some : text_eq (trim_space (bytes "ssh -i 'my key' -o BatchMode=no")) [] ≡ false
unfolding trim_space text_eq
command_is_some = refl

split_shell_fields-ssh_batch_mode_command_example :
    (left : List Text) × WithoutBatchMode
      (split_shell_fields (trim_space (bytes "ssh -i 'my key' -o BatchMode=no")))
      left
    × (split_shell_fields (ssh_batch_mode_command (bytes "ssh -i 'my key' -o BatchMode=no"))
        ≡ named left ++ (bytes "-o" ∷ (bytes "BatchMode=yes" ∷ [])))
split_shell_fields-ssh_batch_mode_command_example =
    split_shell_fields-ssh_batch_mode_command (bytes "ssh -i 'my key' -o BatchMode=no")
      command_is_some

full_ref :
    fetch_ref_target (bytes " refs/tags/v1 ") (bytes "main")
    ≡ some (record {
      source_ref = bytes "refs/tags/v1";
      remote_ref = bytes "refs/remotes/artifact-fs/fetch-ref";
      branch = [];
    })
unfolding fetch_ref_target text_eq trim_space gitfs.Path.Names.cut_prefix
    gitfs.Path.Names.has_prefix
full_ref = refl

tree_lines :
    map
      (λ (n : BaseNode). n.path)
      (index_records new_index (
        read_null_delimited
          (bytes "100644 blob f0\ta b\0120000 blob f1\tl\0160000 commit c0\tsub\0"))).nodes
    ≡ bytes "." ∷ (bytes "a b" ∷ (bytes "l" ∷ []))
unfolding index_records read_null_delimited gitfs.Prelude.keep gitfs.Strings.Search.split_byte
    text_eq gitfs.Strings.index_byte gitfs.Strings.fields_from gitfs.Git.Records.root_node
tree_lines = refl

modes :
    map parse_mode (bytes "120000" ∷ (bytes "77777777777777" ∷ (bytes "19" ∷ [])))
    ≡ 0o120000 ∷ (4294967295 ∷ (0 ∷ []))
unfolding parse_mode text_eq
modes = refl

-- The output of `git ls-tree` for a tree of one file, of which git lacks the directories here.
abbrev one_record : Text
one_record = bytes "100644 blob f0\ta/b/c\0"

abbrev commands : GitCommands
commands = record { ls_tree = λ h. ok one_record; batch_check = λ oids. bytes "f0 blob 3" ∷ [] }

added_dirs :
    map (λ (n : BaseNode). n.path) (add_implicit_dirs (git_nodes commands one_record))
    ≡ bytes "." ∷ (bytes "a/b/c" ∷ (bytes "a/b" ∷ (bytes "a" ∷ [])))
unfolding add_implicit_dirs gitfs.Git.Tree.batch_resolve_sizes index_records read_null_delimited
    gitfs.Prelude.keep gitfs.Strings.Search.split_byte text_eq gitfs.Strings.index_byte
    gitfs.Strings.fields_from gitfs.Path.Names.dir gitfs.Path.clean gitfs.Path.Names.up_to_slash
    gitfs.Path.join_words gitfs.Path.split gitfs.Path.push_word gitfs.Prelude.any
    gitfs.Git.Records.root_node
added_dirs = refl

build_tree_index-closed_example :
    (all : List BaseNode) × (build_tree_index commands (bytes "c1") ≡ ok all)
    × Added (git_nodes commands one_record) all
    × (all_have_parents all all ≡ true)
build_tree_index-closed_example = build_tree_index-closed commands (bytes "c1") one_record refl
