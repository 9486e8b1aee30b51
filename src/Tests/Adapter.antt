-- ===== src/Tests/Adapter.antt =====
-- Runs of internal/fsadapter/fsadapter.go.
use gitfs.Prelude.{ℕ, Text, bytes, text_eq, true, [], ◌∷◌, take, drop, ◌≡◌, refl}
use gitfs.Errors.{ok}
use gitfs.Path.{clean_path}
use gitfs.Overlay.Table.{select}
use gitfs.Resolver.{in_overlay}
use gitfs.Resolver.Dirents.{ReaddirEntry, overlay_entry}
use gitfs.Engine
use gitfs.Adapter.{Sources, engine_sources, ArtifactFile, opened_file, listed, bad, eof}
use gitfs.Adapter.Chunks.{total, read_chunks, read_chunks-take}
use gitfs.Tests.Worlds.{repo, hydrator, dirty_world, modified_a}

abbrev sources : Sources
sources = engine_sources hydrator repo

abbrev file_a : ArtifactFile
file_a = opened_file (bytes "a") (in_overlay modified_a)

reads_a :
    (off size : ℕ)
    → sources.read file_a.path off size dirty_world
      ≡ (ok (take size (drop off (bytes "hi"))), dirty_world)
unfolding engine_sources Engine.read gitfs.Overlay.Store.get select text_eq clean_path
    gitfs.Path.clean gitfs.Path.join_words gitfs.Path.split gitfs.Path.push_word
    Engine.read_file_chunk gitfs.Machine.Disk.find_node
reads_a off size = refl

read_chunks-take_example :
    read_chunks sources (1 ∷ (4 ∷ [])) file_a dirty_world
    ≡ take (total (1 ∷ (4 ∷ []))) (drop file_a.off (bytes "hi"))
read_chunks-take_example =
    read_chunks-take sources (1 ∷ (4 ∷ [])) file_a dirty_world (bytes "hi") refl refl reads_a

-- The second of two calls on a directory: after one entry of three, the rest sets the offset to 2, so
-- that a third call gives the last entry again.
abbrev file_d : ArtifactFile
file_d = record file_a { off = 1; is_dir = true }

abbrev named : Text → ReaddirEntry
named t = overlay_entry t modified_a

rest_repeats :
    (listed file_d 0 (named (bytes "x") ∷ (named (bytes "y") ∷ (named (bytes "z") ∷ [])))).1.off ≡ 2
rest_repeats = refl

empty_directory : (listed (record file_d { off = 0 }) 0 []).0 ≡ bad eof
empty_directory = refl
