-- ===== src/Tests/Path.antt =====
-- Runs of the paths of internal/model/types.go.
use gitfs.Prelude.{◌≡◌, refl, bytes, text_eq}
use gitfs.Path.{clean_path, clean, split, join_words, push_word}

climbs : clean_path (bytes "/a/../../b//c/.") ≡ bytes "b/c"
unfolding clean_path clean split join_words push_word text_eq
climbs = refl
