-- ===== src/Tests/Examples.antt =====
-- The builds that the examples install and update: a game of two files, and its next version.
use custom_game_launcher_bac.Base.{true, false, List, [], ◌∷◌, pos, Bytes, codes}
use custom_game_launcher_bac.Domain.Manifest.{ManifestEntry}

abbrev pub hash_a : Bytes
hash_a = codes "aaaaaaaaaaaaaaaaaaaaaaaaaaaaaaaaaaaaaaaaaaaaaaaaaaaaaaaaaaaaaaaa"

abbrev pub hash_b : Bytes
hash_b = codes "bbbbbbbbbbbbbbbbbbbbbbbbbbbbbbbbbbbbbbbbbbbbbbbbbbbbbbbbbbbbbbbb"

abbrev pub game_exe : ManifestEntry
game_exe = record {
  relative_path = codes "bin/game.exe";
  blob_sha256 = hash_a;
  size_bytes = pos 7;
  is_executable = true;
}

abbrev pub data_pak : ManifestEntry
data_pak = record {
  relative_path = codes "data/a.pak";
  blob_sha256 = hash_b;
  size_bytes = pos 20;
  is_executable = false;
}

-- The same content at another path.
abbrev pub moved_pak : ManifestEntry
moved_pak = record data_pak { relative_path = codes "data/b.pak" }

-- The same path with other content.
abbrev pub patched_exe : ManifestEntry
patched_exe = record game_exe { blob_sha256 = codes "cc" }

abbrev pub first_build : List ManifestEntry
first_build = game_exe ∷ data_pak ∷ []

abbrev pub second_build : List ManifestEntry
second_build = data_pak ∷ moved_pak ∷ patched_exe ∷ []
