-- ===== src/Wav/Tests.antt =====
-- The results on the WAV writer, applied to a concrete stream.
use mathlib.Core.Option
use tts_studio.Base.{
  ℕ, ◌+◌, ◌*◌, ◌≡◌, refl, true, false, none, some, List, [], ◌∷◌, ◌++◌, arith, length, take, drop,
}
use tts_studio.Base.Exec.{ok, ◌>>◌}
use tts_studio.Wav.Header.{header_bytes, expected_header}
use tts_studio.Wav.Writer.{
  File, Writer, Tools, System, open_writer, finalize, header_size, check_source, copy_and_check,
  publish, bytes_eq,
}
use tts_studio.Wav.Publish.{finalize-published}
use tts_studio.Wav.Total.{write_all, finalize-total}

abbrev checksum : List ℕ → ℕ
checksum [] = 0
checksum (b ∷ bs) = b + 256 * checksum bs

abbrev tools : Tools
tools = record { wave = λ pcm. header_bytes (length pcm) ++ pcm; digest = checksum }

abbrev healthy : System
healthy = record {
  fresh = 2;
  flushes = true;
  renames = true;
  syncs = true;
  unlinks = true;
  aborting = record { staging = true; final = true };
}

-- The sync of the directory fails, after the rename.
abbrev faulty : System
faulty = record healthy { syncs = false }

abbrev pcm : List ℕ
pcm = 1 ∷ 2 ∷ []

abbrev staged_writer : Writer
staged_writer = record {
  is_open = true;
  stream = pcm;
  source_identity = 1;
  byte_count = 2;
  hashed = pcm;
  published = false;
  published_identity = none;
  temporary = some (record { inode = 1; bytes = []; is_symlink = false });
  final_temporary = none;
  destination = none;
}

abbrev new_wav : File
new_wav = record { inode = 2; bytes = header_bytes 2 ++ pcm; is_symlink = false }

abbrev published_writer : Writer
published_writer = record staged_writer {
  is_open = false;
  published = true;
  published_identity = some 2;
  temporary = none;
  destination = some new_wav;
}

abbrev aborted_writer : Writer
aborted_writer = record staged_writer { is_open = false; temporary = none }

finalize-published_example :
    (file : File) × (published_writer.destination ≡ some file)
    × (published_writer.published ≡ true)
    × (published_writer.temporary ≡ none)
    × (published_writer.final_temporary ≡ none)
    × (take header_size file.bytes ≡ header_bytes 2)
    × (length file.bytes ≡ header_size + 2)
    × (checksum (drop header_size file.bytes) ≡ checksum pcm)
unfolding finalize check_source copy_and_check publish expected_header header_size bytes_eq
finalize-published_example =
    finalize-published tools healthy (some 2) (some 1) staged_writer published_writer
      (header_bytes 2) refl refl refl

finalize-total_example :
    (w : Writer) × ((do write_all (pcm ∷ pcm ∷ []); finalize tools healthy (some 4) (some 2))
        (open_writer 1 none)
      ≡ (ok tt, w))
    × (Option.map (λ f. f.bytes) w.destination ≡ some (header_bytes 4 ++ pcm ++ pcm))
    × (w.published ≡ true)
unfolding header_bytes
finalize-total_example =
    finalize-total tools healthy 1 (pcm ∷ pcm ∷ []) 2 (refl, (refl, tt)) refl (omega arith) refl
      refl refl refl refl
