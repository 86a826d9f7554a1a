-- ===== src/Wav/Writer.antt =====
-- src/tts_studio/generation/wav.py: `WavArtifactWriter` with the files that it works on. The open
-- PCM file is its bytes; a path is the inode that it leads to. Other processes act between calls, not
-- during one. What the `wave` module writes and the digest are parameters.
use tts_studio.Base.{
  ℕ, ◌+◌, ◌*◌, ◌%◌, Bool, true, false, not, ◌||◌, ◌&&◌, Option, none, some, List, [], ◌∷◌, ◌++◌,
  ◌==◌, length, take, drop, if◌then◌else◌,
}
use tts_studio.Base.Exec.{
  Result, ok, err, Error, Exec, lift, gets, raise_if, modify, ◌>>=◌, ◌>>◌, runtime_error,
  value_error, os_error, unsafe_storage_path,
}
use tts_studio.Wav.Header.{expected_header}

pub record File : Type 0 where
  pub inode : ℕ
  pub bytes : List ℕ
  pub is_symlink : Bool

pub record Writer : Type 0 where
  pub is_open : Bool
  pub stream : List ℕ
  pub source_identity : ℕ
  pub byte_count : ℕ
  pub hashed : List ℕ
  pub published : Bool
  pub published_identity : Option ℕ
  pub temporary : Option File
  pub final_temporary : Option File
  pub destination : Option File

-- `wave.open(…).writeframesraw(…)`, and SHA-256.
pub record Tools : Type 0 where
  pub wave : List ℕ → List ℕ
  pub digest : List ℕ → ℕ

-- Whether `unlink` succeeds on the staging file, and on the file that is to be published.
pub record Unlinks : Type 0 where
  pub staging : Bool
  pub final : Bool

-- What the operating system does in one call of `finalize`: the inode of the new file, whether the
-- flush, the rename, the sync of the directory and the last `unlink` succeed, and what it does in the
-- call of `abort` that follows an error.
pub record System : Type 0 where
  pub fresh : ℕ
  pub flushes : Bool
  pub renames : Bool
  pub syncs : Bool
  pub unlinks : Bool
  pub aborting : Unlinks

-- `WavArtifactWriter.__init__`: the staging file is new, with the given inode.
unfoldable pub open_writer : ℕ → Option File → Writer
open_writer inode destination = record {
  is_open = true;
  stream = [];
  source_identity = inode;
  byte_count = 0;
  hashed = [];
  published = false;
  published_identity = none;
  temporary = some (record { inode = inode; bytes = []; is_symlink = false });
  final_temporary = none;
  destination = destination;
}

-- A complete write appends to the open file.
unfoldable pub write : List ℕ → Exec Writer (Unit {0})
write pcm = do
  closed ← gets (λ w. w.published || not w.is_open)
  raise_if closed runtime_error
  raise_if (not (length pcm % 2 == 0)) value_error
  modify (λ w. record w {
    stream = w.stream ++ pcm;
    byte_count = w.byte_count + length pcm;
    hashed = w.hashed ++ pcm;
  })

-- `_remove_published_file`: the file is removed if it is the one that was published, and put back
-- with an error if not.
abbrev remove_published : Option ℕ → Option File → Result (Unit {0}) × Option File
remove_published none f = (ok tt, f)
remove_published (some i) none = (ok tt, none)
remove_published (some i) (some f) =
    if f.inode == i && not f.is_symlink then (ok tt, none) else (err unsafe_storage_path, some f)

abbrev forget : Writer → Result (Unit {0}) × Option File → Result (Unit {0}) × Writer
forget w (ok u, f) = (ok u, record w { destination = f; published_identity = none })
forget w (err e, f) = (err e, record w { destination = f })

-- `path.unlink(missing_ok=True)`: a file that is not there is no error.
abbrev can_unlink : Bool → Option File → Bool
can_unlink succeeds none = true
can_unlink succeeds (some f) = succeeds

-- `abort`: nothing is done after publication, and what raises ends it.
unfoldable pub abort : Unlinks → Exec Writer (Unit {0})
abort unlinks w =
    if w.published
    then (ok tt, w)
    else if not (can_unlink unlinks.staging w.temporary)
    then (err os_error, record w { is_open = false })
    else if not (can_unlink unlinks.final w.final_temporary)
    then (err os_error, record w { is_open = false; temporary = none })
    else forget (record w { is_open = false; temporary = none; final_temporary = none })
        (remove_published w.published_identity w.destination)

-- `except BaseException: self.abort(); raise`.
abbrev pub reraise {ℓ} : {A : Type ℓ} → Error → Result (Unit {0}) × Writer → Result A × Writer
reraise e (ok u, w) = (err e, w)
reraise e (err e', w) = (err e', w)

abbrev pub aborting {ℓ} : {A : Type ℓ} → Unlinks → Result A × Writer → Result A × Writer
aborting unlinks (ok a, w) = (ok a, w)
aborting unlinks (err e, w) = reraise e (abort unlinks w)

abbrev differs : Option ℕ → ℕ → Bool
differs none n = false
differs (some m) n = not (m == n)

abbrev doubled : Option ℕ → Option ℕ
doubled none = none
doubled (some f) = some (f * 2)

-- `_require_identity`.
abbrev check_identity : Option File → ℕ → Result (Unit {0})
check_identity none i = err os_error
check_identity (some f) i =
    if f.is_symlink || not (f.inode == i) then err unsafe_storage_path else ok tt

abbrev is_link : Option File → Bool
is_link none = false
is_link (some f) = f.is_symlink

unfoldable pub bytes_eq : List ℕ → List ℕ → Bool
bytes_eq [] [] = true
bytes_eq (x ∷ xs) (y ∷ ys) = x == y && bytes_eq xs ys
bytes_eq _ _ = false

-- `final_stream.read(44)`: the size of the header.
unfoldable pub header_size : ℕ
header_size = 44

module _ (tools : Tools) (system : System) where
  -- Up to the copy: the totals, the staging file, the destination.
  unfoldable pub check_source : Option ℕ → Option ℕ → Exec Writer (Unit {0})
  check_source bytes frames = do
    is_open ← gets (λ w. w.is_open)
    raise_if (not is_open) value_error
    raise_if (not system.flushes) os_error
    count ← gets (λ w. w.byte_count)
    raise_if (differs bytes count) value_error
    raise_if (differs (doubled frames) count) value_error
    temporary ← gets (λ w. w.temporary)
    source ← gets (λ w. w.source_identity)
    lift (check_identity temporary source)
    destination ← gets (λ w. w.destination)
    raise_if (is_link destination) unsafe_storage_path

  -- The copy through the `wave` module, and what is checked of it.
  unfoldable pub copy_and_check : Exec Writer (Unit {0})
  copy_and_check = do
    pcm ← gets (λ w. w.stream)
    modify (λ w. record w {
      final_temporary =
          some (record { inode = system.fresh; bytes = tools.wave pcm; is_symlink = false });
    })
    count ← gets (λ w. w.byte_count)
    hashed ← gets (λ w. w.hashed)
    raise_if (not (length pcm == count) || not (tools.digest pcm == tools.digest hashed))
        value_error
    header ← lift (expected_header count)
    raise_if (not (bytes_eq (take header_size (tools.wave pcm)) header)) value_error
    raise_if
        (not (length (tools.wave pcm) == header_size + count)
          || not (tools.digest (drop header_size (tools.wave pcm)) == tools.digest hashed))
        value_error

  -- `os.replace`, the sync of the directory, and the end of the staging file.
  unfoldable pub publish : Exec Writer (Unit {0})
  publish = do
    modify (λ w. record w { is_open = false })
    raise_if (not system.renames) os_error
    modify (λ w. record w {
      destination = w.final_temporary;
      final_temporary = none;
      published_identity = some system.fresh;
    })
    raise_if (not system.syncs) os_error
    modify (λ w. record w { published = true })
    staging ← gets (λ w. w.temporary)
    raise_if (not (can_unlink system.unlinks staging)) os_error
    modify (λ w. record w { temporary = none })

  unfoldable pub finalize : Option ℕ → Option ℕ → Exec Writer (Unit {0})
  unfolding check_source copy_and_check publish abort
  finalize bytes frames w =
      if w.published
      then (ok tt, w)
      else aborting system.aborting ((do check_source bytes frames; copy_and_check; publish) w)

abbrev withdraw : Result (Unit {0}) × Writer → Result (Unit {0}) × Writer
withdraw (ok u, w) = (ok u, record w { published = false })
withdraw (err e, w) = (err e, w)

-- `discard_published`.
unfoldable pub discard_published : Exec Writer (Unit {0})
discard_published w =
    if w.published
    then withdraw (forget w (remove_published w.published_identity w.destination))
    else (ok tt, w)
