-- ===== src/Wav/Failure.antt =====
-- What `finalize` leaves behind when it fails.
use tts_studio.Base.{◌≡◌, true, false, none, some, ◌⊎◌, ◌∙◌, ◌∙◌}
use tts_studio.Wav.Writer.{File, Writer, System}

-- The new file is published, but the staging file could not be removed.
abbrev pub IsOut : System → Writer → Writer → Type 0
IsOut system w v =
    (system.unlinks ≡ false)
    × (v.is_open ≡ false)
    × (v.published ≡ true)
    × (v.published_identity ≡ some system.fresh)
    × (v.temporary ≡ w.temporary)
    × (v.final_temporary ≡ none)
    × ((f : File) × (v.destination ≡ some f) × (f.inode ≡ system.fresh))

-- What the steps of `finalize` leave when one of them raises before the publication: the destination
-- as it was, or the new file with its identity noted.
abbrev Pending : System → Writer → Writer → Type 0
Pending system w v =
    (v.published ≡ false)
    × (((v.published_identity ≡ none) × (v.destination ≡ w.destination))
        ⊎ ((f : File) × (v.published_identity ≡ some f.inode)
            × (v.destination ≡ some f)
            × (f.is_symlink ≡ false)))

-- The writer is closed and unpublished, both temporary files are gone, and the destination is as it
-- was or empty.
abbrev pub IsWithdrawn : Writer → Writer → Type 0
IsWithdrawn w v =
    (v.is_open ≡ false)
    × (v.published ≡ false)
    × (v.temporary ≡ none)
    × (v.final_temporary ≡ none)
    × ((v.destination ≡ w.destination) ⊎ (v.destination ≡ none))
