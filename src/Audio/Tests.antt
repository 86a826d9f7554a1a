-- ===== src/Audio/Tests.antt =====
-- The results on audio, applied to concrete streams and queues.
use tts_studio.Base.{◌≡◌, ◌≤◌, ◌↔◌, List, [], ◌∷◌, ◌++◌}
use tts_studio.Base.Exec.{ok}
use tts_studio.Base.Int.{pos}
use tts_studio.Audio.Pcm.{AudioFormat, PcmResult, core}
use tts_studio.Audio.Pcm.Stream.{Chunk, validate}
use tts_studio.Audio.Pcm.Accepts.{IsValidStream, validate_iff}
use tts_studio.Audio.Queue.{Item, audio, end, Queue, total_size, Call, puts, gets, run, start}
use tts_studio.Audio.Queue.Laws.{run-start}

abbrev mono : AudioFormat
mono = record { sample_rate = 48000; channels = 1; sample_format = "S16LE"; sample_width = 2 }

abbrev chunks : List Chunk
chunks =
    record { sequence = pos 0; pcm = 1 ∷ 2 ∷ [] }
    ∷ record { sequence = pos 1; pcm = 3 ∷ 4 ∷ 5 ∷ 6 ∷ [] }
    ∷ []

abbrev totals : PcmResult
totals = record { format = mono; byte_count = 6; frame_count = 3 }

validate_example :
    (validate 10 (core mono) chunks (pos 3) ≡ ok totals)
    ↔ IsValidStream 10 (core mono) chunks (pos 3) totals
validate_example = validate_iff 10 (core mono) chunks (pos 3) totals

abbrev pair : Item
pair = audio (1 ∷ 2 ∷ [])

abbrev busy : Queue
busy = record { max_bytes = 3; items = pair ∷ []; pending_bytes = 2 }

abbrev empty : Queue
empty = record { max_bytes = 3; items = []; pending_bytes = 0 }

abbrev calls : List Call
calls = puts pair ∷ puts end ∷ puts pair ∷ gets ∷ puts pair ∷ []

run-start_example :
    let t = run (start 3) calls in
    (t.entered ≡ t.left ++ t.queue.items)
    × (t.queue.pending_bytes ≡ total_size t.queue.items)
    × (t.queue.pending_bytes ≤ 3)
run-start_example = run-start 3 calls
