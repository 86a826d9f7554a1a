-- ===== src/Workers/Calls.antt =====
-- The calls on a lease that may write, one after another.
use tts_studio.Base.{ℕ, String, List, [], ◌∷◌}
use tts_studio.Base.Exec.{Result}
use tts_studio.Workers.Lease.{Session, Answers, load_model, unload_model}
use tts_studio.Workers.Streams.{synthesize, Closing, close_stream, Item, next_event, close_lease}

-- The calls that may write.
pub data Call : Type 0 where
  loads : String → Answers → Call
  unloads : String → Answers → Call
  synthesizes : String → Result (Unit {0}) → Call
  reads : ℕ → Item → Closing → Call
  closes : ℕ → Closing → Call
  ends : Closing → Call

unfoldable pub step : Session → Call → Session
step s (loads id a) = (load_model id a s).1
step s (unloads id a) = (unload_model id a s).1
step s (synthesizes id call) = (synthesize id call s).1
step s (reads i item c) = (next_event i item c s).1
step s (closes i c) = (close_stream i c s).1
step s (ends c) = (close_lease c s).1

unfoldable pub run : Session → List Call → Session
unfolding step
run s [] = s
run s (c ∷ cs) = run (step s c) cs
