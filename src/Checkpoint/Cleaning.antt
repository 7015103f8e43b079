-- ===== src/Checkpoint/Cleaning.antt =====
-- What `cleanup_completed` of orchestrator/checkpoint.py removes.
use fastcoder.Base.{ℕ, ◌+◌, ◌*◌, ◌<◌, String, ◌≡◌, ◌⊎◌, List, Option, some, Memᴰ}
use mathlib.Core.Option
use mathlib.Core.Option.{some-injective, none-ne-some}
use mathlib.Core.List.Memᴰ
use fastcoder.Json.{Value, text, object, Fields, value_of}
use fastcoder.Checkpoint.{Codec, File}

-- The content is an object with the state DONE or FAILED.
abbrev pub IsFinished : Option Value → Type 0
IsFinished loaded =
    (fields : Fields) × (state : String) × (loaded ≡ some (object fields))
    × (value_of "state" fields ≡ some (text state))
    × ((state ≡ "DONE") ⊎ (state ≡ "FAILED"))

-- The file was written more than so many hours ago, and holds the checkpoint of a story that is done
-- or failed. Times are in microseconds.
abbrev pub IsExpired : {L : Type 0} → Codec L → ℕ → ℕ → File L → Type 0
IsExpired codec now max_age_hours file =
    (file.mtime + max_age_hours * 3600000000 < now) × IsFinished (codec.load file.content)
