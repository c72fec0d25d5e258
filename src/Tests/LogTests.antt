-- ===== src/Tests/LogTests.antt =====
-- The log buffer at concrete inputs: three events in a buffer of two.
use podcast_digest.Common.{
  max, String, Bool, true, ◌↔◌, none, List, [], ◌∷◌, ◌≡◌, refl, ◌==◌, string_eq, take, length,
  keep_if, lookup,
}
use podcast_digest.Logs.{
  LogEvent, LogBuffer, Query, new_buffer, add, tail, select, skipped, seen_before, severity,
}
use podcast_digest.Logs.Tail.{
  Call, adds, new_buffer-IsOrdered, add-IsOrdered, tail-wanted, wanted, Asked, IsGraded,
}

abbrev event : String → String → LogEvent
event level text = record { seq = 0; level = level; logger = "podcast_agent"; haystack = text }

abbrev calls : List Call
calls = adds (event "info" "a") ∷ adds (event "error" "b") ∷ adds (event "info" "c") ∷ []

abbrev same_text : String → String
same_text text = text

abbrev equal_text : String → String → Bool
equal_text a b = a == b

abbrev warnings : Query
warnings = record { limit = 200; level = "warning"; contains = ""; logger = ""; since_seq = none }

abbrev two_events : LogBuffer
two_events = add (event "info" "c") (add (event "error" "b") (new_buffer 2))

tail-wanted_example :
    (tail same_text equal_text warnings two_events
      ≡ take (max 1 200) (keep_if (wanted same_text equal_text warnings) two_events.events))
    × ((e : LogEvent)
        → (wanted same_text equal_text warnings e ≡ true) ↔ Asked same_text equal_text warnings e)
    × IsGraded
tail-wanted_example =
    tail-wanted same_text equal_text warnings two_events
      (add-IsOrdered _ _ (add-IsOrdered _ _ (new_buffer-IsOrdered 2)))

-- "At or above" the level: a query for warnings finds the error.
errors_are_warnings : length (tail same_text equal_text warnings two_events) ≡ 1
unfolding tail select skipped seen_before severity add new_buffer lookup
errors_are_warnings = refl
