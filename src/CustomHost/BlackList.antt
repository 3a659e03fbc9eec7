-- ===== src/CustomHost/BlackList.antt =====
-- Addresses of the black list, without a stream and with one.
use rtxag.Prelude.{ℕ, String, ◌≡◌, ◌⊎◌, some, []}
use rtxag.Error.{Exception, Run, Result}
use rtxag.Json.{Json, Fields}
use rtxag.FunctionCall.Building.{Services}
use rtxag.Payload.{Prompt}
use rtxag.CustomHost.Formats.{Instance, HostRequest}
use rtxag.Route.{Event}
use rtxag.Model.{unless_raised}
use rtxag.CustomHost.{chat_completion_stream, streamed}

module _ (svc : Services) (dumps : Fields → String) where
  abbrev pub raised_at_once : Exception → Run Event
  raised_at_once e = record { yielded = []; ended = some e }

  -- What becomes of a streamed request: its preparation raises, or it is posted to the address, and
  -- what is sent is read from the answer.
  abbrev pub IsPosted : ℕ → Prompt → String → Type 0
  IsPosted n p address =
      ((e : Exception) × ((post : HostRequest → Result (ℕ × String × Run Json))
          → chat_completion_stream svc dumps post n p ≡ raised_at_once e))
      ⊎ ((instance' : Instance) × (r : HostRequest) × (r.api_url ≡ some address)
          × ((post : HostRequest → Result (ℕ × String × Run Json))
              → chat_completion_stream svc dumps post n p
                ≡ unless_raised svc (post r) (streamed svc dumps instance' n)))
