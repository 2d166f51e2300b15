-- ===== src/Ingest/Publisher.antt =====
-- formulatel/cmd/ingest/mqtt_v3.go: the goroutine that takes the messages of a channel and publishes
-- them to its topic.
pub mod Order
use formulatel.Common.{
  ℕ, Bool, true, false, not, ◌||◌, Option, none, some, List, [], ◌∷◌, ◌++◌, if◌then◌else◌,
}
use formulatel.Text.{Text}
use formulatel.Telemetry.{GameTelemetry}

-- What the client's `Publish` is called with.
pub record Publication : Type 0 where
  pub topic : Text
  pub qos : ℕ
  pub retained : Bool
  pub payload : Text

pub data PublishError : Type 0 where
  failed_serializing failed_publishing : PublishError

-- What the token of a publication tells: what `Wait` returns, or none if the publication never
-- completes and `Wait` does not return, and whether `Error` is not nil.
pub record PublishToken : Type 0 where
  pub wait : Option Bool
  pub has_error : Bool

-- What the `select` sees: the end of the context, or a message, with what becomes of its publication.
pub data PublisherEvent : Type 0 where
  done : PublisherEvent
  message : GameTelemetry → PublishToken → PublisherEvent

-- In the loop, in a `Wait` that does not return, or returned.
pub data Status : Type 0 where
  running blocked returned : Status

-- What was published and what was logged as an error so far, in order, and where the function is.
pub record Publisher : Type 0 where
  pub published : List Publication
  pub errors : List PublishError
  pub status : Status

unfoldable pub new_publisher : Publisher
new_publisher = record { published = []; errors = []; status = running }

unfoldable pub publication : Text → Text → Publication
publication topic payload = record { topic = topic; qos = 1; retained = false; payload = payload }

-- Behind `Publish`: `Wait` does not heed the context.
unfoldable pub await : Option Bool → Bool → Publisher → Publisher
await none has_error p = record p { status = blocked }
await (some waited) has_error p =
    if not waited || has_error then record p { errors = p.errors ++ failed_publishing ∷ [] } else p

-- What becomes of a message: it could not be marshalled, or it is published.
unfoldable pub publish_bytes : Text → Option Text → PublishToken → Publisher → Publisher
unfolding publication await
publish_bytes topic none token p = record p { errors = p.errors ++ failed_serializing ∷ [] }
publish_bytes topic (some payload) token p =
    await token.wait token.has_error
      (record p { published = p.published ++ publication topic payload ∷ [] })

-- The loop goes on, unless a `Wait` keeps it.
unfoldable pub unless_blocked : Status → (later now : Publisher) → Publisher
unless_blocked running later now = later
unless_blocked blocked later now = now
unless_blocked returned later now = now

-- `marshal` is `protojson.MarshalOptions.Marshal` with the options of the source. A publisher in a
-- `Wait` that does not return looks at no further event.
unfoldable pub run_mqtt_v3_publisher :
    (GameTelemetry → Option Text) → Text → List PublisherEvent → Publisher → Publisher
unfolding publish_bytes unless_blocked
run_mqtt_v3_publisher marshal topic [] p = p
run_mqtt_v3_publisher marshal topic (done ∷ events) p = record p { status = returned }
run_mqtt_v3_publisher marshal topic (message m token ∷ events) p =
    let q = publish_bytes topic (marshal m) token p in
    unless_blocked q.status (run_mqtt_v3_publisher marshal topic events q) q
