-- ===== src/Ingest/Error.antt =====
-- crates/reader-ingest/src/engine/mod.rs, ports.rs and model/mod.rs: the errors of ingestion, and
-- the diagnostic that a failed job keeps.
use inoreader.Prelude.{ℕ, ◌==◌, nat_eq, list_eq, ◌++◌, if◌then◌else◌}
use inoreader.Prelude.Text.{Text, codes, decimal}
use inoreader.Ingest.Record.{
  ModelError, dropbox_publication_day_conflict, invalid_source_url, empty_upstream_identity,
  upstream_identity_changed, zero_limit,
}

pub data StoreError : Type 0 where
  not_found : StoreError
  stale_lease : StoreError
  conflict : StoreError
  unavailable : Text → StoreError

-- A time is a number of nanoseconds since 1970.
pub data FetchError : Type 0 where
  rejected : Text → FetchError
  http : ℕ → FetchError
  retry_after : ℕ → ℕ → FetchError

pub data IngestError : Type 0 where
  store : StoreError → IngestError
  fetch : FetchError → IngestError
  parse : Text → IngestError
  browser_degraded : IngestError
  invalid_lease_duration : IngestError
  invalid_retry_policy : IngestError

-- `ModelError::to_string`
unfoldable pub model_text : ModelError → Text
model_text dropbox_publication_day_conflict =
    codes "Dropbox archive day conflicts with the retained publication date"
model_text invalid_source_url = codes "source URL must be an absolute HTTP(S) URL"
model_text empty_upstream_identity = codes "upstream identity must not be empty"
model_text upstream_identity_changed =
    codes "a source record revision cannot change upstream identity"
model_text (zero_limit field) =
    codes "configured limit " ++ field ++ codes " must be greater than zero"

-- `StoreError::to_string`
unfoldable pub store_text : StoreError → Text
store_text not_found = codes "record not found"
store_text stale_lease = codes "lease is stale or belongs to another worker"
store_text conflict = codes "concurrent revision conflict"
store_text (unavailable reason) = codes "storage unavailable: " ++ reason

-- `show_time` is chrono's printing of an instant.
unfoldable pub diagnostic : (show_time : ℕ → Text) → IngestError → Text
unfolding store_text decimal
diagnostic show_time (store e) = codes "storage: " ++ store_text e
diagnostic show_time (fetch (retry_after status not_before)) =
    codes "remote_http_status: "
    ++ decimal status
    ++ codes "; retry_after: "
    ++ show_time not_before
diagnostic show_time (fetch (http status)) = codes "remote_http_status: " ++ decimal status
diagnostic show_time (fetch (rejected reason)) = codes "outbound_rejected: " ++ reason
diagnostic show_time (parse reason) =
    if reason == codes "web_feed_empty_after_success"
    then reason
    else codes "feed_parse: " ++ reason
diagnostic show_time browser_degraded = codes "browser_degraded"
diagnostic show_time invalid_lease_duration = codes "invalid_lease_duration"
diagnostic show_time invalid_retry_policy = codes "invalid_retry_policy"
