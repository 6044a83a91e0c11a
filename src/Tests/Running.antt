-- ===== src/Tests/Running.antt =====
-- Examples of a worker's run, of a dispatch, and of requests to the API.
use inbox_saas.Prelude.{
  ℕ, ◌+◌, Bool, ◌≡◌, refl, true, false, none, some, [], ◌∷◌, ◌++◌, map, keep, ◌&&◌, ◌==◌, String,
  str_eq, if◌then◌else◌,
}
use inbox_saas.Errors.{ok}
use inbox_saas.Contract.{success}
use inbox_saas.Access.{AccessGrant, organization, read}
use inbox_saas.Table.{update_where, select_first}
use inbox_saas.Schema.{Characters, tenant_validation_requested, OutboxEvent, Database}
use inbox_saas.Validation.Base.{find_job, find_connection, to_tenant_connection_dto}
use inbox_saas.Validation.Lookup.{may_read}
use inbox_saas.Validation.Start.{new_connection}
use inbox_saas.Worker.Dispatch.{pending_events, dispatch_pending_events, dispatch_each}
use inbox_saas.Worker.Dispatch.Ordering.{is_ordered, count}
use inbox_saas.Worker.Dispatch.Sending.{is_open, is_marked, dispatch_pending_events_lem}
use inbox_saas.Worker.Process.{Round, process_tenant_validation_job}
use inbox_saas.Worker.Calls.{Fits, before_request, process-Fits}
use inbox_saas.Api.Text.{is_space, after_letters, bearer_token, is_uuid, is_email}
use inbox_saas.Api.{
  ApiRequest, tenant_connections, shaped, handle, get_job, shows_job, not_found, to_public_job,
}
use inbox_saas.Api.Answers.{IsGuarded, handle-IsGuarded, get_job_lem}
use inbox_saas.Tests.Fixtures.{services, input, draws, default_workspace}
use inbox_saas.Tests.Starting.{started, queued_job}
use inbox_saas.Tests.Opening.{letters, hash, token, keyed}

abbrev takes_even : OutboxEvent → Bool
takes_even e = e.id == 60

abbrev takes_all : OutboxEvent → Bool
takes_all e = true

-- Another session adds an event while the dispatch runs.
abbrev added_event : OutboxEvent
added_event = record {
  id = 61;
  job_id = 40;
  type = tenant_validation_requested;
  payload = 40;
  dispatched_at = none;
  available_at = 1000;
  created_at = 1000;
}

abbrev add_event : Database → Database
add_event db = record db { outbox_events = db.outbox_events ++ (added_event ∷ []) }

abbrev reading : ℕ → ℕ
reading i = 2000 + i

dispatched_test :
    ((dispatch_pending_events takes_even takes_all reading (λ d. d) 1500 started).0 ≡ 40 ∷ [])
    × (map
          (λ (e : OutboxEvent). e.dispatched_at)
          (dispatch_pending_events takes_even takes_all reading add_event 1500
            started).1.outbox_events
        ≡ some 2060 ∷ none ∷ [])
    × (map
          (λ (e : OutboxEvent). e.dispatched_at)
          (dispatch_pending_events takes_all
            (λ e. false)
            reading
            (λ d. d)
            1500
            started).1.outbox_events
        ≡ none ∷ [])
unfolding dispatch_pending_events dispatch_each pending_events
dispatched_test = (refl, refl, refl)

dispatch_pending_events_example :
    (is_ordered (pending_events 1500 started) ≡ true)
    × ((p : OutboxEvent → Bool)
        → count p (pending_events 1500 started)
          ≡ count
              (λ e. is_open takes_even takes_all reading add_event 1500 started e && p e)
              started.outbox_events)
    × ((dispatch_pending_events takes_even takes_all reading add_event 1500 started).0
        ≡ map (λ (e : OutboxEvent). e.payload) (keep takes_even (pending_events 1500 started)))
    × ((dispatch_pending_events takes_even takes_all reading add_event 1500 started).1
        ≡ record (add_event started) {
          outbox_events =
              update_where
                (is_marked takes_even takes_all reading add_event 1500 started)
                (λ r. record r { dispatched_at = some (2000 + r.id) })
                (add_event started).outbox_events;
        })
dispatch_pending_events_example =
    dispatch_pending_events_lem takes_even takes_all reading add_event 1500 started

abbrev pub quiet : Round
quiet = record {
  token = 70;
  claim_now = 5000;
  claim_clock = 5000;
  after_claim = λ d. d;
  waiting = λ d. d;
  timer_lost = false;
  renewal_now = 5001;
  renewal_clock = 5001;
  provisioner = λ q. some (success "tenant-1");
  asking = λ d. d;
  result_now = 6000;
  result_clock = 6000;
  event_id = 80;
  others = λ d. d;
  afterwards = λ d. d;
}

process-Fits_example :
    Fits 40 70 5001
      (before_request services "v1" 40 quiet started)
      (process_tenant_validation_job services "v1" 40 quiet started).calls
process-Fits_example = process-Fits services "v1" 40 quiet started

abbrev uuid_units : Characters
uuid_units =
    letters 8 ++ (45 ∷ letters 4) ++ (45 ∷ letters 4) ++ (45 ∷ letters 4) ++ (45 ∷ letters 12)

-- `Bearer`, a space, and the token; or the units of a uuid.
abbrev units : String → Characters
units t = if str_eq t "Bearer" then 66 ∷ 101 ∷ 97 ∷ 114 ∷ 101 ∷ 114 ∷ 32 ∷ token else uuid_units

bearer_tests :
    (bearer_token (units "Bearer") ≡ some token)
    × (bearer_token uuid_units ≡ none)
    × (is_uuid uuid_units ≡ true)
    × (is_uuid token ≡ false)
    × (is_email (97 ∷ 64 ∷ 98 ∷ 46 ∷ 99 ∷ []) ≡ true)
    × (is_email (97 ∷ 64 ∷ 98 ∷ 46 ∷ []) ≡ false)
    × (is_email (97 ∷ 64 ∷ 46 ∷ 46 ∷ 99 ∷ []) ≡ true)
unfolding bearer_token after_letters is_uuid is_email is_space
bearer_tests = (refl, refl, refl, refl, refl, refl, refl)

abbrev post : ApiRequest
post = record {
  authorization = some "Bearer";
  route =
      tenant_connections "aa" (some "key-1") (some "application/json")
        (shaped "admin@example.com" "secret");
}

handle-IsGuarded_example :
    IsGuarded units services hash draws 500 1000
      (λ d. d)
      post
      keyed
      (handle units services hash draws 500 1000 (λ d. d) post keyed).1
handle-IsGuarded_example = handle-IsGuarded units services hash draws 500 1000 (λ d. d) post keyed

abbrev owner : AccessGrant
owner = record { scope = organization; organization_id = 10; permission = read }

job_id_well : is_uuid (units "job") ≡ true
unfolding is_uuid
job_id_well = refl

job_found : find_job 40 started ≡ some queued_job
unfolding select_first
job_found = refl

connection_found :
    find_connection 30 started ≡ some (new_connection services input draws 1000 default_workspace)
unfolding select_first
connection_found = refl

get_job_example :
    get_job units services hash draws 500 1000 (λ d. d) owner "job" started
    ≡ ok (
        if may_read (owner ∷ []) (new_connection services input draws 1000 default_workspace)
        then shows_job
            (to_public_job queued_job)
            (to_tenant_connection_dto (new_connection services input draws 1000 default_workspace))
        else not_found)
get_job_example =
    get_job_lem units services hash draws 500 1000 (λ d. d) owner "job" 40 started job_id_well refl
      queued_job (new_connection services input draws 1000 default_workspace) job_found
      connection_found
