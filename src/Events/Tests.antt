-- ===== src/Events/Tests.antt =====
-- A run of the event store: two events, one of which is delivered again.
use ddash.Base.{
  ℕ, String, ◌==◌, ℤ, pos, Bool, true, false, List, [], ◌∷◌, Option, none, some, ◌≡◌, ◌≤◌, refl,
  arith, count, length,
}
use ddash.Base.Text.{trim_space, to_lower}
use ddash.Effect.{other, is_no_rows, ◌>>=◌}
use ddash.Store.{no_settings, no_links, EventParams, World, call}
use ddash.Events.Log.{store_event, append_event_store, has_key}
use ddash.Events.Laws.{IsKeyed}
use ddash.Events.Append.{
  append_event_store_batch, append_event_with_projections, project_event,
  service_name_from_subject_id,
}
use ddash.Events.Tx.{with_tx}
use ddash.Events.Delivery.{append_event_store_batch-IsKeyed}

abbrev deployed : String → EventParams
deployed id = record {
  organization_id = pos 1;
  event_id = id;
  event_type = "dev.cdevents.service.deployed.0.2.0";
  event_source = "ci";
  event_timestamp = "2026-02-20T10:00:00Z";
  event_ts_ms = pos 1771581600000;
  subject_id = "app/billing";
  subject_source = none;
  subject_type = "service";
  chain_id = none;
  raw_event_json = "{}";
}

abbrev batch : List EventParams
batch = deployed "a" ∷ deployed "b" ∷ deployed "a" ∷ []

abbrev empty : World
empty = record {
  db = record {
    organizations =
        (record {
          id = pos 1;
          name = "acme";
          auth_token = "token";
          webhook_secret = "secret";
          enabled = true;
          join_code = none;
        })
        ∷ [];
    next_organization = 2;
    users = [];
    next_user = 1;
    members = [];
    join_requests = [];
    log = record { rows = []; next_seq = 1 };
    projected = [];
    links = no_links;
    dependencies = [];
    settings = no_settings;
  };
  faults = [];
  entropy = [];
}

-- The second statement meets a fault.
abbrev faulty : World
faulty = record empty { faults = none ∷ some (other "disk I/O error") ∷ [] }

service_name : service_name_from_subject_id " app/team/billing " ≡ "billing"
unfolding service_name_from_subject_id trim_space ddash.Base.Text.split_char
service_name = refl

twice_delivered : length (append_event_store_batch batch empty).1.db.log.rows ≡ 2
unfolding append_event_store_batch with_tx ◌>>=◌ call append_event_with_projections
    append_event_store project_event trim_space to_lower ddash.Events.Log.project
    service_name_from_subject_id ddash.Base.Text.split_char ddash.Base.int_eq is_no_rows
twice_delivered = refl

append_event_store_batch-IsKeyed_example : IsKeyed (append_event_store_batch batch empty).1.db.log
append_event_store_batch-IsKeyed_example =
    append_event_store_batch-IsKeyed batch empty refl (record { one_key = λ p. omega arith })
