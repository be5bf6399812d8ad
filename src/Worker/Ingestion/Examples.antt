-- ===== src/Worker/Ingestion/Examples.antt =====
-- Runs of the worker of server/src/bin/ingestion-worker.rs.
use trieve.Prelude.{
  ℕ, ◌≡◌, refl, ap, sym, subst, unwrap_or, false, Option, none, some, [], String, str_eq,
  if◌then◌else◌, inl,
}
use trieve.Errors.{ok, err, duplicate_tracking_id}
use trieve.Redis.{done, brpoplpush, pop_right}
use trieve.Models.{BulkUploadIngestionMessage}
use trieve.Worker.{Codec, replied, fetch, World}
use trieve.Worker.Retry.{healthy, waiting, worked, buried, iterate}
use trieve.Worker.Ingestion.{
  UpdateIngestionMessage, IngestionMessage, bulk_upload, update, Codecs, from_str, Texts, Env, step,
}
use trieve.Worker.Ingestion.Accounts.{again, IsFaithful, account, account-step_ingestion}
use trieve.Worker.Ingestion.Failures.{after, Prints, IsFailing, not_retried, upload_failing-buried}
use trieve.Worker.Examples.{numeral, numbered, debug, world, gone, parse-numeral}

abbrev upload : BulkUploadIngestionMessage
upload = record { attempt_number = 0; dataset_id = 7; ingestion_messages = [] }

abbrev change : UpdateIngestionMessage
change = record {
  chunk_metadata_id = 4;
  chunk_html = some "<p>new</p>";
  chunk = "{}";
  dataset_id = 7;
  group_ids = none;
  convert_html_to_text = none;
  fulltext_boost = none;
  semantic_boost = none;
}

abbrev single : Codec UpdateIngestionMessage
single = record {
  to_string = λ m. some "change";
  from_str = λ text. if str_eq text "change" then some change else none;
}

abbrev codecs : Codecs
codecs = record { bulk = numbered (λ m. m.attempt_number) (after upload); single = single }

abbrev texts : Texts
texts = record {
  debug = debug;
  failed_to_upload = λ count e. "failed";
  failed_to_create = λ e. "failed";
}

-- Everything fails.
abbrev failing : Env
failing = record {
  should_terminate = false;
  pop = replied;
  get_dataset_by_id = λ id. ok "{}";
  bulk_upload_chunks = λ m config. err gone;
  update_chunk = λ m config. err gone;
  retry = healthy;
  lrem = done;
}

abbrev start : World
start = world (waiting "0" [])

faithful : IsFaithful codecs "0"
unfolding from_str
faithful = record {
  canonical = λ m h.
      ap
        (λ (o : Option IngestionMessage). elim o [
          | some (bulk_upload x) ↦ codecs.bulk.to_string x
          | _ ↦ none
        ])
        (sym h);
  print = λ m. numeral (again m).attempt_number;
  prints = λ m h. refl;
}

taken : (text : String) → (fetch failing.pop start).0 ≡ some text → IsFaithful codecs text
unfolding fetch brpoplpush pop_right
taken text h = subst (IsFaithful codecs) (ap (λ (o : Option String). unwrap_or o "0") h) faithful

account-step_ingestion_example : account (step codecs texts failing start).1 ≡ account start
account-step_ingestion_example =
    account-step_ingestion codecs texts failing (record { retry = refl; remove = refl }) start taken

prints : Prints codecs upload numeral
prints = record {
  writes = λ a h. refl;
  reads = λ a h.
      ap (λ (o : Option ℕ). elim o [ none ↦ none | some n ↦ some (after upload n) ])
        (parse-numeral a h);
}

fresh : (id : String) → gone ≡ duplicate_tracking_id id → ⊥
fresh id h = cc

fails : IsFailing failing upload gone
fails = record { runs = refl; pops = refl; retry = refl; fails = λ a. refl; new = fresh }

upload_failing-buried_example :
    (iterate 10 (λ t. (step codecs texts failing t).1) start).lists ≡ buried "9" []
upload_failing-buried_example =
    upload_failing-buried codecs texts failing upload numeral prints gone fails 9 0 [] start refl
      refl

abbrev stuck : World
stuck = world (waiting "change" [])

reads : from_str codecs "change" ≡ some (update change)
unfolding from_str
reads = refl

not_retried_example :
    (iterate 3 (λ t. (step codecs texts failing t).1) stuck).lists ≡ worked "change" []
not_retried_example =
    not_retried codecs texts failing 2 "change" [] (update change) gone stuck refl refl reads refl
      (inl (change, refl)) refl
