-- ===== src/Worker/File/Examples.antt =====
-- Runs of the worker of server/src/bin/file-worker.rs.
use trieve.Prelude.{
  ℕ, ◌+◌, ◌≡◌, refl, ◌⊎◌, ap, sym, true, false, Option, none, some, [], ◌∷◌, arith,
}
use trieve.Errors.{ok, err}
use trieve.Redis.{done}
use trieve.Redis.Laws.{size}
use trieve.Worker.{Codec, replied, World}
use trieve.Worker.Retry.{healthy, waiting, worked, buried, iterate}
use trieve.Worker.File.{FileWorkerMessage, Env, upload_file, handle, step, store_html}
use trieve.Worker.File.Queued.{ChunksQueued}
use trieve.Worker.File.Failures.{
  after, again, Prints, IsFailing, size-handle_file, file_failing-buried,
}
use trieve.Worker.Examples.{numeral, numbered, debug, world, gone, parse-numeral}

abbrev message : FileWorkerMessage
message = record {
  file_id = 1;
  dataset_id = 7;
  upload_file_data = record { create_chunks = none; rest = "{}" };
  attempt_number = 0;
}

abbrev codec : Codec FileWorkerMessage
codec = numbered (λ m. m.attempt_number) (after message)

-- Everything succeeds.
abbrev env : Env
env = record {
  should_terminate = false;
  pop = replied;
  get_aws_bucket = ok tt;
  get_object = λ id. some (1 ∷ 2 ∷ []);
  tika_url = some "http://tika";
  tika_send = λ url bytes. true;
  tika_bytes = λ bytes. some (3 ∷ []);
  from_utf8_lossy = λ bytes. "<p>text</p>";
  create_file_query = λ id size payload dataset. ok id;
  get_dataset_and_organization = λ id. ok "{}";
  create_file_chunks = λ id payload html dataset. ok tt;
  retry = healthy;
  lrem = done;
}

-- The storage cannot be reached.
abbrev failing : Env
failing = record env { get_aws_bucket = err gone }

abbrev start : World
start = world (waiting "0" [])

abbrev taken : World
taken = world (worked "0" [])

canonical : (m : FileWorkerMessage) → codec.from_str "0" ≡ some m → codec.to_string m ≡ some "0"
canonical m h =
    ap (λ (o : Option FileWorkerMessage). elim o [ none ↦ none | some x ↦ codec.to_string x ])
      (sym h)

canonical_again :
    (m : FileWorkerMessage) → codec.from_str "0" ≡ some m → codec.to_string (again m) ≡ some "1"
canonical_again m h =
    ap
      (λ (o : Option FileWorkerMessage). elim o [
        | none ↦ none
        | some x ↦ codec.to_string (again x)
      ])
      (sym h)

size-handle_file_example :
    ((m : FileWorkerMessage) × (codec.from_str "0" ≡ some m)
      × ChunksQueued env m
      × (size (handle codec debug env "0" taken).1.lists + 1 ≡ size taken.lists))
    ⊎ (((m : FileWorkerMessage) → codec.from_str "0" ≡ some m → ChunksQueued env m → ⊥)
        × (size (handle codec debug env "0" taken).1.lists ≡ size taken.lists))
size-handle_file_example =
    size-handle_file codec debug env "0" "1" [] taken refl refl canonical canonical_again refl

queued_test : upload_file env message ≡ some (ok (some 1))
unfolding upload_file store_html
queued_test = refl

prints : Prints codec message numeral
prints = record {
  writes = λ a h. refl;
  reads = λ a h.
      ap (λ (o : Option ℕ). elim o [ none ↦ none | some n ↦ some (after message n) ])
        (parse-numeral a (omega arith));
}

never : (a : ℕ) → upload_file failing (after message a) ≡ some (err gone)
unfolding upload_file
never a = refl

fails : IsFailing failing message gone
fails = record { runs = refl; pops = refl; retry = refl; fails = never }

file_failing-buried_example :
    (iterate 3 (λ t. (step codec debug failing t).1) start).lists ≡ buried "2" []
file_failing-buried_example =
    file_failing-buried codec debug failing message numeral prints gone fails 2 0 [] start refl refl
