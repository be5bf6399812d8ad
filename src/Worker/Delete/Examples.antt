-- ===== src/Worker/Delete/Examples.antt =====
-- Runs of the worker of server/src/bin/delete-worker.rs.
use trieve.Prelude.{
  ℕ, ◌+◌, ◌≡◌, refl, ap, sym, unwrap_or, subst, true, false, Option, none, some, [], ◌∷◌, arith,
  String,
}
use trieve.Errors.{ok, err, bad_request}
use trieve.Redis.{done, failed, brpoplpush, pop_right}
use trieve.Redis.Laws.{size}
use trieve.Worker.{Codec, replied, fetch}
use trieve.Worker.Retry.{healthy, waiting, buried, iterate, worked}
use trieve.Worker.Delete.{
  DeleteMessage, Dataset, State, Env, step, process, contains, delete_organization, delete_dataset,
  readd_error_to_queue, wrote, finish, delete_empty_organization,
}
use trieve.Worker.Delete.Accounts.{again, IsFaithful, account, account-step}
use trieve.Worker.Delete.Failures.{after, Prints, IsFailing, failing-buried}
use trieve.Worker.Delete.Organizations.{organization_deleted, readd_loses}
use trieve.Worker.Examples.{numeral, numbered, debug, world, gone, parse-numeral}

abbrev message : DeleteMessage
message = record { dataset_id = 7; attempt_number = 0; deleted_at = 100; empty_dataset = false }

abbrev codec : Codec DeleteMessage
codec = numbered (λ m. m.attempt_number) (after message)

abbrev dataset : Dataset
dataset = record { organization_id = 5; server_configuration = "{}" }

-- Everything succeeds.
abbrev env : Env
env = record {
  should_terminate = false;
  pop = replied;
  get_deleted_dataset = λ id. ok dataset;
  clear = λ id at config. ok tt;
  delete = λ id at config. ok dataset;
  retry = healthy;
  lrem = done;
  sismember = true;
  soft_deleted_datasets = λ org. ok [];
  delete_organization_query = λ org. ok tt;
  srem = done;
}

-- The dataset is never found.
abbrev failing : Env
failing = record env { get_deleted_dataset = λ id. err gone }

abbrev start : State
start = record { world = world (waiting "0" []); deleted_organizations = 5 ∷ []; writes = [] }

abbrev faithful : IsFaithful codec "0"
faithful = record {
  canonical = λ m h.
      ap (λ (o : Option DeleteMessage). elim o [ none ↦ none | some x ↦ codec.to_string x ])
        (sym h);
  print = λ m. numeral (again m).attempt_number;
  prints = λ m h. refl;
}

taken : (text : String) → (fetch failing.pop start.world).0 ≡ some text → IsFaithful codec text
unfolding fetch brpoplpush pop_right
taken text h = subst (IsFaithful codec) (ap (λ (o : Option String). unwrap_or o "0") h) faithful

account-step_example : account (step codec debug failing start).1 ≡ account start
account-step_example =
    account-step codec debug failing (record { retry = refl; remove = refl }) start taken

prints : Prints codec message numeral
prints = record {
  writes = λ a h. refl;
  reads = λ a h.
      ap (λ (o : Option ℕ). elim o [ none ↦ none | some n ↦ some (after message n) ])
        (parse-numeral a (omega arith));
}

fails : IsFailing failing message gone
fails = record { runs = refl; pops = refl; retry = refl; fails = refl }

failing-buried_example :
    (iterate 3 (λ t. (step codec debug failing t).1) start).world.lists ≡ buried "2" []
failing-buried_example =
    failing-buried codec debug failing message numeral prints gone fails 2 0 [] start refl refl

deletes :
    (process codec debug env "0" message dataset start).writes
    ≡ delete_organization 5 ∷ delete_dataset 7 100 ∷ []
unfolding process wrote finish delete_empty_organization
deletes = refl

organization_deleted_example :
    (deleted : Dataset) × (env.delete 7 100 "{}" ≡ ok deleted)
    × (deleted.organization_id ≡ 5)
    × (delete_dataset 7 100 ∷ [] ≡ delete_dataset 7 100 ∷ [])
    × (contains (5 ∷ []) 5 ≡ true)
    × (env.soft_deleted_datasets 5 ≡ ok [])
organization_deleted_example =
    organization_deleted codec debug env "0" message dataset start 5 (delete_dataset 7 100 ∷ [])
      refl deletes

readd_loses_example :
    let (r, w') =
      readd_error_to_queue codec debug
        (record {
          conn = done;
          lrem = done;
          conn_again = failed false "no connection";
          lpush = done;
        })
        message
        gone
        (world (worked "0" [])) in
    (r ≡ err (bad_request "no connection")) × (size w'.lists + 1 ≡ size (worked "0" []))
readd_loses_example =
    readd_loses codec debug message gone (world (worked "0" [])) "0" "1" "no connection" [] false
      done refl refl refl
