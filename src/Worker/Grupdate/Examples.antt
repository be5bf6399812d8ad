-- ===== src/Worker/Grupdate/Examples.antt =====
-- Runs of the worker of server/src/bin/grupdate-worker.rs.
use trieve.Prelude.{
  ℕ, ◌≡◌, refl, ap, sym, subst, unwrap_or, false, Option, none, some, [], ◌∷◌, arith, String,
}
use trieve.Errors.{ok, err}
use trieve.Redis.{done, brpoplpush, pop_right}
use trieve.Worker.{Codec, replied, fetch, World}
use trieve.Worker.Retry.{healthy, waiting, buried, iterate}
use trieve.Worker.Grupdate.{ChunkGroup, GroupUpdateMessage, Env, step}
use trieve.Worker.Grupdate.Accounts.{again, IsFaithful, account, account-step_grupdate}
use trieve.Worker.Grupdate.Failures.{after, Prints, IsFailing, update_failing-buried}
use trieve.Worker.Examples.{numeral, numbered, debug, world, gone, parse-numeral}

abbrev group : ChunkGroup
group = record { id = 3; dataset_id = 7; tag_set = some (some "new" ∷ []); rest = "{}" }

abbrev message : GroupUpdateMessage
message = record {
  dataset_id = 7;
  group = group;
  prev_group = record group { tag_set = none };
  attempt_number = 0;
}

abbrev codec : Codec GroupUpdateMessage
codec = numbered (λ m. m.attempt_number) (after message)

-- The update fails.
abbrev failing : Env
failing = record {
  should_terminate = false;
  pop = replied;
  get_dataset_by_id = λ id. ok "{}";
  update_grouped_chunks = λ prev new config. err gone;
  retry = healthy;
  lrem = done;
}

abbrev env : Env
env = record failing { update_grouped_chunks = λ prev new config. ok tt }

abbrev start : World
start = world (waiting "0" [])

abbrev faithful : IsFaithful codec "0"
faithful = record {
  canonical = λ m h.
      ap (λ (o : Option GroupUpdateMessage). elim o [ none ↦ none | some x ↦ codec.to_string x ])
        (sym h);
  print = λ m. numeral (again m).attempt_number;
  prints = λ m h. refl;
}

taken : (text : String) → (fetch env.pop start).0 ≡ some text → IsFaithful codec text
unfolding fetch brpoplpush pop_right
taken text h = subst (IsFaithful codec) (ap (λ (o : Option String). unwrap_or o "0") h) faithful

account-step_grupdate_example : account (step codec debug env start).1 ≡ account start
account-step_grupdate_example =
    account-step_grupdate codec debug env (record { retry = refl; remove = refl }) start taken

prints : Prints codec message numeral
prints = record {
  writes = λ a h. refl;
  reads = λ a h.
      ap (λ (o : Option ℕ). elim o [ none ↦ none | some n ↦ some (after message n) ])
        (parse-numeral a (omega arith));
}

fails : IsFailing failing message gone
fails = record { runs = refl; pops = refl; retry = refl; fails = refl }

update_failing-buried_example :
    (iterate 3 (λ t. (step codec debug failing t).1) start).lists ≡ buried "2" []
update_failing-buried_example =
    update_failing-buried codec debug failing message numeral prints gone fails 2 0 [] start refl
      refl
