-- ===== src/Worker/Examples.antt =====
-- Runs of the queue workers of server/src/bin on concrete messages. A message is written as the
-- numeral of its attempts here.
pub mod Sleeps
use trieve.Prelude.{
  ℕ, zero, List, ◌∷◌, suc, ◌<◌, ◌≡◌, refl, arith, String, str_eq, Bool, Option, none, some,
  if◌then◌else◌, [], false,
}
use trieve.Errors.{ServiceError, bad_request}
use trieve.Redis.{Lists, Call, done, failed}
use trieve.Worker.{Codec, World, Outcomes}

abbrev digits : List String
digits = "0" ∷ "1" ∷ "2" ∷ "3" ∷ "4" ∷ "5" ∷ "6" ∷ "7" ∷ "8" ∷ "9" ∷ []

abbrev nth_or : List String → ℕ → String
nth_or [] n = "many"
nth_or (x ∷ xs) zero = x
nth_or (x ∷ xs) (suc n) = nth_or xs n

abbrev pub numeral : ℕ → String
numeral n = nth_or digits n

abbrev digit : ℕ → String → Option ℕ → Option ℕ
digit n text other = if str_eq text (numeral n) then some n else other

abbrev pub parse : String → Option ℕ
parse text = digit 0 text (
    digit 1 text (
      digit 2 text (
        digit 3 text (
          digit 4 text
            (digit 5 text (digit 6 text (digit 7 text (digit 8 text (digit 9 text none)))))))))

pub parse-numeral : (a : ℕ) → a < 10 → parse (numeral a) ≡ some a
parse-numeral zero h = refl
parse-numeral (suc zero) h = refl
parse-numeral (suc (suc zero)) h = refl
parse-numeral (suc (suc (suc zero))) h = refl
parse-numeral (suc (suc (suc (suc zero)))) h = refl
parse-numeral (suc (suc (suc (suc (suc zero))))) h = refl
parse-numeral (suc (suc (suc (suc (suc (suc zero)))))) h = refl
parse-numeral (suc (suc (suc (suc (suc (suc (suc zero))))))) h = refl
parse-numeral (suc (suc (suc (suc (suc (suc (suc (suc zero)))))))) h = refl
parse-numeral (suc (suc (suc (suc (suc (suc (suc (suc (suc zero))))))))) h = refl
parse-numeral (suc (suc (suc (suc (suc (suc (suc (suc (suc (suc a)))))))))) h = absurd (omega arith)

abbrev number : {M : Type 0} → (ℕ → M) → Option ℕ → Option M
number make none = none
number make (some n) = some (make n)

-- The messages `make n` and no others.
abbrev pub numbered : {M : Type 0} → (M → ℕ) → (ℕ → M) → Codec M
numbered attempts make = record {
  to_string = λ m. some (numeral (attempts m));
  from_str = λ text. number make (parse text);
}

abbrev pub debug : ServiceError → String
debug e = "error"

abbrev pub world : Lists → World
world l = record { lists = l; events = []; broken_pipe_sleep = 10; slept = [] }

abbrev pub gone : ServiceError
gone = bad_request "gone"
