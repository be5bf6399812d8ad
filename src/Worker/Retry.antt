-- ===== src/Worker/Retry.antt =====
-- What a retry does to a worker's lists when every Redis call is answered, stated once for the four
-- workers.
use trieve.Prelude.{
  ℕ, zero, suc, ◌+◌, ◌<◌, ◌≡◌, refl, ap, ◌∙◌, String, List, [], ◌∷◌, arith, ◌==◌, if◌then◌else◌,
  Bool-cases, inl, inr, eq→==, ne→==,
}
use trieve.Redis.{Lists, done, remove_first}
use trieve.Redis.Laws.{size, remove_first_head}
use trieve.Worker.{Outcomes}

abbrev pub healthy : Outcomes
healthy = record { conn = done; lrem = done; conn_again = done; lpush = done }

-- The old text leaves the processing list. It is buried when the count of attempts has come to the
-- limit, and the new text is queued again otherwise.
abbrev pub retried : ℕ → ℕ → String → String → Lists → Lists
retried limit attempt old new l =
    if attempt == limit
    then record l {
      processing = remove_first old l.processing;
      dead_letters = old ∷ l.dead_letters;
    }
    else record l { processing = remove_first old l.processing; queue = new ∷ l.queue }

-- A retry keeps the number of messages.
pub size-retried :
    (limit attempt : ℕ) (old new : String) (rest : List String) (l : Lists)
    → l.processing ≡ old ∷ rest
    → size (retried limit attempt old new l) ≡ size l
size-retried limit attempt old new rest l h = elim (Bool-cases (attempt == limit)) [
  | inl e ↦ rw (e, h, remove_first_head old rest) (omega arith)
  | inr e ↦ rw (e, h, remove_first_head old rest) (omega arith)
]

abbrev pub waiting : String → List String → Lists
waiting text dead = record { queue = text ∷ []; processing = []; dead_letters = dead }

abbrev pub worked : String → List String → Lists
worked text dead = record { queue = []; processing = text ∷ []; dead_letters = dead }

abbrev pub buried : String → List String → Lists
buried text dead = record { queue = []; processing = []; dead_letters = text ∷ dead }

abbrev pub iterate : {S : Type 0} → ℕ → (S → S) → S → S
iterate zero pass s = s
iterate (suc n) pass s = iterate n pass (pass s)

-- A loop whose pass retries the one message there is: `text a` is that message after `a` attempts.
module _ {S : Type 0} (limit : ℕ) (text : ℕ → String) (lists : S → Lists) (pass : S → S)
    (retries : (a : ℕ) (dead : List String) (s : S)
      → a < limit
      → lists s ≡ waiting (text a) dead
      → lists (pass s) ≡ retried limit (suc a) (text a) (text (suc a)) (worked (text a) dead)) where
  lists-last :
      (a : ℕ) (dead : List String) (s : S)
      → suc a ≡ limit
      → lists s ≡ waiting (text a) dead
      → lists (pass s) ≡ buried (text a) dead
  lists-last a dead s e h =
      retries a dead s (omega arith) h
      ∙ rw (eq→== (suc a) limit e, remove_first_head (text a) []) refl

  lists-retry :
      (a : ℕ) (dead : List String) (s : S)
      → suc a < limit
      → lists s ≡ waiting (text a) dead
      → lists (pass s) ≡ waiting (text (suc a)) dead
  lists-retry a dead s e h =
      retries a dead s (omega arith) h
      ∙ rw (ne→== (suc a) limit e, remove_first_head (text a) []) refl

  -- From a count of `a` attempts the message is given up after `limit - a` passes.
  pub iterate-buried :
      (n a : ℕ) (dead : List String) (s : S)
      → a + suc n ≡ limit
      → lists s ≡ waiting (text a) dead
      → lists (iterate (suc n) pass s) ≡ buried (text (a + n)) dead
  iterate-buried zero a dead s e h =
      lists-last a dead s (omega arith) h
      ∙ ap (λ (k : ℕ). buried (text k) dead) (let z : a ≡ a + 0 = omega arith in z)
  iterate-buried (suc n) a dead s e h =
      iterate-buried n (suc a) dead (pass s) (omega arith) (lists-retry a dead s (omega arith) h)
      ∙ ap (λ (k : ℕ). buried (text k) dead) (let z : suc a + n ≡ a + suc n = omega arith in z)
