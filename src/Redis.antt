-- ===== src/Redis.antt =====
-- The Redis lists through which the handlers of server/src/handlers hand messages to the workers of
-- server/src/bin. Redis is a service: the meaning of its commands is the documented one. A list is
-- written from its left end, where LPUSH adds and BRPOPLPUSH puts what it took from the right.
pub mod Laws
use trieve.Prelude.{
  String, str_eq, Bool, true, false, Option, none, some, List, [], ◌∷◌, if◌then◌else◌,
}
use trieve.Errors.{bad_request, Result, ok, err}

-- The three lists of one worker: what waits, what it works on, and what it has given up.
pub record Lists : Type 0 where
  pub queue : List String
  pub processing : List String
  pub dead_letters : List String

-- How a command ended for the client. A failed one may have been applied by the server all the same.
pub data Call : Type 0 where
  done : Call
  failed : Bool → String → Call

-- `LREM key 1 value`: the first occurrence from the left.
unfoldable pub remove_first : String → List String → List String
remove_first v [] = []
remove_first v (x ∷ xs) = let rest = remove_first v xs in if str_eq x v then xs else x ∷ rest

-- The right end of a list, and the list without it.
unfoldable pub pop_right : List String → Option (List String × String)
pop_right [] = none
pop_right (x ∷ xs) = elim (pop_right xs) [ none ↦ some ([], x) | some (r, v) ↦ some (x ∷ r, v) ]

-- `BRPOPLPUSH queue processing`, and what it replied: nothing when the queue stayed empty.
unfoldable pub brpoplpush : Lists → Option String × Lists
brpoplpush l = elim (pop_right l.queue) [
  | none ↦ (none, l)
  | some (rest, v) ↦ (some v, record l { queue = rest; processing = v ∷ l.processing })
]

-- A command as the client sees it: the new state if it was applied, and an error text if not `done`.
abbrev pub applied {ℓ} : {S : Type ℓ} → Call → S → S → S
applied done before after = after
applied (failed true e) before after = after
applied (failed false e) before after = before

abbrev pub reply : Call → Result (Unit {0})
reply done = ok tt
reply (failed _ e) = err (bad_request e)

unfoldable pub lrem_processing : Call → String → Lists → Lists
lrem_processing c v l = applied c l (record l { processing = remove_first v l.processing })

unfoldable pub lpush_queue : Call → String → Lists → Lists
lpush_queue c v l = applied c l (record l { queue = v ∷ l.queue })

unfoldable pub lpush_dead_letters : Call → String → Lists → Lists
lpush_dead_letters c v l = applied c l (record l { dead_letters = v ∷ l.dead_letters })
