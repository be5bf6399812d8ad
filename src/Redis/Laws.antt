-- ===== src/Redis/Laws.antt =====
-- What the commands on the lists keep.
use trieve.Prelude.{
  ℕ, suc, ◌+◌, ◌≡◌, refl, String, eq_iff, Option, none, some, List, [], ◌∷◌, length, arith,
}
use trieve.Redis.{Lists, remove_first, pop_right, brpoplpush}

-- How many entries a worker's lists hold.
abbrev pub size : Lists → ℕ
size l = length l.queue + length l.processing + length l.dead_letters

pub remove_first_head : (v : String) (xs : List String) → remove_first v (v ∷ xs) ≡ xs
unfolding remove_first
remove_first_head v xs = ground (arith, eq_iff v v)

abbrev popped_size : Option (List String × String) → ℕ
popped_size none = 0
popped_size (some (r, v)) = suc (length r)

length-pop_right : (xs : List String) → popped_size (pop_right xs) ≡ length xs
unfolding pop_right
length-pop_right [] = refl
length-pop_right (x ∷ xs) = ground (arith, length-pop_right xs)

-- Taking a message over to the processing list loses none.
pub size-brpoplpush : (l : Lists) → size (brpoplpush l).1 ≡ size l
unfolding brpoplpush
size-brpoplpush l = ground (arith, length-pop_right l.queue)

-- A reply names the message that is now at the left end of the processing list.
pub brpoplpush_head :
    (l : Lists) (v : String)
    → (brpoplpush l).0 ≡ some v
    → (brpoplpush l).1.processing ≡ v ∷ l.processing
unfolding brpoplpush
brpoplpush_head l v h = ground arith
