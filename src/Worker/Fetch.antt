-- ===== src/Worker/Fetch.antt =====
-- How a worker takes the next message, server/src/bin/delete-worker.rs.
use trieve.Prelude.{◌≡◌, refl, true, false, String, some, ◌∷◌, arith}
use trieve.Redis.Laws.{size, size-brpoplpush, brpoplpush_head}
use trieve.Worker.{World, Pop, replied, io_error, other_error, fetch}

-- However the command ends, no message is lost.
pub size-fetch : (pop : Pop) (w : World) → size (fetch pop w).1.lists ≡ size w.lists
unfolding fetch
size-fetch replied w = size-brpoplpush w.lists
size-fetch (io_error true) w = size-brpoplpush w.lists
size-fetch (io_error false) w = refl
size-fetch (other_error true) w = size-brpoplpush w.lists
size-fetch (other_error false) w = refl

-- The message that is handed on stands at the left end of the processing list.
pub fetch_head :
    (pop : Pop) (w : World) (text : String)
    → (fetch pop w).0 ≡ some text
    → (fetch pop w).1.lists.processing ≡ text ∷ w.lists.processing
unfolding fetch
fetch_head replied w text h = brpoplpush_head w.lists text h
fetch_head (io_error b) w text h = ground arith
fetch_head (other_error b) w text h = ground arith

pub events-fetch : (pop : Pop) (w : World) → (fetch pop w).1.events ≡ w.events
unfolding fetch
events-fetch replied w = refl
events-fetch (io_error b) w = refl
events-fetch (other_error b) w = refl
