-- ===== src/Tickets/Replay/Bound.antt =====
-- The cache of src/tickets/replay.ts stays within its bound.
use consensus_node.Base.{ℕ, Text, ◌≡◌, ◌≤◌, ◌<◌, List, [], ◌∷◌, length, arith, text_eq}
use consensus_node.Base.Int.{ℤ}
use consensus_node.Base.Map.{length-set_le}
use consensus_node.Tickets.Replay.{JtiReplayCache, drop_expired, sweep, evict, consume, size}

pub length-drop_expired :
    (now : ℤ) (seen : List (Text × ℤ)) → length (drop_expired now seen) ≤ length seen
unfolding drop_expired
length-drop_expired now [] = omega arith
length-drop_expired now ((jti, exp) ∷ seen) = ground (arith, length-drop_expired now seen)

-- Room for one more entry, where the bound is positive.
length-evict : (m : ℕ) (seen : List (Text × ℤ)) → 0 < m → length (evict m seen) < m
unfolding evict
length-evict m [] h = omega arith
length-evict m ((jti, exp) ∷ seen) h = ground (arith, length-evict m seen)

size-sweep : (now : ℤ) (c : JtiReplayCache) → size (sweep now c) ≤ size c
unfolding sweep
size-sweep now c = ground (arith, length-drop_expired now c.seen)

pub max_entries-sweep : (now : ℤ) (c : JtiReplayCache) → (sweep now c).max_entries ≡ c.max_entries
unfolding sweep
max_entries-sweep now c = ground arith

-- Whatever is consumed at whatever time, a cache with a positive bound that holds at most
-- `max_entries` ids still holds at most that many, and its bound is unchanged.
pub size-consume :
    (c : JtiReplayCache) (jti : Text) (exp now : ℤ)
    → 0 < c.max_entries
    → size c ≤ c.max_entries
    → (size (consume jti exp now c).1 ≤ c.max_entries)
      × ((consume jti exp now c).1.max_entries ≡ c.max_entries)
unfolding consume
size-consume c jti exp now pos_bound h = ground (
  arith,
  size-sweep now c,
  max_entries-sweep now c,
  length-evict c.max_entries (sweep now c).seen,
  length-set_le jti exp (evict c.max_entries (sweep now c).seen),
)

pub max_entries-consume :
    (c : JtiReplayCache) (jti : Text) (exp now : ℤ)
    → (consume jti exp now c).1.max_entries ≡ c.max_entries
unfolding consume
max_entries-consume c jti exp now = ground (arith, max_entries-sweep now c)
