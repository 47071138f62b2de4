-- ===== src/Tickets/Replay.antt =====
-- src/tickets/replay.ts: the cache of spent ticket ids. `seen` is a `Map` in insertion order; times
-- are integers, as the expiry comes from a ticket.
pub mod Bound
pub mod SingleUse
use consensus_node.Base.{
  ℕ, zero, suc, Text, Bool, true, false, List, [], ◌∷◌, length, leb, ltb, if◌then◌else◌, text_eq,
}
use consensus_node.Base.Int.{ℤ, pos, leb_ℤ, ltb_ℤ, ◌-ℤ◌}
use consensus_node.Base.Map.{has, set, delete}

abbrev pub sweep_interval_sec : ℤ
sweep_interval_sec = pos 30

pub record JtiReplayCache : Type 0 where
  pub seen : List (Text × ℤ)
  pub last_sweep : ℤ
  pub max_entries : ℕ

abbrev pub new_cache : ℕ → JtiReplayCache
new_cache max_entries = record { seen = []; last_sweep = pos 0; max_entries = max_entries }

-- `for (const [jti, exp] of seen) if (exp <= nowSec) seen.delete(jti)`
unfoldable pub drop_expired : ℤ → List (Text × ℤ) → List (Text × ℤ)
drop_expired now [] = []
drop_expired now ((jti, exp) ∷ seen) =
    let rest = drop_expired now seen in if leb_ℤ exp now then rest else (jti, exp) ∷ rest

unfoldable pub sweep : ℤ → JtiReplayCache → JtiReplayCache
sweep now c =
    if ltb_ℤ (now -ℤ c.last_sweep) sweep_interval_sec
    then c
    else record c { last_sweep = now; seen = drop_expired now c.seen }

-- `while (seen.size >= maxEntries) { oldest = first key; if none break; delete oldest }`: each round
-- takes the head of the list, so the loop is a recursion on it.
unfoldable pub evict : ℕ → List (Text × ℤ) → List (Text × ℤ)
evict max_entries [] = []
evict max_entries ((jti, exp) ∷ seen) =
    let rest = evict max_entries seen in
    if leb max_entries (length ((jti, exp) ∷ seen)) then rest else (jti, exp) ∷ seen

unfoldable pub consume : Text → ℤ → ℤ → JtiReplayCache → Bool × JtiReplayCache
consume jti exp now c =
    let swept = sweep now c in
    if has jti swept.seen
    then (false, swept)
    else (true, record swept { seen = set jti exp (evict swept.max_entries swept.seen) })

-- `get size()`
abbrev pub size : JtiReplayCache → ℕ
size c = length c.seen
