-- ===== src/Clients/Stream/Closing.antt =====
-- How often a stream of src/clients/data-plane-stream.ts is closed.
use consensus_node.Base.{
  ℕ, ◌+◌, ◌≤◌, Text, codes, List, [], ◌∷◌, ◌++◌, Option, none, some, ◌≡◌, refl, if◌then◌else◌,
  arith,
}
use consensus_node.Clients.Stream.{
  Event, close_sent, error_reported, done, Stream, Call, call_recv, call_send, call_close,
  call_push, call_fail, call_finish, close_once, recv_from, recv, send, close, push_to, push,
  reject_all, fail, finish, run_call, run,
}

abbrev is_close : Event → ℕ
is_close (close_sent _) = 1
is_close _ = 0

-- How many STREAM_CLOSE messages went out, and how many still may.
unfoldable pub closes : List Event → ℕ
closes [] = 0
closes (e ∷ es) = is_close e + closes es

abbrev pub allowed : Stream → ℕ
allowed s = if s.closed then 0 else 1

closes-append : (es fs : List Event) → closes (es ++ fs) ≡ closes es + closes fs
unfolding closes
closes-append [] fs = omega arith
closes-append (e ∷ es) fs = omega (arith, closes-append es fs)

closes-reject_all : (r : Text) (ws : List ℕ) → closes (reject_all r ws) ≡ 0
unfolding closes reject_all
closes-reject_all r [] = refl
closes-reject_all r (w ∷ ws) = omega (arith, closes-reject_all r ws)

abbrev Spends : Stream → Stream × List Event → Type 0
Spends s p = closes p.1 + allowed p.0 ≤ allowed s

close_once-Spends : (reason : Text) (s : Stream) → Spends s (close_once reason s)
unfolding close_once closes
close_once-Spends reason s = ground arith

recv-Spends :
    (p : ℕ) (box : List (List ℕ)) (f : Option Text) (s : Stream) → Spends s (recv_from p box s)
unfolding closes
recv-Spends p [] f s = ground arith
recv-Spends p (b ∷ box) f s = omega arith

push-Spends : (b : List ℕ) (ws : List ℕ) (s : Stream) → Spends s (push_to b ws s)
unfolding closes
push-Spends b [] s = omega arith
push-Spends b (w ∷ ws) s = omega arith

reported :
    (o : Option Text) (es : List Event)
    → closes (elim o [ none ↦ [] | some e ↦ error_reported e ∷ [] ] ++ (es ++ (done ∷ [])))
      ≡ closes es
unfolding closes
reported none es = omega (arith, closes-append es (done ∷ []))
reported (some e) es = omega (arith, closes-append es (done ∷ []))

run_call-Spends : (c : Call) (s : Stream) → Spends s (run_call c s)
unfolding run_call recv push send close fail finish closes
run_call-Spends (call_recv p) s = recv-Spends p s.inbox s.failure s
run_call-Spends (call_send b) s = omega arith
run_call-Spends call_close s = close_once-Spends (codes "data-plane complete") s
run_call-Spends (call_push b) s = push-Spends b s.waiters s
run_call-Spends (call_fail r) s = omega (arith, closes-reject_all r s.waiters)
run_call-Spends (call_finish o) s = omega (
  arith,
  reported o (close_once (codes "data-plane closed") s).1,
  close_once-Spends (codes "data-plane closed") s,
)

-- Whatever calls are made, at most one STREAM_CLOSE goes out, and none on a stream that is closed.
pub run-closes :
    (cs : List Call) (s : Stream) → closes (run cs s).1 + allowed (run cs s).0 ≤ allowed s
unfolding run closes
run-closes [] s = omega arith
run-closes (c ∷ cs) s = omega (
  arith,
  closes-append (run_call c s).1 (run cs (run_call c s).0).1,
  run_call-Spends c s,
  run-closes cs (run_call c s).0,
)
