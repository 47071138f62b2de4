-- ===== src/Clients/Stream/Order.antt =====
-- The order of what arrives on a stream of src/clients/data-plane-stream.ts.
use mathlib.Core.List.{append_assoc, append-nil}
use consensus_node.Base.{
  ℕ, Text, codes, Bool, true, List, [], ◌∷◌, ◌++◌, Option, none, some, ◌≡◌, refl, ap, subst, sym,
  ◌∙◌, ◌⊎◌, inl, inr, if-elim,
}
use consensus_node.Clients.Stream.{
  Event, resolved, rejected, data_sent, close_sent, error_reported, done, Stream, Call, call_recv,
  call_send, call_close, call_push, call_fail, call_finish, close_once, recv_from, recv, send,
  close, push_to, push, reject_all, fail, finish, run_call, run,
}

-- What the receivers got, and what was pushed, in order.
unfoldable pub delivered : List Event → List (List ℕ)
delivered [] = []
delivered (resolved p b ∷ es) = b ∷ delivered es
delivered (rejected _ _ ∷ es) = delivered es
delivered (data_sent _ ∷ es) = delivered es
delivered (close_sent _ ∷ es) = delivered es
delivered (error_reported _ ∷ es) = delivered es
delivered (done ∷ es) = delivered es

unfoldable pub pushed : List Call → List (List ℕ)
pushed [] = []
pushed (call_push b ∷ cs) = b ∷ pushed cs
pushed (call_recv _ ∷ cs) = pushed cs
pushed (call_send _ ∷ cs) = pushed cs
pushed (call_close ∷ cs) = pushed cs
pushed (call_fail _ ∷ cs) = pushed cs
pushed (call_finish _ ∷ cs) = pushed cs

-- Nobody waits while something is there, and nobody waits on a failed stream.
pub record WellFormed (s : Stream) : Type 0 where
  pub idle : (s.inbox ≡ []) ⊎ (s.waiters ≡ [])
  pub alive : (s.failure ≡ none) ⊎ (s.waiters ≡ [])

delivered-append : (es fs : List Event) → delivered (es ++ fs) ≡ delivered es ++ delivered fs
unfolding delivered
delivered-append [] fs = refl
delivered-append (resolved p b ∷ es) fs = ap (λ r. b ∷ r) (delivered-append es fs)
delivered-append (rejected _ _ ∷ es) fs = delivered-append es fs
delivered-append (data_sent _ ∷ es) fs = delivered-append es fs
delivered-append (close_sent _ ∷ es) fs = delivered-append es fs
delivered-append (error_reported _ ∷ es) fs = delivered-append es fs
delivered-append (done ∷ es) fs = delivered-append es fs

delivered-reject_all : (r : Text) (ws : List ℕ) → delivered (reject_all r ws) ≡ []
unfolding delivered reject_all
delivered-reject_all r [] = refl
delivered-reject_all r (w ∷ ws) = delivered-reject_all r ws

-- One call: what was delivered and is still there is what was there and was pushed.
record Keeps (s : Stream) (new : List (List ℕ)) (p : Stream × List Event) : Type 0 where
  balance : delivered p.1 ++ p.0.inbox ≡ s.inbox ++ new
  well : WellFormed p.0

abbrev stream : List (List ℕ) → List ℕ → Option Text → Bool → Stream
stream box ws f c = record { inbox = box; waiters = ws; failure = f; closed = c }

recv-Keeps :
    (p : ℕ) (box : List (List ℕ)) (ws : List ℕ) (f : Option Text) (c : Bool)
    → WellFormed (stream box ws f c)
    → Keeps (stream box ws f c) [] (recv_from p box (stream box ws f c))
unfolding delivered
recv-Keeps p [] ws none c w = record {
  balance = refl;
  well = record { idle = inl refl; alive = inl refl };
}
recv-Keeps p [] ws (some r) c w = record { balance = refl; well = w }
recv-Keeps p (b ∷ box) ws f c w = record {
  balance = sym (append-nil (b ∷ box));
  well = record { idle = nobody w.idle; alive = w.alive };
}
  where
    nobody : ((b ∷ box ≡ []) ⊎ (ws ≡ [])) → (box ≡ []) ⊎ (ws ≡ [])
    nobody (inl e) = absurd cc
    nobody (inr e) = inr e

push-Keeps :
    (b : List ℕ) (box : List (List ℕ)) (ws : List ℕ) (f : Option Text) (c : Bool)
    → WellFormed (stream box ws f c)
    → Keeps (stream box ws f c) (b ∷ []) (push_to b ws (stream box ws f c))
unfolding delivered
push-Keeps b box [] f c w = record {
  balance = refl;
  well = record { idle = inr refl; alive = inr refl };
}
push-Keeps b box (x ∷ ws) f c w = record {
  balance = ap (λ r. b ∷ r) empty ∙ sym (ap (λ r. r ++ (b ∷ [])) empty);
  well = record { idle = inl empty; alive = inl healthy };
}
  where
    empty_of : ((box ≡ []) ⊎ (x ∷ ws ≡ [])) → box ≡ []
    empty_of (inl e) = e
    empty_of (inr e) = absurd cc

    empty : box ≡ []
    empty = empty_of w.idle

    healthy_of : ((f ≡ none) ⊎ (x ∷ ws ≡ [])) → f ≡ none
    healthy_of (inl e) = e
    healthy_of (inr e) = absurd cc

    healthy : f ≡ none
    healthy = healthy_of w.alive

-- A call that delivers nothing and leaves the queues alone.
Keeps-quiet :
    (s t : Stream) (es : List Event)
    → delivered es ≡ []
    → t.inbox ≡ s.inbox
    → t.waiters ≡ s.waiters
    → t.failure ≡ s.failure
    → WellFormed s
    → Keeps s [] (t, es)
Keeps-quiet s t es q i ws f w = record {
  balance = ap (λ r. r ++ t.inbox) q ∙ (i ∙ sym (append-nil s.inbox));
  well = record {
    idle =
        subst (λ b. (b ≡ []) ⊎ (t.waiters ≡ [])) (sym i)
          (subst (λ v. (s.inbox ≡ []) ⊎ (v ≡ [])) (sym ws) w.idle);
    alive =
        subst (λ b. (b ≡ none) ⊎ (t.waiters ≡ [])) (sym f)
          (subst (λ v. (s.failure ≡ none) ⊎ (v ≡ [])) (sym ws) w.alive);
  };
}

close_once-Keeps : (reason : Text) (s : Stream) → WellFormed s → Keeps s [] (close_once reason s)
unfolding close_once delivered
close_once-Keeps reason s w =
    if-elim s.closed (Keeps s []) (Keeps-quiet s s [] refl refl refl refl w)
      (Keeps-quiet s (record s { closed = true }) (close_sent reason ∷ []) refl refl refl refl w)

reported :
    (o : Option Text) (es : List Event)
    → delivered (elim o [ none ↦ [] | some e ↦ error_reported e ∷ [] ] ++ (es ++ (done ∷ [])))
      ≡ delivered es
unfolding delivered
reported none es = delivered-append es (done ∷ []) ∙ append-nil (delivered es)
reported (some e) es = delivered-append es (done ∷ []) ∙ append-nil (delivered es)

Keeps-more :
    (s : Stream) (p : Stream × List Event) (es : List Event)
    → delivered es ≡ delivered p.1
    → Keeps s [] p
    → Keeps s [] (p.0, es)
Keeps-more s p es same k = record {
  balance = ap (λ r. r ++ p.0.inbox) same ∙ k.balance;
  well = k.well;
}

finish-Keeps : (outcome : Option Text) (s : Stream) → WellFormed s → Keeps s [] (finish outcome s)
unfolding finish
finish-Keeps outcome s w =
    Keeps-more s (close_once (codes "data-plane closed") s) _
      (reported outcome (close_once (codes "data-plane closed") s).1)
      (close_once-Keeps (codes "data-plane closed") s w)

fail-Keeps : (reason : Text) (s : Stream) → WellFormed s → Keeps s [] (fail reason s)
unfolding fail
fail-Keeps reason s w = record {
  balance =
      ap (λ r. r ++ s.inbox) (delivered-reject_all reason s.waiters) ∙ sym (append-nil s.inbox);
  well = record { idle = inr refl; alive = inr refl };
}

run_call-Keeps : (c : Call) (s : Stream) → WellFormed s → Keeps s (pushed (c ∷ [])) (run_call c s)
unfolding run_call pushed recv push send close delivered
run_call-Keeps (call_recv p) s w = recv-Keeps p s.inbox s.waiters s.failure s.closed w
run_call-Keeps (call_send b) s w = Keeps-quiet s s (data_sent b ∷ []) refl refl refl refl w
run_call-Keeps call_close s w = close_once-Keeps _ s w
run_call-Keeps (call_push b) s w = push-Keeps b s.inbox s.waiters s.failure s.closed w
run_call-Keeps (call_fail r) s w = fail-Keeps r s w
run_call-Keeps (call_finish o) s w = finish-Keeps o s w

pushed_first : (c : Call) (cs : List Call) → pushed (c ∷ cs) ≡ pushed (c ∷ []) ++ pushed cs
unfolding pushed
pushed_first (call_recv _) cs = refl
pushed_first (call_send _) cs = refl
pushed_first call_close cs = refl
pushed_first (call_push _) cs = refl
pushed_first (call_fail _) cs = refl
pushed_first (call_finish _) cs = refl

-- Whatever calls are made in whatever order, what the receivers have got so far, in the order in which
-- they got it, followed by what is still in the inbox, is what was there before followed by what was
-- pushed: nothing is lost, repeated or reordered. And nobody waits while something is there, or on a
-- stream that has failed. The stream was well-formed before, as a new one is.
pub run_in_order :
    (cs : List Call) (s : Stream)
    → WellFormed s
    → (delivered (run cs s).1 ++ (run cs s).0.inbox ≡ s.inbox ++ pushed cs)
      × WellFormed (run cs s).0
unfolding run delivered pushed
run_in_order [] s w = (sym (append-nil s.inbox), w)
run_in_order (c ∷ cs) s w =
    let k = run_call-Keeps c s w in
    let (rest, well) = run_in_order cs (run_call c s).0 k.well in
    (
      ap (λ r. r ++ (run cs (run_call c s).0).0.inbox)
            (delivered-append (run_call c s).1 (run cs (run_call c s).0).1)
          ∙ (append_assoc (delivered (run_call c s).1) (delivered (run cs (run_call c s).0).1)
                (run cs (run_call c s).0).0.inbox
              ∙ (ap (λ r. delivered (run_call c s).1 ++ r) rest
                  ∙ (sym (
                        append_assoc (delivered (run_call c s).1) (run_call c s).0.inbox
                          (pushed cs))
                      ∙ (ap (λ r. r ++ pushed cs) k.balance
                          ∙ (append_assoc s.inbox (pushed (c ∷ [])) (pushed cs)
                              ∙ ap (λ r. s.inbox ++ r) (sym (pushed_first c cs))))))),
      well,
    )
