-- ===== src/Tunnel/Client/Requests.antt =====
-- The promises of src/tunnel/tunnel-client.ts: what is pending and what has been settled.
use consensus_node.Base.{
  ℕ, ◌+◌, Text, text_eq, text_eq_iff, Bool, true, false, List, [], ◌∷◌, ◌++◌, Option, none, some,
  ◌==◌, nat_eq, Result, ok, err, if◌then◌else◌, if-elim, ◌≡◌, refl, ap, subst, sym, ◌∙◌, arith,
  Bool-cases, inl, inr,
}
use consensus_node.Base.Int.{ℤ, pos, leb_ℤ}
use consensus_node.Base.Map
use consensus_node.Base.Json.{Json, JsonCodec}
use consensus_node.Tunnel.FrameType
use consensus_node.Tunnel.Frames.{FrameError, peek_frame_sequence}
use consensus_node.Tunnel.Messages.{MessageError, encode_message}
use consensus_node.Crypto.Primitives.{Aead}
use consensus_node.Crypto.Channel.{SecureSession, ChannelError, Opened, open_frame, seal_frame}
use consensus_node.Tunnel.Client.{
  Event, sent, resolved, rejected, handled, socket_closed, close_handled, Reason, tunnel_closed,
  TunnelClient, Ran, rejections, close, handle_close, reply_id, settle_event, settle_pending,
  resolve_pending, sent_frame, send, deliver, on_frame, on_opened, on_peeked, handle_raw_message,
}

abbrev settles : ℕ → Event → Bool
settles q (resolved p _) = p == q
settles q (rejected p _) = p == q
settles q _ = false

-- How often the events settle a promise, and how often it is pending.
unfoldable pub settled : ℕ → List Event → ℕ
settled q [] = 0
settled q (e ∷ es) = (if settles q e then 1 else 0) + settled q es

unfoldable pub waiting : ℕ → List (Text × ℕ) → ℕ
waiting q [] = 0
waiting q ((id, p) ∷ m) = (if p == q then 1 else 0) + waiting q m

-- No id is twice in the map.
abbrev pub Distinct : List (Text × ℕ) → Type 0
Distinct [] = Unit
Distinct ((id, p) ∷ m) = (Map.has id m ≡ false) × Distinct m

-- Nothing is lost and nothing is settled twice: what was pending is pending still or was settled.
pub record Conserves (c : TunnelClient) (after : TunnelClient) (events : List Event) : Type 0 where
  pub distinct : Distinct after.pending
  pub balance : (q : ℕ) → waiting q c.pending ≡ waiting q after.pending + settled q events

settled-append : (q : ℕ) (es fs : List Event) → settled q (es ++ fs) ≡ settled q es + settled q fs
unfolding settled
settled-append q [] fs = omega arith
settled-append q (e ∷ es) fs = omega (arith, settled-append q es fs)

settled-rejections :
    (q : ℕ) (r : Reason) (m : List (Text × ℕ)) → settled q (rejections r m) ≡ waiting q m
unfolding settled waiting
settled-rejections q r [] = refl
settled-rejections q r ((id, p) ∷ m) = omega (arith, settled-rejections q r m)

delete_absent : (id : Text) (m : List (Text × ℕ)) → Map.has id m ≡ false → Map.delete id m ≡ m
unfolding Map.has Map.delete
delete_absent id [] h = refl
delete_absent id ((j, p) ∷ m) h = ground (arith, delete_absent id m)

Distinct-delete : (id : Text) (m : List (Text × ℕ)) → Distinct m → Distinct (Map.delete id m)
unfolding Map.delete
Distinct-delete id [] d = tt
Distinct-delete id ((j, p) ∷ m) d = elim (Bool-cases (j == id)) [
  | inl e ↦ rw e (Distinct-delete id m d.1)
  | inr e ↦ rw e (ground (arith, d.0, Map.has-delete id j m), Distinct-delete id m d.1)
]

waiting-delete :
    (q : ℕ) (id : Text) (p : ℕ) (m : List (Text × ℕ))
    → Distinct m
    → Map.get id m ≡ some p
    → waiting q m ≡ waiting q (Map.delete id m) + (if p == q then 1 else 0)
unfolding waiting Map.get Map.delete
waiting-delete q id p [] d g = cc
waiting-delete q id p ((j, r) ∷ m) d g =
    ground (arith, text_eq_iff j id, delete_absent id m, waiting-delete q id p m d.1, d.0)

settled-settle_event :
    (q p : ℕ) (message : Json) → settled q (settle_event p message ∷ []) ≡ (if p == q then 1 else 0)
unfolding settled
settled-settle_event q p message = ground arith

nothing_settled :
    (q : ℕ) (c : TunnelClient) → waiting q c.pending ≡ waiting q c.pending + settled q []
unfolding settled
nothing_settled q c = omega arith

waiting_none : (q : ℕ) → waiting q [] ≡ 0
unfolding waiting
waiting_none q = refl

Conserves-same :
    (c after : TunnelClient) → after.pending ≡ c.pending → Distinct c.pending → Conserves c after []
Conserves-same c after same d = record {
  distinct = subst Distinct (sym same) d;
  balance = λ q. nothing_settled q c ∙ ap (λ m. waiting q m + settled q []) (sym same);
}

settle_pending-Conserves :
    (id : Text) (message : Json) (o : Option ℕ) (c : TunnelClient)
    → Map.get id c.pending ≡ o
    → Distinct c.pending
    → Conserves c (settle_pending id message o c).0 (settle_pending id message o c).1
settle_pending-Conserves id message none c g d = record {
  distinct = d;
  balance = λ q. nothing_settled q c;
}
settle_pending-Conserves id message (some p) c g d = record {
  distinct = Distinct-delete id c.pending d;
  balance =
      λ q. omega (arith, waiting-delete q id p c.pending d g, settled-settle_event q p message);
}

resolve_pending-Conserves :
    (message : Json) (c : TunnelClient)
    → Distinct c.pending
    → Conserves c (resolve_pending message c).0 (resolve_pending message c).1
unfolding resolve_pending
resolve_pending-Conserves message c d = elim (Bool-cases (reply_id message == [])) [
  | inl e ↦ rw e (Conserves-same c c refl d)
  | inr e ↦ rw e (settle_pending-Conserves (reply_id message) message _ c refl d)
]

-- Closing settles everything.
Conserves-closed :
    (reason : Reason) (c after : TunnelClient) (es : List Event)
    → after.pending ≡ []
    → ((q : ℕ) → settled q es ≡ 0)
    → Conserves c after (rejections reason c.pending ++ es)
Conserves-closed reason c after es none_left quiet = record {
  distinct = subst Distinct (sym none_left) tt;
  balance = λ q. omega (
    arith,
    settled-append q (rejections reason c.pending) es,
    settled-rejections q reason c.pending,
    quiet q,
    ap (waiting q) none_left,
    waiting_none q,
  );
}

close-Conserves :
    (code : ℕ) (reason : Text) (c : TunnelClient)
    → Conserves c (close code reason c).client (close code reason c).events
unfolding close settled
close-Conserves code reason c =
    Conserves-closed (tunnel_closed reason) c _ _ refl (λ q. quiet_close q c.is_open)
  where
    quiet_close :
        (q : ℕ) (b : Bool) → settled q (if b then socket_closed code reason ∷ [] else []) ≡ 0
    quiet_close q true = refl
    quiet_close q false = refl

-- A closed connection settles every pending promise, once for each time that it is pending.
pub handle_close-Conserves :
    (reason : Text) (c : TunnelClient)
    → Conserves c (handle_close reason c).client (handle_close reason c).events
unfolding handle_close settled
handle_close-Conserves reason c = Conserves-closed (tunnel_closed reason) c _ _ refl quiet
  where
    quiet : (q : ℕ) → settled q (close_handled reason ∷ []) ≡ 0
    quiet q = refl

Conserves-more :
    (c after : TunnelClient) (es fs : List Event)
    → Conserves c after es
    → ((q : ℕ) → settled q fs ≡ 0)
    → Conserves c after (es ++ fs)
Conserves-more c after es fs k quiet = record {
  distinct = k.distinct;
  balance = λ q. omega (arith, k.balance q, settled-append q es fs, quiet q);
}

abbrev Kept : TunnelClient → Ran → Type 0
Kept c r = Conserves c r.client r.events

-- A field of the client that no promise depends on may change first.
Kept-from : (c d : TunnelClient) (r : Ran) → d.pending ≡ c.pending → Kept d r → Kept c r
Kept-from c d r same k = record {
  distinct = k.distinct;
  balance = λ q. ap (waiting q) (sym same) ∙ k.balance q;
}

module _ (aead : Aead) (json : JsonCodec) (session : SecureSession) where
  sent_frame-Kept :
      (c : TunnelClient) (r : Result ChannelError (List ℕ))
      → Distinct c.pending
      → Kept c (sent_frame aead json session c r)
  unfolding settled
  sent_frame-Kept c (err e) d = Conserves-same c _ refl d
  sent_frame-Kept c (ok raw) d =
      Conserves-more c _ [] (sent raw ∷ []) (Conserves-same c _ refl d) quiet
    where
      quiet : (q : ℕ) → settled q (sent raw ∷ []) ≡ 0
      quiet q = refl

  send-Kept :
      (message : Json) (type : ℕ) (nonce : List ℕ) (c : TunnelClient)
      → Distinct c.pending
      → Kept c (send aead json session message type nonce c)
  unfolding send
  send-Kept message type nonce c d =
      if-elim c.is_open (Kept c)
        (sent_frame-Kept c
          (seal_frame aead session.send_key type (pos c.send_sequence) (encode_message json message)
            nonce)
          d)
        (Conserves-same c c refl d)

  deliver-Kept :
      (c : TunnelClient) (r : Result MessageError Json)
      → Distinct c.pending
      → Kept c (deliver aead json session c r)
  unfolding deliver settled
  deliver-Kept c (err e) d = Conserves-same c c refl d
  deliver-Kept c (ok message) d =
      Conserves-more c _ _ (handled message ∷ []) (resolve_pending-Conserves message c d) quiet
    where
      quiet : (q : ℕ) → settled q (handled message ∷ []) ≡ 0
      quiet q = refl

  on_frame-Kept :
      (now : ℤ) (nonce : List ℕ) (opened : Opened) (c : TunnelClient)
      → Distinct c.pending
      → Kept c (on_frame aead json session now nonce opened c)
  unfolding on_frame
  on_frame-Kept now nonce opened c d =
      if-elim (opened.frame.type == FrameType.ping) (Kept c) (send-Kept _ _ nonce c d) (
        if-elim (opened.frame.type == FrameType.pong) (Kept c) (Conserves-same c c refl d) (
          if-elim (opened.frame.type == FrameType.close) (Kept c) (close-Conserves 1000 _ c)
            (deliver-Kept c _ d)))

  on_peeked-Kept :
      (now : ℤ) (nonce raw : List ℕ) (r : Result FrameError ℤ) (c : TunnelClient)
      → Distinct c.pending
      → Kept c (on_peeked aead json session now nonce raw r c)
  unfolding on_peeked on_opened
  on_peeked-Kept now nonce raw (err e) c d = Conserves-same c c refl d
  on_peeked-Kept now nonce raw (ok sequence) c d =
      if-elim (leb_ℤ sequence c.last_receive_sequence) (Kept c) (Conserves-same c c refl d)
        (opened_kept (open_frame aead session.receive_key raw))
    where
      opened_kept :
          (o : Result ChannelError Opened) → Kept c (on_opened aead json session now nonce o c)
      opened_kept (err e) = Conserves-same c c refl d
      opened_kept (ok opened) =
          Kept-from c (record c { last_receive_sequence = opened.frame.sequence })
            (on_frame aead json session now nonce opened
              (record c { last_receive_sequence = opened.frame.sequence }))
            refl
            (on_frame-Kept now nonce opened
              (record c { last_receive_sequence = opened.frame.sequence }) d)

  -- Whatever arrives, no pending promise is lost and none is settled twice: each one that was pending
  -- is still pending or has been settled once, and no id comes to be in the map twice. The ids in the
  -- map were distinct before.
  pub handle_raw_message-Conserves :
      (now : ℤ) (nonce raw : List ℕ) (c : TunnelClient)
      → Distinct c.pending
      → Conserves c
          (handle_raw_message aead json session now nonce raw c).client
          (handle_raw_message aead json session now nonce raw c).events
  unfolding handle_raw_message
  handle_raw_message-Conserves now nonce raw c d =
      on_peeked-Kept now nonce raw (peek_frame_sequence raw) c d
