-- ===== src/Tunnel/Client/Sequence.antt =====
-- The order of frames in src/tunnel/tunnel-client.ts: what was received once is refused for ever.
use consensus_node.Base.{
  ℕ, Text, Bool, true, false, List, [], ◌∷◌, ◌==◌, nat_eq, Result, ok, err, map_err, map_err-eq-ok,
  >>=-eq-ok, if◌then◌else◌, if-elim, ◌≡◌, refl, ap, subst, sym, ◌∙◌, arith, inl, inr, ◌⊎◌,
}
use consensus_node.Base.Int.{ℤ, le→leb_ℤ, leb_ℤ, ◌≤ℤ◌}
use consensus_node.Base.Json.{Json, JsonCodec}
use consensus_node.Tunnel.FrameType
use consensus_node.Tunnel.Frames.{
  FrameError, FrameParts, decode_frame, frame_aad, peek_frame_sequence,
}
use consensus_node.Tunnel.Frames.Aad.{peek-decode_frame}
use consensus_node.Tunnel.Messages.{MessageError}
use consensus_node.Crypto.Primitives.{Aead}
use consensus_node.Crypto.Channel.{
  SecureSession, ChannelError, Opened, open_frame, frame_error, aad_of, decrypt_detached,
}
use consensus_node.Tunnel.Client.{
  ClientError, TunnelClient, Ran, throw, out_of_order, close, resolve_pending, sent_frame, send,
  deliver, on_frame, on_opened, on_peeked, handle_raw_message, answer, on_message,
}

-- A message event, with what the handlers draw at random.
pub record Arrival : Type 0 where
  pub now : ℤ
  pub nonce : List ℕ
  pub error_nonce : List ℕ
  pub error_text : Text
  pub raw : List ℕ

sequence_of :
    (frame : FrameParts) (plaintext : List ℕ) (o : Opened)
    → ◌≡◌ {A = Result ChannelError Opened}
        (ok (record { frame = frame; plaintext = plaintext }))
        (ok o)
    → frame.sequence ≡ o.frame.sequence
sequence_of frame plaintext o h = cc

same_ok : {s t : ℤ} → ◌≡◌ {A = Result FrameError ℤ} (ok s) (ok t) → s ≡ t
same_ok h = cc

module _ (aead : Aead) (json : JsonCodec) (session : SecureSession) where
  abbrev handle : Arrival → TunnelClient → Ran
  handle a c = handle_raw_message aead json session a.now a.nonce a.raw c

  -- The listener on one event after another.
  pub receive_all : List Arrival → TunnelClient → TunnelClient
  receive_all [] c = c
  receive_all (a ∷ as') c =
      receive_all as'
        (on_message aead json session a.now a.nonce a.error_nonce a.error_text a.raw c).client

  abbrev Last : ℤ → Ran → Type 0
  Last n r = r.client.last_receive_sequence ≡ n

  sent_frame-Last :
      (c : TunnelClient) (r : Result ChannelError (List ℕ))
      → Last c.last_receive_sequence (sent_frame aead json session c r)
  sent_frame-Last c (ok raw) = refl
  sent_frame-Last c (err e) = refl

  send-Last :
      (m : Json) (type : ℕ) (nonce : List ℕ) (c : TunnelClient)
      → Last c.last_receive_sequence (send aead json session m type nonce c)
  unfolding send
  send-Last m type nonce c =
      if-elim c.is_open (Last c.last_receive_sequence) (sent_frame-Last c _) refl

  resolve_pending-last :
      (m : Json) (c : TunnelClient)
      → (resolve_pending m c).0.last_receive_sequence ≡ c.last_receive_sequence
  unfolding resolve_pending
  resolve_pending-last m c = ground arith

  deliver-Last :
      (c : TunnelClient) (r : Result MessageError Json)
      → Last c.last_receive_sequence (deliver aead json session c r)
  unfolding deliver
  deliver-Last c (ok m) = resolve_pending-last m c
  deliver-Last c (err e) = refl

  on_frame-Last :
      (now : ℤ) (nonce : List ℕ) (opened : Opened) (c : TunnelClient)
      → Last c.last_receive_sequence (on_frame aead json session now nonce opened c)
  unfolding on_frame close
  on_frame-Last now nonce opened c =
      if-elim (opened.frame.type == FrameType.ping) (Last c.last_receive_sequence)
        (send-Last _ _ nonce c)
        (if-elim (opened.frame.type == FrameType.pong) (Last c.last_receive_sequence) refl (
          if-elim (opened.frame.type == FrameType.close) (Last c.last_receive_sequence) refl
            (deliver-Last c _)))

  -- The last sequence number never goes back.
  abbrev Grows : TunnelClient → Ran → Type 0
  Grows c r = c.last_receive_sequence ≤ℤ r.client.last_receive_sequence

  pub opened-sequence :
      (key raw : List ℕ) (o : Opened)
      → open_frame aead key raw ≡ ok o
      → peek_frame_sequence raw ≡ ok o.frame.sequence
  unfolding open_frame
  opened-sequence key raw o h =
      let (frame, hd, h1) = >>=-eq-ok (map_err frame_error (decode_frame raw)) _ h in
      let (aad, ha, h2) = >>=-eq-ok (map_err frame_error (frame_aad (aad_of frame))) _ h1 in
      let (plaintext, hp, h3) =
        >>=-eq-ok (decrypt_detached aead key frame.nonce frame.ciphertext frame.tag aad) _ h2 in
      peek-decode_frame raw frame (map_err-eq-ok frame_error _ hd)
      ∙ ap ok (sequence_of frame plaintext o h3)

  -- A frame was refused and nothing is counted, or it came after the last one and is the last one now.
  Outcome : List ℕ → TunnelClient → Ran → Type 0
  Outcome raw c r =
      ((e : ClientError) × (r.result ≡ err e)
        × (r.client.last_receive_sequence ≡ c.last_receive_sequence))
      ⊎ ((s : ℤ) × (peek_frame_sequence raw ≡ ok s)
          × (leb_ℤ s c.last_receive_sequence ≡ false)
          × (r.client.last_receive_sequence ≡ s))

  outcome_opened :
      (now : ℤ) (nonce raw : List ℕ) (s : ℤ) (c : TunnelClient) (o : Result ChannelError Opened)
      → peek_frame_sequence raw ≡ ok s
      → leb_ℤ s c.last_receive_sequence ≡ false
      → open_frame aead session.receive_key raw ≡ o
      → Outcome raw c (on_opened aead json session now nonce o c)
  unfolding on_opened Outcome
  outcome_opened now nonce raw s c (err e) p late h = inl (_, refl, refl)
  outcome_opened now nonce raw s c (ok o) p late h = inr (
    s,
    p,
    late,
    on_frame-Last now nonce o (record c { last_receive_sequence = o.frame.sequence })
        ∙ same_ok (sym (opened-sequence session.receive_key raw o h) ∙ p),
  )

  outcome_guard :
      (now : ℤ) (nonce raw : List ℕ) (s : ℤ) (c : TunnelClient) (b : Bool)
      → peek_frame_sequence raw ≡ ok s
      → leb_ℤ s c.last_receive_sequence ≡ b
      → Outcome raw c (
          if b
          then throw out_of_order c
          else on_opened aead json session now nonce (open_frame aead session.receive_key raw) c)
  unfolding Outcome
  outcome_guard now nonce raw s c true p h = inl (out_of_order, refl, refl)
  outcome_guard now nonce raw s c false p h =
      outcome_opened now nonce raw s c (open_frame aead session.receive_key raw) p h refl

  outcome_peeked :
      (now : ℤ) (nonce raw : List ℕ) (c : TunnelClient) (p : Result FrameError ℤ)
      → peek_frame_sequence raw ≡ p
      → Outcome raw c (on_peeked aead json session now nonce raw p c)
  unfolding on_peeked Outcome
  outcome_peeked now nonce raw c (err e) h = inl (_, refl, refl)
  outcome_peeked now nonce raw c (ok s) h =
      outcome_guard now nonce raw s c (leb_ℤ s c.last_receive_sequence) h refl

  outcome : (a : Arrival) (c : TunnelClient) → Outcome a.raw c (handle a c)
  unfolding handle_raw_message
  outcome a c = outcome_peeked a.now a.nonce a.raw c (peek_frame_sequence a.raw) refl

  Outcome-Grows : (raw : List ℕ) (c : TunnelClient) (r : Ran) → Outcome raw c r → Grows c r
  unfolding Outcome
  Outcome-Grows raw c r (inl (e, _, kept)) = ground (arith, kept)
  Outcome-Grows raw c r (inr (s, _, late, now_last)) = ground (arith, late, now_last)

  answer-Last :
      (now : ℤ) (nonce : List ℕ) (text : Text) (o : Result ClientError (Unit {0})) (r : Ran)
      → Last r.client.last_receive_sequence (answer aead json session now nonce text o r)
  answer-Last now nonce text (ok _) r = refl
  answer-Last now nonce text (err e) r = send-Last _ _ nonce r.client

  on_message-last :
      (a : Arrival) (c : TunnelClient)
      → (on_message aead json session a.now a.nonce a.error_nonce a.error_text a.raw
          c).client.last_receive_sequence
        ≡ (handle a c).client.last_receive_sequence
  unfolding on_message
  on_message-last a c =
      answer-Last a.now a.error_nonce a.error_text (handle a c).result (handle a c)

  receive_all-last :
      (as' : List Arrival) (c : TunnelClient)
      → c.last_receive_sequence ≤ℤ (receive_all as' c).last_receive_sequence
  unfolding receive_all
  receive_all-last [] c = omega arith
  receive_all-last (a ∷ as') c = omega (
    arith,
    subst (λ n. c.last_receive_sequence ≤ℤ n) (sym (on_message-last a c))
        (Outcome-Grows a.raw c (handle a c) (outcome a c)),
    receive_all-last as'
        (on_message aead json session a.now a.nonce a.error_nonce a.error_text a.raw c).client,
  )

  refused_again :
      (now : ℤ) (nonce raw : List ℕ) (s : ℤ) (c : TunnelClient)
      → peek_frame_sequence raw ≡ ok s
      → s ≤ℤ c.last_receive_sequence
      → handle_raw_message aead json session now nonce raw c ≡ throw out_of_order c
  unfolding handle_raw_message on_peeked
  refused_again now nonce raw s c p le = rw p (rw (le→leb_ℤ s c.last_receive_sequence le) refl)

  taken :
      (raw : List ℕ) (c : TunnelClient) (r : Ran)
      → r.result ≡ ok tt
      → Outcome raw c r
      → (s : ℤ) × (peek_frame_sequence raw ≡ ok s) × (r.client.last_receive_sequence ≡ s)
  unfolding Outcome
  taken raw c r h (inl (e, bad, _)) = absurd cc
  taken raw c r h (inr (s, p, _, last)) = (s, p, last)

  -- A frame that was handled is never handled again: whatever arrives in between, the same bytes are
  -- refused as out of order, and the state and the promises are as they were.
  pub handle_raw_message_once :
      (a : Arrival) (c : TunnelClient) (others : List Arrival) (now : ℤ) (nonce : List ℕ)
      → (handle_raw_message aead json session a.now a.nonce a.raw c).result ≡ ok tt
      → handle_raw_message aead json session now nonce a.raw
          (receive_all others (handle_raw_message aead json session a.now a.nonce a.raw c).client)
        ≡ record {
          result = err out_of_order;
          client =
              receive_all others
                (handle_raw_message aead json session a.now a.nonce a.raw c).client;
          events = [];
        }
  handle_raw_message_once a c others now nonce h =
      let (s, peeked, last) = taken a.raw c (handle a c) h (outcome a c) in
      refused_again now nonce a.raw s (receive_all others (handle a c).client) peeked (
        subst (λ n. n ≤ℤ (receive_all others (handle a c).client).last_receive_sequence) last
          (receive_all-last others (handle a c).client))
