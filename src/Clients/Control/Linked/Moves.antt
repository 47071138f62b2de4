-- ===== src/Clients/Control/Linked/Moves.antt =====
-- Every handler of src/clients/control-client.ts keeps the links.
use consensus_node.Base.{
  ℕ, Text, codes, text_eq, nat_eq, Bool-cases, inl, inr, Bool, List, [], ◌∷◌, Option, none, some,
  ◌==◌, ==_refl, ==_ne, includes, if◌then◌else◌, ◌≡◌, refl, sym, ap, ◌∙◌, subst, false, true,
}
use mathlib.Core.Option
use consensus_node.Base.Map
use consensus_node.Base.Json.{JsonCodec}
use consensus_node.Tunnel.Messages.Kinds.{StreamOpenMessage, StreamDataMessage, StreamCloseMessage}
use consensus_node.Clients.Control.PublicFrames
use consensus_node.Clients.Control.PublicFrames.{
  PublicTunnelFrame, encode_public_tunnel_frame, decode_public_tunnel_frame,
}
use consensus_node.Clients.Control.Target.{
  StreamTarget, raw_tunnel, public_tunnel_owner, public_tunnel_stream, data_plane,
  parse_stream_target,
}
use consensus_node.Clients.Control.State.{Owner, Link, ControlClient, Handled, Action, find_owner}
use consensus_node.Clients.Control.Streams.{
  cleanup_public_tunnel_stream, cleanup_linked, unlinked_owner, open_owner, drop_streams,
  close_owner, open_with_owner, open_public_stream, open_target, on_stream_open, owner_frame_for,
  on_owner_frame, on_linked_data, on_stream_bytes, on_stream_data, reset_sent, close_linked,
  close_stream, on_stream_close,
}
use consensus_node.Clients.Control.Linked.{
  IsLinked, AreLinked, open_owner-AreLinked, link_stream-AreLinked, unlink_owner,
  close_owner-AreLinked, drop_streams-owners, some_inj, none-some,
}

pub record IsSound (c : ControlClient) : Type 0 where
  pub linked : IsLinked c
  pub distinct : Map.Distinct c.owners

get_here :
    (t t' : Text) (o o' : Owner) (rest : List (Text × Owner))
    → t' ≡ t
    → o' ≡ o
    → Map.get t ((t', o') ∷ rest) ≡ some o
get_here t t' o o' rest e e' =
    Map.get-cons t' t o' rest
    ∙ (ap (λ b. if b then some o' else Map.get t rest) (ap (λ k. k == t) e ∙ ==_refl t)
        ∙ ap some e')

get_there :
    (t t' : Text) (o o' : Owner) (rest : List (Text × Owner))
    → Map.has t' rest ≡ false
    → Map.get t rest ≡ some o
    → Map.get t ((t', o') ∷ rest) ≡ some o
get_there t t' o o' rest new there =
    Map.get-cons t' t o' rest
    ∙ (ap (λ b. if b then some o' else Map.get t rest)
          (==_ne t' t (λ e. absurd (
            none-some o
              (sym (Map.get-eq-none t' rest new) ∙ (ap (λ k. Map.get k rest) e ∙ there)))))
        ∙ there)

pub find_owner-get :
    (stream_id t : Text) (o : Owner) (owners : List (Text × Owner))
    → Map.Distinct owners
    → find_owner stream_id owners ≡ some (t, o)
    → Map.get t owners ≡ some o
unfolding find_owner
find_owner-get stream_id t o [] d h = absurd (none-some (t, o) h)
find_owner-get stream_id t o ((t', o') ∷ rest) d h = elim (Bool-cases (o'.stream_id == stream_id)) [
  | inl on ↦
      let same : ◌≡◌ {A = Option (Text × Owner)} (some (t', o')) (some (t, o)) =
        sym (ap (λ b. if b then some (t', o') else find_owner stream_id rest) on) ∙ h in
      let e = some_inj (t', o') (t, o) same in
      get_here t t' o o' rest (ap (λ p. p.0) e) (ap (λ p. p.1) e)
  | inr off ↦ get_there t t' o o' rest d.0 (
      find_owner-get stream_id t o rest d.1
        (sym (ap (λ b. if b then some (t', o') else find_owner stream_id rest) off) ∙ h))
]

empty_links : (owners : List (Text × Owner)) → AreLinked owners []
empty_links owners s l h = absurd (none-some l (sym (Map.get-nil s) ∙ h))

-- What a handler leaves is sound.
pub record Keeps (h : Handled) : Type 0 where
  pub sound : IsSound h.0

pub kept : {c : ControlClient} (sends : List Action) → IsSound c → Keeps (c, sends)
kept sends p = record { sound = p }

pub if-Keeps : (b : Bool) {h k : Handled} → Keeps h → Keeps k → Keeps (if b then h else k)
if-Keeps true p q = p
if-Keeps false p q = q

cleanup-IsSound :
    (c : ControlClient) (s : Text) (found : Option Link)
    → Map.get s c.public_streams ≡ found
    → IsSound c
    → IsSound (cleanup_linked s found c)
cleanup-IsSound c s none h sound = sound
cleanup-IsSound c s (some l) h sound = record {
  linked =
      unlink_owner c.owners c.public_streams sound.linked s l (Map.get l.tunnel_id c.owners) h refl;
  distinct = unlinked_distinct (Map.get l.tunnel_id c.owners);
}
  where
    unlinked_distinct : (o : Option Owner) → Map.Distinct (unlinked_owner s l o c.owners)
    unlinked_distinct none = sound.distinct
    unlinked_distinct (some o) = Map.Distinct-set l.tunnel_id _ c.owners sound.distinct

pub cleanup_public_tunnel_stream-IsSound :
    (c : ControlClient) (s : Text) → IsSound c → IsSound (cleanup_public_tunnel_stream s c)
unfolding cleanup_public_tunnel_stream
cleanup_public_tunnel_stream-IsSound c s sound =
    cleanup-IsSound c s (Map.get s c.public_streams) refl sound

open_owner-Keeps :
    (c : ControlClient) (s t : Text)
    → Map.get t c.owners ≡ none
    → IsSound c
    → Keeps (open_owner s t c)
unfolding open_owner
open_owner-Keeps c s t fresh sound = kept _ (record {
  linked = open_owner-AreLinked c.owners c.public_streams sound.linked t _ fresh;
  distinct = Map.Distinct-set t _ c.owners sound.distinct;
})

close_owner-Keeps :
    (c : ControlClient) (s t : Text) (o : Owner)
    → Map.get t c.owners ≡ some o
    → IsSound c
    → Keeps (close_owner s t o c)
unfolding close_owner
close_owner-Keeps c s t o at sound = kept _ (record {
  linked =
      subst
        (λ owners.
          AreLinked (Map.delete t owners) (drop_streams o.server_to_owner c).public_streams)
        (sym (drop_streams-owners o.server_to_owner c))
        (close_owner-AreLinked c.owners c.public_streams sound.linked c s t o refl refl at);
  distinct =
      subst (λ owners. Map.Distinct (Map.delete t owners))
        (sym (drop_streams-owners o.server_to_owner c))
        (Map.Distinct-delete t c.owners sound.distinct);
})

open_with_owner-Keeps :
    (to_base64 : List ℕ → Text) (c : ControlClient) (s t : Text) (initial : List ℕ)
    (o : Option Owner)
    → Map.get t c.owners ≡ o
    → IsSound c
    → Keeps (open_with_owner to_base64 s t initial o c)
open_with_owner-Keeps to_base64 c s t initial none at sound = kept _ sound
open_with_owner-Keeps to_base64 c s t initial (some o) at sound = kept _ (record {
  linked = link_stream-AreLinked c.owners c.public_streams sound.linked t o s at;
  distinct = Map.Distinct-set t _ c.owners sound.distinct;
})

-- A message that opens a tunnel opens one that is not open.
abbrev pub OpensNew : Option StreamTarget → ControlClient → Type 0
OpensNew (some (public_tunnel_owner t)) c = Map.get t c.owners ≡ none
OpensNew _ c = Unit

module _ (to_base64 : List ℕ → Text) where
  open_target-Keeps :
      (s : Text) (text : Option Text) (target : Option StreamTarget) (c : ControlClient)
      → OpensNew target c
      → IsSound c
      → Keeps (open_target to_base64 s text target c)
  unfolding open_target open_public_stream
  open_target-Keeps s text none c new sound = kept _ sound
  open_target-Keeps s text (some (public_tunnel_owner t)) c new sound =
      open_owner-Keeps c s t new sound
  open_target-Keeps s text (some (public_tunnel_stream t initial)) c new sound =
      open_with_owner-Keeps to_base64 c s t initial (Map.get t c.owners) refl sound
  open_target-Keeps s text (some data_plane) c new sound =
      (kept _ (record { linked = sound.linked; distinct = sound.distinct }))
  open_target-Keeps s text (some (raw_tunnel host port)) c new sound =
      (kept _ (record { linked = sound.linked; distinct = sound.distinct }))

  module _ (from_base64 : Text → List ℕ) where
    pub on_stream_open-Keeps :
        (json : JsonCodec) (m : StreamOpenMessage) (c : ControlClient)
        → OpensNew (parse_stream_target from_base64 json m.target) c
        → IsSound c
        → Keeps (on_stream_open to_base64 from_base64 json m c)
    unfolding on_stream_open
    on_stream_open-Keeps json m c new sound =
        if-Keeps (Option.get_or m.target [] == codes "proxy-session")
          (kept _ (record { linked = sound.linked; distinct = sound.distinct }))
          (open_target-Keeps m.stream_id m.target (parse_stream_target from_base64 json m.target) c
            new sound)

  owner_frame_for-Keeps :
      (type : ℕ) (payload : List ℕ) (s : Option Text) (c : ControlClient)
      → IsSound c
      → Keeps (owner_frame_for to_base64 type payload s c)
  unfolding owner_frame_for
  owner_frame_for-Keeps type payload none c sound = kept _ sound
  owner_frame_for-Keeps type payload (some s) c sound =
      let closing = cleanup_public_tunnel_stream-IsSound c s sound in
      if-Keeps (s == []) (kept _ sound) (
        if-Keeps (type == PublicFrames.stream_data) (kept _ sound) (
          if-Keeps (type == PublicFrames.stream_end) (kept _ closing)
            (if-Keeps (type == PublicFrames.stream_reset) (kept _ closing) (kept _ sound))))

  on_owner_frame-Keeps :
      (o : Owner) (frame : Option PublicTunnelFrame) (c : ControlClient)
      → IsSound c
      → Keeps (on_owner_frame to_base64 o frame c)
  unfolding on_owner_frame
  on_owner_frame-Keeps o none c sound = kept _ sound
  on_owner_frame-Keeps o (some frame) c sound =
      if-Keeps (frame.type == PublicFrames.ping) (kept _ sound) (
        if-Keeps (frame.type == PublicFrames.pong) (kept _ sound)
          (owner_frame_for-Keeps frame.type frame.payload _ c sound))

  on_linked_data-Keeps :
      (s : Text) (l : Link) (payload : List ℕ) (o : Option Owner) (c : ControlClient)
      → IsSound c
      → Keeps (on_linked_data to_base64 s l payload o c)
  unfolding on_linked_data
  on_linked_data-Keeps s l payload none c sound =
      kept _ (cleanup_public_tunnel_stream-IsSound c s sound)
  on_linked_data-Keeps s l payload (some o) c sound = kept _ sound

  on_stream_bytes-Keeps :
      (s : Text) (bytes : List ℕ) (o : Option (Text × Owner)) (l : Option Link) (c : ControlClient)
      → IsSound c
      → Keeps (on_stream_bytes to_base64 s bytes o l c)
  on_stream_bytes-Keeps s bytes (some (t, o)) l c sound =
      on_owner_frame-Keeps o (decode_public_tunnel_frame bytes) c sound
  on_stream_bytes-Keeps s bytes none (some l) c sound =
      on_linked_data-Keeps s l bytes (Map.get l.tunnel_id c.owners) c sound
  on_stream_bytes-Keeps s bytes none none c sound =
      if-Keeps (includes s c.raw_streams) (kept _ sound) (
        if-Keeps (includes s c.data_plane_streams) (kept _ sound)
          (kept _ (record { linked = sound.linked; distinct = sound.distinct })))

  pub on_stream_data-Keeps :
      (from_base64 : Text → List ℕ) (m : StreamDataMessage) (c : ControlClient)
      → IsSound c
      → Keeps (on_stream_data to_base64 from_base64 m c)
  unfolding on_stream_data
  on_stream_data-Keeps from_base64 m c sound =
      on_stream_bytes-Keeps m.stream_id (from_base64 m.data_text) (find_owner m.stream_id c.owners)
        (Map.get m.stream_id c.public_streams) c sound

  reset_sent-Keeps :
      (s : Text) (o : Owner) (encoded : Option (List ℕ)) (c : ControlClient)
      → IsSound c
      → Keeps (reset_sent to_base64 s o encoded c)
  reset_sent-Keeps s o none c sound = kept _ sound
  reset_sent-Keeps s o (some bytes) c sound =
      kept _ (cleanup_public_tunnel_stream-IsSound c s sound)

  close_linked-Keeps :
      (s : Text) (l : Link) (o : Option Owner) (c : ControlClient)
      → IsSound c
      → Keeps (close_linked to_base64 s l o c)
  close_linked-Keeps s l none c sound = kept _ (cleanup_public_tunnel_stream-IsSound c s sound)
  close_linked-Keeps s l (some o) c sound =
      reset_sent-Keeps s o
        (encode_public_tunnel_frame PublicFrames.stream_reset l.owner_stream_id []) c sound

  close_stream-Keeps :
      (s : Text) (o : Option (Text × Owner)) (l : Option Link) (c : ControlClient)
      → find_owner s c.owners ≡ o
      → IsSound c
      → Keeps (close_stream to_base64 s o l c)
  close_stream-Keeps s (some (t, o)) l c found sound =
      close_owner-Keeps c s t o (find_owner-get s t o c.owners sound.distinct found) sound
  close_stream-Keeps s none (some l) c found sound =
      close_linked-Keeps s l (Map.get l.tunnel_id c.owners) c sound
  close_stream-Keeps s none none c found sound =
      if-Keeps (includes s c.data_plane_streams)
        (kept _ (record { linked = sound.linked; distinct = sound.distinct }))
        (if-Keeps (includes s c.raw_streams)
          (kept _ (record { linked = sound.linked; distinct = sound.distinct }))
          (kept _ (record { linked = sound.linked; distinct = sound.distinct })))

  pub on_stream_close-Keeps :
      (m : StreamCloseMessage) (c : ControlClient)
      → IsSound c
      → Keeps (on_stream_close to_base64 m c)
  unfolding on_stream_close
  on_stream_close-Keeps m c sound =
      close_stream-Keeps m.stream_id (find_owner m.stream_id c.owners)
        (Map.get m.stream_id c.public_streams) c refl sound
