-- ===== src/Clients/Control/Linked/Routed.antt =====
-- What the links of src/clients/control-client.ts are for: the data of a public stream goes to the
-- owner of its tunnel under its own number, and back.
use consensus_node.Base.{
  ℕ, Text, text_eq, nat_eq, ==_ne, List, [], ◌∷◌, none, some, Result, ok, err, ◌≡◌, ◌≢◌, refl, ◌∙◌,
  sym, includes,
}
use consensus_node.Base.Map
use consensus_node.Base.Json.{JsonCodec}
use consensus_node.Tunnel.Messages.Kinds.{StreamDataMessage}
use consensus_node.Clients.Control.PublicFrames
use consensus_node.Clients.Control.Target.{parse_stream_target}
use consensus_node.Clients.Control.State.{Owner, Link, ControlClient, start_state, find_owner}
use consensus_node.Clients.Control.Streams.{
  open_owner, open_public_stream, send_stream_data, frame_to, on_owner_frame, owner_frame_for,
  on_stream_data, on_linked_data, on_socket_data, on_socket_close, on_socket_error,
  on_data_plane_done, on_close,
}
use consensus_node.Clients.Control.Requests.{
  is_allowed, on_proxy_request, finish_proxy, finish_session, on_eval_request, finish_eval,
  send_heartbeat,
}
use consensus_node.Clients.Control.Updates.{
  on_update_prepare, finish_prepare, on_update_apply, fire_apply, finish_apply, keep_prepared,
  obtained, reply_of,
}
use consensus_node.Releases.Update.{ReleaseManifest, Downloaded}
use consensus_node.Clients.Control.Dispatch.{Event, handle, run}
use consensus_node.Clients.Control.Linked.{none-some}
use consensus_node.Base.Map.{get-set_off}
use consensus_node.Clients.Control.Linked.Moves.{
  IsSound, kept, if-Keeps, OpensNew, on_stream_open-Keeps, on_stream_data-Keeps,
  on_stream_close-Keeps,
}

start_state-IsSound : IsSound start_state
unfolding start_state
start_state-IsSound = record {
  linked = λ s l h. absurd (none-some l (sym (Map.get-nil s) ∙ h));
  distinct = tt;
}

keep_prepared-IsSound :
    (reply_to u : Text) (a m : ReleaseManifest) (d : Result Text Downloaded) (c : ControlClient)
    → IsSound c
    → IsSound (keep_prepared reply_to u a m d c).0
unfolding keep_prepared
keep_prepared-IsSound reply_to u a m (ok d) c sound = record {
  linked = sound.linked;
  distinct = sound.distinct;
}
keep_prepared-IsSound reply_to u a m (err e) c sound = sound

module _ (to_base64 : List ℕ → Text) (from_base64 : Text → List ℕ) (json : JsonCodec) where
  -- A tunnel is opened only while it is not open.
  abbrev pub MayCome : Event → ControlClient → Type 0
  MayCome (Event.open_came m) c = OpensNew (parse_stream_target from_base64 json m.target) c
  MayCome _ c = Unit

  abbrev pub MayRun : List Event → ControlClient → Type 0
  MayRun [] c = Unit
  MayRun (e ∷ es) c = MayCome e c × MayRun es (handle to_base64 from_base64 json e c).0

  handle-IsSound :
      (e : Event) (c : ControlClient)
      → MayCome e c
      → IsSound c
      → IsSound (handle to_base64 from_base64 json e c).0
  unfolding handle on_proxy_request finish_proxy on_eval_request finish_eval finish_session
      on_socket_data on_socket_close on_socket_error on_data_plane_done on_close on_update_prepare
      finish_prepare on_update_apply fire_apply finish_apply send_heartbeat
  handle-IsSound (Event.proxy_came id) c may sound = record {
    linked = sound.linked;
    distinct = sound.distinct;
  }
  handle-IsSound (Event.proxy_ended id (ok r)) c may sound = record {
    linked = sound.linked;
    distinct = sound.distinct;
  }
  handle-IsSound (Event.proxy_ended id (err e)) c may sound = record {
    linked = sound.linked;
    distinct = sound.distinct;
  }
  handle-IsSound (Event.eval_came id m) c may sound =
      (if-Keeps (is_allowed m.action) (kept _ sound) (kept _ sound)).sound
  handle-IsSound (Event.eval_ended id a (ok r)) c may sound = sound
  handle-IsSound (Event.eval_ended id a (err e)) c may sound = sound
  handle-IsSound (Event.open_came m) c may sound =
      (on_stream_open-Keeps to_base64 from_base64 json m c may sound).sound
  handle-IsSound (Event.data_came m) c may sound =
      (on_stream_data-Keeps to_base64 from_base64 m c sound).sound
  handle-IsSound (Event.session_ended s (ok r)) c may sound = record {
    linked = sound.linked;
    distinct = sound.distinct;
  }
  handle-IsSound (Event.session_ended s (err e)) c may sound = record {
    linked = sound.linked;
    distinct = sound.distinct;
  }
  handle-IsSound (Event.close_came m) c may sound =
      (on_stream_close-Keeps to_base64 m c sound).sound
  handle-IsSound (Event.socket_read s b) c may sound = sound
  handle-IsSound (Event.socket_closed s) c may sound =
      (if-Keeps (includes s c.raw_streams)
        (kept _ (record { linked = sound.linked; distinct = sound.distinct })) (kept _ sound)).sound
  handle-IsSound (Event.socket_failed s m) c may sound = record {
    linked = sound.linked;
    distinct = sound.distinct;
  }
  handle-IsSound (Event.data_plane_ended s) c may sound = record {
    linked = sound.linked;
    distinct = sound.distinct;
  }
  handle-IsSound (Event.prepare_came u m) c may sound = sound
  handle-IsSound (Event.prepare_ended id u a m d) c may sound =
      keep_prepared-IsSound (reply_of id u) u a m (obtained a m d) c sound
  handle-IsSound (Event.apply_came id u r) c may sound = sound
  handle-IsSound (Event.apply_fired u) c may sound = sound
  handle-IsSound (Event.apply_ended u (ok d)) c may sound = sound
  handle-IsSound (Event.apply_ended u (err e)) c may sound = sound
  handle-IsSound (Event.heartbeat_due n u k) c may sound = sound
  handle-IsSound Event.tunnel_closed c may sound = record {
    linked = λ s l h. absurd (none-some l (sym (Map.get-nil s) ∙ h));
    distinct = tt;
  }

  pub run-IsSound :
      (es : List Event) (c : ControlClient)
      → MayRun es c
      → IsSound c
      → IsSound (run to_base64 from_base64 json es c).0
  unfolding run
  run-IsSound [] c may sound = sound
  run-IsSound (e ∷ es) c may sound =
      run-IsSound es (handle to_base64 from_base64 json e c).0 may.1
        (handle-IsSound e c may.0 sound)

  linked_data :
      (c : ControlClient) (m : StreamDataMessage) (l : Link) (owner : Owner)
      → find_owner m.stream_id c.owners ≡ none
      → Map.get m.stream_id c.public_streams ≡ some l
      → Map.get l.tunnel_id c.owners ≡ some owner
      → on_stream_data to_base64 from_base64 m c ≡ (
        c,
        frame_to to_base64 owner PublicFrames.stream_data l.owner_stream_id
            (from_base64 m.data_text),
      )
  unfolding on_stream_data on_linked_data
  linked_data c m l owner none_here linked at = rw (none_here, linked, at) refl

  owner_data :
      (c : ControlClient) (s : Text) (n : ℕ) (owner : Owner) (payload : List ℕ)
      → s ≢ []
      → Map.get n owner.owner_to_server ≡ some s
      → on_owner_frame to_base64 owner
          (some (record { type = PublicFrames.stream_data; stream_id = n; payload = payload }))
          c
        ≡ (c, send_stream_data to_base64 s payload ∷ [])
  unfolding on_owner_frame owner_frame_for
  owner_data c s n owner payload named to = rw (to, ==_ne s [] named) refl

  -- The public streams of a control client are kept apart, whatever came before, as long as a tunnel
  -- was opened only while it was not open: a stream that is linked has an owner; its data goes to the
  -- owner's stream as a frame with the link's number, and a data frame of the owner with that number
  -- goes to this stream and no other. The stream's id is not empty and not that of an owner's stream.
  pub run_routes :
      (es : List Event) (m : StreamDataMessage) (l : Link) (payload : List ℕ)
      → MayRun es start_state
      → let c = (run to_base64 from_base64 json es start_state).0 in
        m.stream_id ≢ []
        → find_owner m.stream_id c.owners ≡ none
        → Map.get m.stream_id c.public_streams ≡ some l
        → (owner : Owner) × (Map.get l.tunnel_id c.owners ≡ some owner)
          × (on_stream_data to_base64 from_base64 m c ≡ (
            c,
            frame_to to_base64 owner PublicFrames.stream_data l.owner_stream_id
                (from_base64 m.data_text),
          ))
          × (on_owner_frame to_base64 owner
                (some (record {
                  type = PublicFrames.stream_data;
                  stream_id = l.owner_stream_id;
                  payload = payload;
                }))
                c
              ≡ (c, send_stream_data to_base64 m.stream_id payload ∷ []))
  run_routes es m l payload may named none_here linked =
      let c = (run to_base64 from_base64 json es start_state).0 in
      let (owner, at, (to, _, _)) =
        (run-IsSound es start_state may start_state-IsSound).linked m.stream_id l linked in
      (
        owner,
        at,
        linked_data c m l owner none_here linked at,
        owner_data c m.stream_id l.owner_stream_id owner payload named to,
      )

  -- A tunnel that is opened again while it is open gives out its numbers from 1 again, although the
  -- stream that its former owner had under 1 stays linked: the next public stream then shares the
  -- number 1 of that tunnel with it.
  pub open_owner_twice :
      (c : ControlClient) (t s s' again : Text) (initial : List ℕ)
      → s ≢ s'
      → Map.get s c.public_streams ≡ some (record { tunnel_id = t; owner_stream_id = 1 })
      → let c' = (open_public_stream to_base64 s' t initial (open_owner again t c).0).0 in
        (Map.get s c'.public_streams ≡ some (record { tunnel_id = t; owner_stream_id = 1 }))
        × (Map.get s' c'.public_streams ≡ some (record { tunnel_id = t; owner_stream_id = 1 }))
  unfolding open_public_stream open_owner
  open_owner_twice c t s s' again initial other linked =
      let o : Owner = record {
        stream_id = again;
        next_stream_id = 1;
        owner_to_server = [];
        server_to_owner = [];
      } in
      rw (Map.get-set_same t o c.owners) (
        get-set_off s' s _ c.public_streams (==_ne s' s (λ e. other (sym e))) ∙ linked,
        Map.get-set_same s' _ c.public_streams,
      )
