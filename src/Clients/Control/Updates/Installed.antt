-- ===== src/Clients/Control/Updates/Installed.antt =====
-- What the installer of src/clients/control-client.ts gets.
use consensus_node.Base.{
  ℕ, Text, codes, nat_eq, text_eq, List, [], ◌∷◌, ◌++◌, Option, none, some, ◌==◌, ==_refl, ==_ne,
  Result, ok, err, ◌≡◌, ◌≢◌, refl, sym, ap, ◌∙◌, ◌⊎◌, Bool-cases, inl, inr, subst,
}
use mathlib.Core.List.{Memᴰ, append_assoc}
use mathlib.Core.List.Memᴰ
use consensus_node.Base.Int.{ℤ}
use consensus_node.Base.Json.{JsonCodec}
use consensus_node.Releases.Update.{ReleaseManifest, Downloaded}
use consensus_node.Clients.Control.State.{
  PreparedUpdate, ControlClient, Action, Handled, install_started,
}
use consensus_node.Clients.Control.Streams.{on_socket_data, on_socket_error, on_data_plane_done}
use consensus_node.Clients.Control.Requests.{
  is_allowed, on_proxy_request, finish_proxy, finish_session, on_eval_request, finish_eval,
  send_heartbeat,
}
use consensus_node.Clients.Control.Updates.{
  obtained, reply_of, keep_prepared, on_update_prepare, finish_prepare, not_prepared,
  failed_message, apply_prepared, on_update_apply, fire_apply, finish_apply,
}
use consensus_node.Clients.Control.Dispatch.{Event, handle, run}
use consensus_node.Clients.Control.Updates.Quiet.{
  install_of, installs, IsQuiet, quiet, if-IsQuiet, on_stream_open-IsQuiet, on_stream_data-IsQuiet,
  on_stream_close-IsQuiet, on_socket_close-IsQuiet, on_close-IsQuiet,
}

-- An outcome of the preparation of an update, and what it obtained.
pub record WasObtained (es : List Event) (u : PreparedUpdate) : Type 0 where
  pub id : Option Text
  pub current : ReleaseManifest
  pub download : Result Text Downloaded
  pub came : Memᴰ (Event.prepare_ended id u.update_id current u.manifest download) es
  pub got :
      obtained current u.manifest download
      ≡ ok (record { path = u.artifact_path; sha256 = u.sha256 })

later :
    {es : List Event} {u : PreparedUpdate} (e : Event) → WasObtained es u → WasObtained (e ∷ es) u
later e w = record {
  id = w.id;
  current = w.current;
  download = w.download;
  came = Memᴰ.tail w.came;
  got = w.got;
}

-- What one event does to the prepared update, and what it installs.
record Steps (e : Event) (c : ControlClient) (h : Handled) : Type 0 where
  kept :
      (u : PreparedUpdate)
      → h.0.prepared_update ≡ some u
      → (c.prepared_update ≡ some u) ⊎ WasObtained (e ∷ []) u
  installed : (u : PreparedUpdate) → Memᴰ u (installs h.1) → c.prepared_update ≡ some u

quiet-Steps : (e : Event) (c : ControlClient) (h : Handled) → IsQuiet c h → Steps e c h
quiet-Steps e c h q = record {
  kept = λ u at. inl (sym q.same_update ∙ at);
  installed = λ u m. absurd (Memᴰ.not-nil (subst (Memᴰ u) q.no_install m));
}

some_update : (a b : PreparedUpdate) → ◌≡◌ {A = Option PreparedUpdate} (some a) (some b) → a ≡ b
some_update a b h = ap (λ o. elim o [ none ↦ a | some x ↦ x ]) h

abbrev fired : Text → Option PreparedUpdate → List Action
fired update_id o = elim o [
  | none ↦ failed_message none update_id (codes "apply_failed") [] ∷ []
  | some u ↦ install_started u ∷ []
]

installs-apply_prepared :
    (id : Option Text) (update_id : Text) (restart : Option ℤ) (o : Option PreparedUpdate)
    → installs (apply_prepared id update_id restart o) ≡ []
unfolding installs
installs-apply_prepared id update_id restart none = refl
installs-apply_prepared id update_id restart (some u) =
    elim (Bool-cases (u.update_id == update_id)) [
      | inl same ↦ rw same refl
      | inr other ↦ rw other refl
    ]

sooner :
    {e : Event} {u : PreparedUpdate} (es : List Event)
    → WasObtained (e ∷ []) u
    → WasObtained (e ∷ es) u
sooner es w = record {
  id = w.id;
  current = w.current;
  download = w.download;
  came = Memᴰ.append_left es w.came;
  got = w.got;
}

installs-append : (a b : List Action) → installs (a ++ b) ≡ installs a ++ installs b
unfolding installs
installs-append [] b = refl
installs-append (a ∷ rest) b =
    ap (λ l. install_of a ++ l) (installs-append rest b)
    ∙ sym (append_assoc (install_of a) (installs rest) (installs b))

fire_apply-Steps :
    (update_id : Text) (c : ControlClient) (o : Option PreparedUpdate)
    → c.prepared_update ≡ o
    → Steps (Event.apply_fired update_id) c (fire_apply update_id c)
unfolding fire_apply installs
fire_apply-Steps update_id c none at = record {
  kept = λ u h. inl h;
  installed =
      λ u m. absurd (Memᴰ.not-nil (subst (λ o. Memᴰ u (installs (fired update_id o))) at m));
}
fire_apply-Steps update_id c (some v) at = record {
  kept = λ u h. inl h;
  installed = λ u m.
      at
      ∙ ap some
          (sym (Memᴰ.eq_of_singleton (subst (λ o. Memᴰ u (installs (fired update_id o))) at m)));
}

keep_prepared-Steps :
    (id : Option Text) (u : Text) (a m : ReleaseManifest) (download d : Result Text Downloaded)
    (c : ControlClient)
    → obtained a m download ≡ d
    → Steps (Event.prepare_ended id u a m download) c (keep_prepared (reply_of id u) u a m d c)
unfolding keep_prepared installs
keep_prepared-Steps id u a m download (err e) c got = quiet-Steps _ c _ (quiet _ refl refl)
keep_prepared-Steps id u a m download (ok d) c got = record {
  kept = λ v h. inr (
      subst (WasObtained (Event.prepare_ended id u a m download ∷ [])) (some_update _ v h)
        (record { id = id; current = a; download = download; came = Memᴰ.head refl; got = got }));
  installed = λ v h. absurd (Memᴰ.not-nil h);
}

module _ (to_base64 : List ℕ → Text) (from_base64 : Text → List ℕ) (json : JsonCodec) where
  handle-Steps : (e : Event) (c : ControlClient) → Steps e c (handle to_base64 from_base64 json e c)
  unfolding handle installs on_proxy_request finish_proxy on_eval_request finish_eval finish_session
      on_socket_data on_socket_error on_data_plane_done on_update_prepare finish_prepare
      on_update_apply finish_apply send_heartbeat
  handle-Steps (Event.proxy_came id) c = quiet-Steps _ c _ (quiet _ refl refl)
  handle-Steps (Event.proxy_ended id (ok r)) c = quiet-Steps _ c _ (quiet _ refl refl)
  handle-Steps (Event.proxy_ended id (err e)) c = quiet-Steps _ c _ (quiet _ refl refl)
  handle-Steps (Event.eval_came id m) c =
      quiet-Steps _ c _ (if-IsQuiet (is_allowed m.action) (quiet _ refl refl) (quiet _ refl refl))
  handle-Steps (Event.eval_ended id a (ok r)) c = quiet-Steps _ c _ (quiet _ refl refl)
  handle-Steps (Event.eval_ended id a (err e)) c = quiet-Steps _ c _ (quiet _ refl refl)
  handle-Steps (Event.open_came m) c =
      quiet-Steps _ c _ (on_stream_open-IsQuiet to_base64 from_base64 json m c)
  handle-Steps (Event.data_came m) c =
      quiet-Steps _ c _ (on_stream_data-IsQuiet to_base64 from_base64 m c)
  handle-Steps (Event.session_ended s (ok r)) c = quiet-Steps _ c _ (quiet _ refl refl)
  handle-Steps (Event.session_ended s (err e)) c = quiet-Steps _ c _ (quiet _ refl refl)
  handle-Steps (Event.close_came m) c = quiet-Steps _ c _ (on_stream_close-IsQuiet to_base64 m c)
  handle-Steps (Event.socket_read s b) c = quiet-Steps _ c _ (quiet _ refl refl)
  handle-Steps (Event.socket_closed s) c = quiet-Steps _ c _ (on_socket_close-IsQuiet s c)
  handle-Steps (Event.socket_failed s m) c = quiet-Steps _ c _ (quiet _ refl refl)
  handle-Steps (Event.data_plane_ended s) c = quiet-Steps _ c _ (quiet _ refl refl)
  handle-Steps (Event.prepare_came u m) c = quiet-Steps _ c _ (quiet _ refl refl)
  handle-Steps (Event.prepare_ended id u a m download) c =
      keep_prepared-Steps id u a m download (obtained a m download) c refl
  handle-Steps (Event.apply_came id u r) c =
      quiet-Steps _ c _ (quiet _ refl (installs-apply_prepared id u r c.prepared_update))
  handle-Steps (Event.apply_fired u) c = fire_apply-Steps u c c.prepared_update refl
  handle-Steps (Event.apply_ended u (ok d)) c = quiet-Steps _ c _ (quiet _ refl refl)
  handle-Steps (Event.apply_ended u (err e)) c = quiet-Steps _ c _ (quiet _ refl refl)
  handle-Steps (Event.heartbeat_due n u k) c = quiet-Steps _ c _ (quiet _ refl refl)
  handle-Steps Event.tunnel_closed c = quiet-Steps _ c _ (on_close-IsQuiet c)

  pub run_installed :
      (es : List Event) (c : ControlClient) (u : PreparedUpdate)
      → Memᴰ u (installs (run to_base64 from_base64 json es c).1)
      → (c.prepared_update ≡ some u) ⊎ WasObtained es u
  unfolding run installs
  run_installed [] c u m = absurd (Memᴰ.not-nil m)
  run_installed (e ∷ es) c u m =
      let h = handle to_base64 from_base64 json e c in
      let steps = handle-Steps e c in
      let after = run to_base64 from_base64 json es h.0 in
      elim (Memᴰ.append_cases (installs h.1) (subst (Memᴰ u) (installs-append h.1 after.1) m)) [
        | inl now ↦ inl (steps.installed u now)
        | inr rest ↦ elim (run_installed es h.0 u rest) [
          | inl at ↦ elim (steps.kept u at) [ inl before ↦ inl before | inr w ↦ inr (sooner es w) ]
          | inr w ↦ inr (later e w)
        ]
      ]

  -- An update that is applied is not always the one that is installed: when another release was
  -- prepared before the timer of the first one fires, the installer gets the other one.
  pub apply_overtaken :
      (c : ControlClient) (a : PreparedUpdate) (id id' : Option Text) (restart : Option ℤ)
      (other : Text) (current manifest : ReleaseManifest) (download : Result Text Downloaded)
      (d : Downloaded)
      → c.prepared_update ≡ some a
      → obtained current manifest download ≡ ok d
      → installs
          (run to_base64 from_base64 json
            (Event.apply_came id a.update_id restart
              ∷ Event.prepare_ended id' other current manifest download
              ∷ Event.apply_fired a.update_id
              ∷ [])
            c).1
        ≡ record {
          update_id = other;
          manifest = manifest;
          artifact_path = d.path;
          sha256 = d.sha256;
        }
          ∷ []
  unfolding run handle on_update_apply finish_prepare keep_prepared fire_apply installs
  apply_overtaken c a id id' restart other current manifest download d at got =
      rw (at, ==_refl a.update_id, got) refl

-- An update that was not prepared is refused: nothing is scheduled, the client stays as it is, and
-- the answer tells the orchestrator so, under the id of its message or else of the update.
pub on_update_apply_refused :
    (id : Option Text) (update_id : Text) (restart : Option ℤ) (c : ControlClient)
    → ((u : PreparedUpdate) → c.prepared_update ≡ some u → u.update_id ≢ update_id)
    → on_update_apply id update_id restart c ≡ (c, not_prepared id update_id ∷ [])
unfolding on_update_apply
on_update_apply_refused id update_id restart c unprepared =
    ap (λ l. (c, l)) (refused c.prepared_update refl)
  where
    refused :
        (o : Option PreparedUpdate)
        → c.prepared_update ≡ o
        → apply_prepared id update_id restart o ≡ not_prepared id update_id ∷ []
    refused none at = refl
    refused (some u) at = rw (==_ne u.update_id update_id (unprepared u at)) refl
