-- ===== src/Clients/Control/Updates.antt =====
-- The two phases of an update in src/clients/control-client.ts: prepared, and later applied. The
-- download and the installer run outside; a handler starts them and another function takes the outcome.
pub mod Quiet
pub mod Installed
pub mod Prepared
use consensus_node.Base.{
  ℕ, Text, codes, text_eq, List, [], ◌∷◌, Option, none, some, ◌==◌, if◌then◌else◌, Result, ok, err,
  or_else,
}
use consensus_node.Base.Int.{ℤ, pos, negsuc}
use consensus_node.Tunnel.Messages.Kinds.{update_ready, update_failed, ack}
use consensus_node.Releases.Update.{ReleaseManifest, UpdateStatus, compare_manifests, Downloaded}
use consensus_node.Clients.Control.State.{
  PreparedUpdate, ControlClient, Action, Handled, sent, prepare_started, apply_scheduled,
  install_started, closed, exited,
}

abbrev pub failed_message : Option Text → Text → Text → Text → Action
failed_message reply_to update_id code message = sent (
    update_failed
      (record { reply_to = reply_to; update_id = update_id; code = code; message = message }))

-- `status.update_required ? await downloadAndVerify(…) : { path: "", sha256: current… }`, with the
-- outcome of the download if it is asked for.
unfoldable pub obtained :
    ReleaseManifest → ReleaseManifest → Result Text Downloaded → Result Text Downloaded
obtained current required download =
    if (compare_manifests current required).update_required
    then download
    else ok (record { path = []; sha256 = or_else current.tarball_sha256 [] })

-- UPDATE_PREPARE
unfoldable pub on_update_prepare : Text → ReleaseManifest → ControlClient → Handled
on_update_prepare update_id manifest c = (c, prepare_started update_id manifest ∷ [])

-- `message.id ?? message.update_id`
abbrev pub reply_of : Option Text → Text → Text
reply_of id update_id = or_else id update_id

-- What is there to install is kept, or the update fails.
unfoldable pub keep_prepared :
    Text
    → Text
    → ReleaseManifest
    → ReleaseManifest
    → Result Text Downloaded
    → ControlClient
    → Handled
keep_prepared reply_to update_id current manifest (ok d) c = (
  record c {
    prepared_update = some (record {
      update_id = update_id;
      manifest = manifest;
      artifact_path = d.path;
      sha256 = d.sha256;
    });
  },
  sent (
        update_ready (record {
          reply_to = reply_to;
          update_id = update_id;
          artifact_path = d.path;
          sha256 = d.sha256;
          current_version = current.version;
          target_version = manifest.version;
        }))
      ∷ [],
)
keep_prepared reply_to update_id current manifest (err message) c =
    (c, failed_message (some reply_to) update_id (codes "prepare_failed") message ∷ [])

-- The outcome of `downloadAndVerify`, if it was asked for.
unfoldable pub finish_prepare :
    Option Text
    → Text
    → ReleaseManifest
    → ReleaseManifest
    → Result Text Downloaded
    → ControlClient
    → Handled
finish_prepare id update_id current manifest download c =
    keep_prepared (reply_of id update_id) update_id current manifest
      (obtained current manifest download) c

-- `Math.max(0, message.restart_after_ms ?? 1_000)`
abbrev pub restart_delay : Option ℤ → ℕ
restart_delay none = 1000
restart_delay (some (pos ms)) = ms
restart_delay (some (negsuc ms)) = 0

abbrev pub not_prepared : Option Text → Text → Action
not_prepared id update_id =
    failed_message (some (reply_of id update_id)) update_id (codes "update_not_prepared")
      (codes "No matching prepared update is available")

abbrev pub apply_prepared : Option Text → Text → Option ℤ → Option PreparedUpdate → List Action
apply_prepared id update_id restart_after_ms none = not_prepared id update_id ∷ []
apply_prepared id update_id restart_after_ms (some u) =
    if u.update_id == update_id
    then sent (ack (reply_of id update_id))
      ∷ apply_scheduled update_id (restart_delay restart_after_ms)
      ∷ []
    else not_prepared id update_id ∷ []

-- UPDATE_APPLY
unfoldable pub on_update_apply : Option Text → Text → Option ℤ → ControlClient → Handled
on_update_apply id update_id restart_after_ms c =
    (c, apply_prepared id update_id restart_after_ms c.prepared_update)

-- The timer of an applied update runs the installer on the update that is prepared by then.
unfoldable pub fire_apply : Text → ControlClient → Handled
fire_apply update_id c = (
  c,
  elim c.prepared_update [
    | none ↦ failed_message none update_id (codes "apply_failed") [] ∷ []
    | some u ↦ install_started u ∷ []
  ],
)

-- The outcome of the installer
unfoldable pub finish_apply : Text → Result Text (Unit {0}) → ControlClient → Handled
finish_apply update_id (ok done) c = (c, closed 1012 ∷ exited 0 ∷ [])
finish_apply update_id (err message) c =
    (c, failed_message none update_id (codes "apply_failed") message ∷ [])
