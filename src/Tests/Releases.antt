-- ===== src/Tests/Releases.antt =====
-- The updates of src/update.ts and src/clients/control-client.ts on two concrete releases.
use consensus_node.Base.{
  ℕ, ◌≡◌, ◌≢◌, refl, sym, subst, List, [], ◌∷◌, Option, none, some, ok, codes, Text, text_beq,
  text_eq, hex,
}
use consensus_node.Base.Splitting.{starts_with}
use mathlib.Core.List.{Memᴰ}
use mathlib.Core.List.Memᴰ
use consensus_node.Releases.Update.{
  ReleaseManifest, Downloaded, truthy, update_reasons, compare_manifests, strip_sha_prefix,
  digest_matches, output_path, download_and_verify,
}
use consensus_node.Releases.Update.Download.{download_and_verify_checked}
use consensus_node.Clients.Control.State.{PreparedUpdate, ControlClient, start_state}
use consensus_node.Clients.Control.Updates.{
  obtained, on_update_prepare, keep_prepared, finish_prepare, on_update_apply, fire_apply,
}
use consensus_node.Clients.Control.Updates.Quiet.{installs}
use consensus_node.Clients.Control.Updates.Installed.{apply_overtaken}
use consensus_node.Clients.Control.Updates.Prepared.{
  IsAnswering, WasPrepared, run_installs_prepared,
}
use consensus_node.Clients.Control.Dispatch.{Event, handle, run}
use consensus_node.Tests.Instances.{base64}
use consensus_node.Tests.StackJson.{json_codec}

abbrev digest : List ℕ → List ℕ
digest bytes = 0xab ∷ bytes

abbrev release : Text → ReleaseManifest
release version = record {
  version = version;
  platform = codes "linux-x64";
  commit = codes "c0";
  download_url = some (codes "u");
  tarball_sha256 = some (codes "sha256:ab01");
  routes_hash = codes "r";
}

abbrev old : ReleaseManifest
old = release (codes "1")

abbrev new : ReleaseManifest
new = release (codes "2")

abbrev tarball : List ℕ
tarball = 1 ∷ []

abbrev fetch : Text → Option (List ℕ)
fetch url = some tarball

abbrev downloaded : Downloaded
downloaded = record { path = output_path (codes "d") new; sha256 = hex (digest tarball) }

new-downloaded : download_and_verify digest (codes "d") fetch new ≡ ok (downloaded, tarball)
unfolding download_and_verify digest_matches strip_sha_prefix text_beq hex starts_with
new-downloaded = refl

download_and_verify_checked_example :
    (url : Text) × (truthy (some (codes "u")) ≡ some url)
    × (fetch url ≡ some tarball)
    × (hex (digest tarball) ≡ hex (digest tarball))
    × ((expected : Text)
        → truthy (some (codes "sha256:ab01")) ≡ some expected
        → strip_sha_prefix expected ≡ hex (digest tarball))
download_and_verify_checked_example =
    download_and_verify_checked digest (codes "d") fetch new downloaded tarball new-downloaded

abbrev update : PreparedUpdate
update = record {
  update_id = codes "a";
  manifest = new;
  artifact_path = downloaded.path;
  sha256 = downloaded.sha256;
}

abbrev updating : List Event
updating =
    Event.prepare_came (codes "a") new
    ∷ Event.prepare_ended none (codes "a") old new (ok downloaded)
    ∷ Event.apply_came none (codes "a") none
    ∷ Event.apply_fired (codes "a")
    ∷ []

new-obtained : obtained old new (ok downloaded) ≡ ok downloaded
unfolding obtained compare_manifests update_reasons text_beq
new-obtained = refl

old-obtained : obtained new old (ok downloaded) ≡ ok downloaded
unfolding obtained compare_manifests update_reasons text_beq
old-obtained = refl

update_installed :
    installs (run base64.encode base64.decode json_codec updating start_state).1 ≡ update ∷ []
unfolding run handle start_state on_update_prepare finish_prepare keep_prepared on_update_apply
    fire_apply obtained installs compare_manifests update_reasons text_beq
update_installed = refl

nothing : {before : List Event} (request : Event) → Memᴰ request [] → Memᴰ request before
nothing request m = absurd (Memᴰ.not-nil m)

updating_answers : IsAnswering [] updating
updating_answers =
    (nothing, (λ request m. Memᴰ.head (Memᴰ.eq_of_singleton m), (nothing, (nothing, tt))))

run_installs_prepared_example : WasPrepared updating update
run_installs_prepared_example =
    run_installs_prepared base64.encode base64.decode json_codec updating update updating_answers
      (subst (Memᴰ update) (sym update_installed) (Memᴰ.head refl))

abbrev prepared : ControlClient
prepared = record start_state { prepared_update = some update }

apply_overtaken_example :
    installs
      (run base64.encode base64.decode json_codec
        (Event.apply_came none (codes "a") none
          ∷ Event.prepare_ended none (codes "b") new old (ok downloaded)
          ∷ Event.apply_fired (codes "a")
          ∷ [])
        prepared).1
    ≡ record update { update_id = codes "b"; manifest = old } ∷ []
apply_overtaken_example =
    apply_overtaken base64.encode base64.decode json_codec prepared update none none none
      (codes "b") new old (ok downloaded) downloaded refl old-obtained

nothing_prepared :
    (u : PreparedUpdate) → start_state.prepared_update ≡ some u → u.update_id ≢ codes "a"
unfolding start_state
nothing_prepared u at e = cc
