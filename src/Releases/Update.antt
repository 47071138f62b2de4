-- ===== src/Releases/Update.antt =====
-- src/update.ts: whether a release has to be replaced, and the download of the new one. What a fetch
-- gives is an argument: the body of a response that is ok, or none. The file is written at the end.
pub mod Download
use consensus_node.Base.{
  ℕ, Text, codes, text_eq, hex, Bool, true, false, not, ◌&&◌, List, [], ◌∷◌, ◌++◌, Option, none,
  some, ◌==◌, length, ltb, drop, if◌then◌else◌, Result, ok, err, ◌>>=◌, ◌>>◌, guard, or_throw,
  or_else,
}
use consensus_node.Base.Splitting.{starts_with}

-- The members of `ReleaseManifest` in src/types.ts that the update reads.
pub record ReleaseManifest : Type 0 where
  pub version : Text
  pub platform : Text
  pub commit : Text
  pub download_url : Option Text
  pub tarball_sha256 : Option Text
  pub routes_hash : Text

pub record UpdateStatus : Type 0 where
  pub update_required : Bool
  pub reasons : List Text

pub data UpdateError : Type 0 where
  download_url_missing fetch_failed digest_mismatch : UpdateError

pub record Downloaded : Type 0 where
  pub path : Text
  pub sha256 : Text

-- `if (differs) reasons.push(reason)`
abbrev pub reason_if : Bool → Text → List Text
reason_if true reason = reason ∷ []
reason_if false reason = []

abbrev pub same_option : Option Text → Option Text → Bool
same_option none none = true
same_option (some s) (some t) = s == t
same_option _ _ = false

-- A text that is there and not empty.
abbrev pub truthy : Option Text → Option Text
truthy none = none
truthy (some s) = if s == [] then none else some s

-- `required.tarball_sha256 && current.tarball_sha256 !== required.tarball_sha256`
abbrev pub tarball_differs : Option Text → Option Text → Bool
tarball_differs current none = false
tarball_differs current (some required) = not (same_option current (some required))

unfoldable pub update_reasons : ReleaseManifest → ReleaseManifest → List Text
update_reasons current required =
    reason_if (not (current.version == required.version)) (codes "version")
    ++ (reason_if (not (current.platform == required.platform)) (codes "platform")
        ++ (reason_if (not (current.commit == required.commit)) (codes "commit")
            ++ (reason_if (not (current.routes_hash == required.routes_hash)) (codes "routes_hash")
                ++ reason_if
                    (tarball_differs current.tarball_sha256 (truthy required.tarball_sha256))
                    (codes "tarball_sha256"))))

unfoldable pub compare_manifests : ReleaseManifest → ReleaseManifest → UpdateStatus
compare_manifests current required =
    let reasons = update_reasons current required in
    record { update_required = ltb 0 (length reasons); reasons = reasons }

abbrev pub sha_prefix : Text
sha_prefix = codes "sha256:"

unfoldable pub strip_sha_prefix : Text → Text
strip_sha_prefix value = if starts_with sha_prefix value then drop 7 value else value

-- `manifest.tarball_sha256 && sha256 !== stripShaPrefix(manifest.tarball_sha256)` does not hold.
unfoldable pub digest_matches : Option Text → Text → Bool
digest_matches none digest = true
digest_matches (some expected) digest = digest == strip_sha_prefix expected

-- `path.join(state.base, "downloads", …)` of parts that are normal: the join removes no dots here.
unfoldable pub output_path : Text → ReleaseManifest → Text
output_path base manifest =
    base
    ++ (codes "/downloads/consensus-node-"
        ++ (manifest.version ++ (b'-' ∷ (manifest.platform ++ codes ".tgz"))))

-- The directory of the state, what a fetch of a url gives, and the manifest; the bytes are written
-- at the path.
unfoldable pub download_and_verify :
    (List ℕ → List ℕ)
    → Text
    → (Text → Option (List ℕ))
    → ReleaseManifest
    → Result UpdateError (Downloaded × List ℕ)
download_and_verify sha256 base fetch manifest = do
  url ← or_throw (truthy manifest.download_url) download_url_missing
  bytes ← or_throw (fetch url) fetch_failed
  let digest = hex (sha256 bytes)
  guard (digest_matches (truthy manifest.tarball_sha256) digest) digest_mismatch
  ok (record { path = output_path base manifest; sha256 = digest }, bytes)
