-- ===== src/Releases/Update/Download.antt =====
-- What src/update.ts knows of a release that it has downloaded, and when it asks for one.
use consensus_node.Base.{
  ℕ, Text, text_eq, hex, true, false, List, Option, none, some, ok, ◌≡◌, ◌↔◌, refl, ap, arith,
  >>=-eq-ok, or_throw, or_throw-eq-ok, guard, guard-eq-ok, text_eq_iff, ◌∙◌,
}
use consensus_node.Releases.Update.{
  ReleaseManifest, Downloaded, truthy, update_reasons, compare_manifests, strip_sha_prefix,
  digest_matches, download_url_missing, fetch_failed, digest_mismatch, download_and_verify,
  tarball_differs,
}

-- The required digest is the current one, or there is none to compare with.
abbrev pub SameTarball : Option Text → Option Text → Type 0
SameTarball current none = Unit
SameTarball current (some required) = current ≡ some required

same_tarball :
    (current required : Option Text)
    → (tarball_differs current required ≡ false) ↔ SameTarball current required
same_tarball current none = (λ h. tt, λ h. refl)
same_tarball none (some s) = (λ h. cc, λ h. cc)
same_tarball (some t) (some s) =
    (λ h. ap some ((text_eq_iff t s).0 (ground arith)), λ h. ground (arith, text_eq_iff t s))

-- An update is not required exactly when the version, the platform, the commit and the hash of the
-- routes are those required, and so is the digest of the tarball, if one is required.
pub compare_manifests-eq-false :
    (current required : ReleaseManifest)
    → ((compare_manifests current required).update_required ≡ false) ↔ (
        (current.version ≡ required.version)
        × (current.platform ≡ required.platform)
        × (current.commit ≡ required.commit)
        × (current.routes_hash ≡ required.routes_hash)
        × SameTarball current.tarball_sha256 (truthy required.tarball_sha256))
unfolding compare_manifests update_reasons
compare_manifests-eq-false a b = (
  λ h. (
    (text_eq_iff a.version b.version).0 (ground arith),
    (text_eq_iff a.platform b.platform).0 (ground arith),
    (text_eq_iff a.commit b.commit).0 (ground arith),
    (text_eq_iff a.routes_hash b.routes_hash).0 (ground arith),
    (same_tarball a.tarball_sha256 (truthy b.tarball_sha256)).0 (ground arith),
  ),
  λ h.
      rw
        (
          (text_eq_iff a.version b.version).1 h.0,
          (text_eq_iff a.platform b.platform).1 h.1,
          (text_eq_iff a.commit b.commit).1 h.2,
          (text_eq_iff a.routes_hash b.routes_hash).1 h.3,
          (same_tarball a.tarball_sha256 (truthy b.tarball_sha256)).1 h.4,
        )
        refl,
)

digest_matches-eq :
    (required : Option Text) (digest expected : Text)
    → digest_matches required digest ≡ true
    → required ≡ some expected
    → strip_sha_prefix expected ≡ digest
unfolding digest_matches
digest_matches-eq none digest expected h e = cc
digest_matches-eq (some s) digest expected h e =
    let same : digest ≡ strip_sha_prefix s = (text_eq_iff digest (strip_sha_prefix s)).0 h in cc

module _ (sha256 : List ℕ → List ℕ) (base : Text) (fetch : Text → Option (List ℕ)) where
  -- A downloaded release is what was fetched from the manifest's url, with its digest; and where the
  -- manifest has a digest, that is the digest of these bytes.
  pub download_and_verify_checked :
      (manifest : ReleaseManifest) (d : Downloaded) (bytes : List ℕ)
      → download_and_verify sha256 base fetch manifest ≡ ok (d, bytes)
      → (url : Text) × (truthy manifest.download_url ≡ some url)
        × (fetch url ≡ some bytes)
        × (d.sha256 ≡ hex (sha256 bytes))
        × ((expected : Text)
            → truthy manifest.tarball_sha256 ≡ some expected
            → strip_sha_prefix expected ≡ hex (sha256 bytes))
  unfolding download_and_verify
  download_and_verify_checked manifest d bytes h =
      let (url, u, h1) =
        >>=-eq-ok (or_throw (truthy manifest.download_url) download_url_missing) _ h in
      let (got, f, h2) = >>=-eq-ok (or_throw (fetch url) fetch_failed) _ h1 in
      let (_, g, h3) =
        >>=-eq-ok
          (guard (digest_matches (truthy manifest.tarball_sha256) (hex (sha256 got)))
            digest_mismatch)
          _ h2 in
      let same : got ≡ bytes = cc h3 in
      let digest : d.sha256 ≡ hex (sha256 got) = cc h3 in
      (
        url,
        or_throw-eq-ok _ _ u,
        or_throw-eq-ok _ _ f ∙ ap some same,
        digest ∙ ap (λ b. hex (sha256 b)) same,
        λ expected e.
            digest_matches-eq (truthy manifest.tarball_sha256) (hex (sha256 got)) expected
              (guard-eq-ok _ _ g) e
            ∙ ap (λ b. hex (sha256 b)) same,
      )
