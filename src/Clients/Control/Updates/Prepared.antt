-- ===== src/Clients/Control/Updates/Prepared.antt =====
-- What src/clients/control-client.ts prepared of an update before its installer is started.
use consensus_node.Base.{
  ℕ, Text, codes, text_eq, nat_eq, text_eq_iff, Bool, true, false, not, List, [], ◌∷◌, ◌++◌, Option,
  ◌==◌, or_else, length, if◌then◌else◌, ltb, Result, ok, ◌≡◌, refl, sym, ap, subst, ◌∙◌, ◌⊎◌, inl,
  inr, Bool-cases, arith,
}
use mathlib.Core.List.{Memᴰ}
use mathlib.Core.List.Memᴰ
use consensus_node.Base.Json.{JsonCodec}
use consensus_node.Releases.Update.{
  ReleaseManifest, Downloaded, update_reasons, reason_if, tarball_differs, truthy,
  compare_manifests,
}
use consensus_node.Clients.Control.State.{PreparedUpdate, start_state}
use consensus_node.Clients.Control.Updates.{obtained}
use consensus_node.Clients.Control.Updates.Quiet.{installs}
use consensus_node.Clients.Control.Updates.Installed.{WasObtained, run_installed}
use consensus_node.Clients.Control.Dispatch.{Event, run}
use consensus_node.Clients.Control.Linked.{none-some}

-- The request that an event is the outcome of.
abbrev pub requests_of : Event → List Event
requests_of (Event.prepare_ended id update_id current manifest download) =
    Event.prepare_came update_id manifest ∷ []
requests_of _ = []

-- An outcome of a preparation only comes after its request.
abbrev pub IsAnswering : List Event → List Event → Type 0
IsAnswering before [] = Unit {0}
IsAnswering before (e ∷ es) =
    ((request : Event) → Memᴰ request (requests_of e) → Memᴰ request before)
    × IsAnswering (e ∷ before) es

-- The two releases have the same version, platform, commit and routes.
pub record IsSameRelease (current manifest : ReleaseManifest) : Type 0 where
  pub same_version : current.version ≡ manifest.version
  pub same_platform : current.platform ≡ manifest.platform
  pub same_commit : current.commit ≡ manifest.commit
  pub same_routes : current.routes_hash ≡ manifest.routes_hash

pub record WasPrepared (es : List Event) (u : PreparedUpdate) : Type 0 where
  pub before : List Event
  pub after : List Event
  pub id : Option Text
  pub current : ReleaseManifest
  pub download : Result Text Downloaded
  pub came : es ≡ before ++ (Event.prepare_ended id u.update_id current u.manifest download ∷ after)
  pub asked : Memᴰ (Event.prepare_came u.update_id u.manifest) before
  pub got :
      (((compare_manifests current u.manifest).update_required ≡ true)
        × (download ≡ ok (record { path = u.artifact_path; sha256 = u.sha256 })))
      ⊎ (IsSameRelease current u.manifest
          × (u.artifact_path ≡ [])
          × (u.sha256 ≡ or_else current.tarball_sha256 []))

reasons_of : (v p c r t : Bool) → List Text
reasons_of v p c r t =
    reason_if (not v) (codes "version")
    ++ (reason_if (not p) (codes "platform")
        ++ (reason_if (not c) (codes "commit")
            ++ (reason_if (not r) (codes "routes_hash") ++ reason_if t (codes "tarball_sha256"))))

no_flag :
    (v p c r t : Bool)
    → ltb 0 (length (reasons_of v p c r t)) ≡ false
    → (v ≡ true) × (p ≡ true) × (c ≡ true) × (r ≡ true)
unfolding reasons_of
no_flag true true true true t h = (refl, refl, refl, refl)
no_flag false p c r t h = ground arith
no_flag true false c r t h = ground arith
no_flag true true false r t h = ground arith
no_flag true true true false t h = ground arith

no_reason :
    (a m : ReleaseManifest) → (compare_manifests a m).update_required ≡ false → IsSameRelease a m
unfolding compare_manifests update_reasons reasons_of
no_reason a m h =
    let (version, platform, commit, routes) =
      no_flag (a.version == m.version) (a.platform == m.platform) (a.commit == m.commit)
        (a.routes_hash == m.routes_hash)
        (tarball_differs a.tarball_sha256 (truthy m.tarball_sha256)) h in
    record {
      same_version = (text_eq_iff _ _).0 version;
      same_platform = (text_eq_iff _ _).0 platform;
      same_commit = (text_eq_iff _ _).0 commit;
      same_routes = (text_eq_iff _ _).0 routes;
    }

got_cases :
    (a m : ReleaseManifest) (download : Result Text Downloaded) (d : Downloaded)
    → obtained a m download ≡ ok d
    → (((compare_manifests a m).update_required ≡ true) × (download ≡ ok d))
      ⊎ (IsSameRelease a m × (d.path ≡ []) × (d.sha256 ≡ or_else a.tarball_sha256 []))
unfolding obtained
got_cases a m download d h =
    let pick : Bool → Result Text Downloaded = λ b.
      if b then download else ok (record { path = []; sha256 = or_else a.tarball_sha256 [] }) in
    elim (Bool-cases (compare_manifests a m).update_required) [
      | inl required ↦ inl (required, ap pick (sym required) ∙ h)
      | inr there ↦
          let same : ◌≡◌ {A = Result Text Downloaded}
              (ok (record { path = []; sha256 = or_else a.tarball_sha256 [] })) (ok d) =
            ap pick (sym there) ∙ h in
          inr (no_reason a m there, cc, cc)
    ]

abbrev Found : Event → List Event → List Event → Event → Type 0
Found request start es e =
    (before : List Event) × (after : List Event) × (es ≡ before ++ (e ∷ after))
    × (Memᴰ request before ⊎ Memᴰ request start)

found :
    (request e : Event) (start es : List Event)
    → Memᴰ request (requests_of e)
    → Memᴰ e es
    → IsAnswering start es
    → Found request start es e
found request e start [] r m _ = absurd (Memᴰ.not-nil m)
found request e start (x ∷ es) r (Memᴰ.head same) (now, later) = (
  [],
  es,
  ap (λ y. y ∷ es) (sym same),
  inr (now request (subst (λ y. Memᴰ request (requests_of y)) same r)),
)
found request e start (x ∷ es) r (Memᴰ.tail m) (now, later) =
    let (before, after, at, asked) = found request e (x ∷ start) es r m later in
    (
      x ∷ before,
      after,
      ap (λ l. x ∷ l) at,
      elim asked [
        | inl b ↦ inl (Memᴰ.tail b)
        | inr s ↦ elim (Memᴰ.cases_cons s) [
          | inl first ↦ inl (Memᴰ.head first)
          | inr early ↦ inr early
        ]
      ],
    )

prepared :
    (es : List Event) (u : PreparedUpdate) → IsAnswering [] es → WasObtained es u → WasPrepared es u
prepared es u answering w =
    let request = Event.prepare_came u.update_id u.manifest in
    let (before, after, at, asked) = found request _ [] es (Memᴰ.head refl) w.came answering in
    record {
      before = before;
      after = after;
      id = w.id;
      current = w.current;
      download = w.download;
      came = at;
      asked = elim asked [ inl b ↦ b | inr early ↦ absurd (Memᴰ.not-nil early) ];
      got = got_cases w.current u.manifest w.download _ w.got;
    }

-- What the installer of an update is started on, whatever happened before, is a release that the
-- orchestrator asked for under that update's id, and for which a preparation ended after that. Either
-- its release was required, and the file and the digest are those that its download gave; or the node
-- had the version, platform, commit and routes of that release already, and there is no file and the
-- digest is the node's own. An outcome of a preparation only comes after its request.
pub run_installs_prepared :
    (to_base64 : List ℕ → Text) (from_base64 : Text → List ℕ) (json : JsonCodec) (es : List Event)
    (u : PreparedUpdate)
    → IsAnswering [] es
    → Memᴰ u (installs (run to_base64 from_base64 json es start_state).1)
    → WasPrepared es u
unfolding start_state
run_installs_prepared to_base64 from_base64 json es u answering m =
    elim (run_installed to_base64 from_base64 json es start_state u m) [
      | inl at ↦ absurd (none-some u at)
      | inr w ↦ prepared es u answering w
    ]
