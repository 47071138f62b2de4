-- ===== src/Clients/Control/Linked.antt =====
-- The links between the server's streams and the streams of a tunnel's owner, in
-- src/clients/control-client.ts.
pub mod Moves
pub mod Routed
use consensus_node.Base.{
  ℕ, ◌+◌, ◌<◌, Text, text_eq, nat_eq, EqTest, nat_beq_iff, text_eq_iff, Bool, true, false,
  Bool-cases, inl, inr, List, [], ◌∷◌, Option, none, some, ◌==◌, ==_sound, ==_refl, ==_ne,
  if◌then◌else◌, ◌≡◌, ◌≢◌, refl, sym, ap, ◌∙◌, subst, arith,
}
use consensus_node.Base.Map
use consensus_node.Base.Map.{get-set_at, get-set_off, get-delete_at, get-delete_off}
use consensus_node.Clients.Control.State.{Owner, Link, ControlClient, remove}
use consensus_node.Clients.Control.Streams.{
  cleanup_public_tunnel_stream, cleanup_linked, unlinked_owner, open_owner, linked_owner,
  link_stream, drop_streams, close_owner,
}

-- A link leads to an owner that knows the stream by the link's number, which it has given out.
abbrev pub Knows : Text → Link → Owner → Type 0
Knows s l owner =
    (Map.get l.owner_stream_id owner.owner_to_server ≡ some s)
    × (Map.get s owner.server_to_owner ≡ some l.owner_stream_id)
    × (l.owner_stream_id < owner.next_stream_id)

abbrev pub Routes : List (Text × Owner) → Text → Link → Type 0
Routes owners s l = (owner : Owner) × (Map.get l.tunnel_id owners ≡ some owner) × (Knows s l owner)

abbrev pub AreLinked : List (Text × Owner) → List (Text × Link) → Type 0
AreLinked owners links = (s : Text) (l : Link) → Map.get s links ≡ some l → Routes owners s l

abbrev pub IsLinked : ControlClient → Type 0
IsLinked c = AreLinked c.owners c.public_streams

pub some_inj {ℓ} : {A : Type ℓ} (a b : A) → ◌≡◌ {A = Option A} (some a) (some b) → a ≡ b
some_inj a b h = ap (λ o. elim o [ none ↦ a | some x ↦ x ]) h

pub true≢false : true ≡ false → ⊥
true≢false h = cc

pub none-some {ℓ} : {A : Type ℓ} (a : A) → ◌≡◌ {A = Option A} none (some a) → ⊥
none-some a e = cc

-- What is found after a delete was there before, under another key.
pub get-delete-some {ℓ} :
    {V : Type ℓ} (k j : Text) (m : List (Text × V)) (v : V)
    → Map.get j (Map.delete k m) ≡ some v
    → ((k == j) ≡ false) × (Map.get j m ≡ some v)
get-delete-some k j m v h = elim (Bool-cases (k == j)) [
  | inl on ↦ absurd (none-some v (sym (get-delete_at k j m on) ∙ h))
  | inr off ↦ (off, sym (get-delete_off k j m off) ∙ h)
]

-- `drop_streams` deletes the links of the given streams.
pub get-drop_streams :
    (entries : List (Text × ℕ)) (c : ControlClient) (s : Text) (l : Link)
    → Map.get s (drop_streams entries c).public_streams ≡ some l
    → (Map.get s entries ≡ none) × (Map.get s c.public_streams ≡ some l)
unfolding drop_streams
get-drop_streams [] c s l h = (Map.get-nil s, h)
get-drop_streams ((k, n) ∷ rest) c s l h =
    let (missing, found) = get-drop_streams rest _ s l h in
    let (other, old) = get-delete-some k s c.public_streams l found in
    (
      Map.get-cons k s n rest ∙ (ap (λ b. if b then some n else Map.get s rest) other ∙ missing),
      old,
    )

pub drop_streams-owners :
    (entries : List (Text × ℕ)) (c : ControlClient) → (drop_streams entries c).owners ≡ c.owners
unfolding drop_streams
drop_streams-owners [] c = refl
drop_streams-owners ((k, n) ∷ rest) c = drop_streams-owners rest _

-- Another owner leaves the links of the others alone.
Routes-set_off :
    (owners : List (Text × Owner)) (t : Text) (o : Owner) (s : Text) (l : Link)
    → (t == l.tunnel_id) ≡ false
    → Routes owners s l
    → Routes (Map.set t o owners) s l
Routes-set_off owners t o s l e (owner, found, rest) =
    (owner, get-set_off t l.tunnel_id o owners e ∙ found, rest)

module _ (owners : List (Text × Owner)) (links : List (Text × Link))
    (linked : AreLinked owners links) where
  -- A tunnel that is new has no links.
  pub open_owner-AreLinked :
      (t : Text) (o : Owner) → Map.get t owners ≡ none → AreLinked (Map.set t o owners) links
  open_owner-AreLinked t o fresh s l h =
      let (owner, found, rest) = linked s l h in
      Routes-set_off owners t o s l
        (==_ne t l.tunnel_id
          (λ e. absurd (none-some owner (sym fresh ∙ (ap (λ k. Map.get k owners) e ∙ found)))))
        (owner, found, rest)

  link_new :
      (t : Text) (o : Owner) (s : Text)
      → Routes
          (Map.set t (linked_owner s o) owners)
          s
          (record { tunnel_id = t; owner_stream_id = o.next_stream_id })
  link_new t o s = (
    linked_owner s o,
    Map.get-set_same t (linked_owner s o) owners,
    (
      Map.get-set_same o.next_stream_id s o.owner_to_server,
      Map.get-set_same s o.next_stream_id o.server_to_owner,
      omega arith,
    ),
  )

  -- The owner of a link's tunnel, where the tunnel is the given one.
  Knows-here :
      (t : Text) (o : Owner) (s : Text) (l : Link)
      → Map.get t owners ≡ some o
      → (t == l.tunnel_id) ≡ true
      → Routes owners s l
      → Knows s l o
  Knows-here t o s l at on (owner, found, known) =
      subst (Knows s l)
        (some_inj owner o (sym found ∙ (ap (λ k. Map.get k owners) (sym (==_sound t _ on)) ∙ at)))
        known

  link_known :
      (o : Owner) (s s' : Text) (l : Link)
      → (s == s') ≡ false
      → Knows s' l o
      → Knows s' l (linked_owner s o)
  link_known o s s' l other (to, back, lt) = (
    get-set_off o.next_stream_id l.owner_stream_id s o.owner_to_server
          (==_ne o.next_stream_id l.owner_stream_id (λ e. absurd (omega arith)))
        ∙ to,
    get-set_off s s' o.next_stream_id o.server_to_owner other ∙ back,
    omega arith,
  )

  link_old :
      (t : Text) (o : Owner) (s : Text) (s' : Text) (l : Link)
      → Map.get t owners ≡ some o
      → (s == s') ≡ false
      → Routes owners s' l
      → Routes (Map.set t (linked_owner s o) owners) s' l
  link_old t o s s' l at other routes = elim (Bool-cases (t == l.tunnel_id)) [
    | inr off ↦ Routes-set_off owners t (linked_owner s o) s' l off routes
    | inl on ↦ (
      linked_owner s o,
      get-set_at t l.tunnel_id (linked_owner s o) owners on,
      link_known o s s' l other (Knows-here t o s' l at on routes),
    )
  ]

  pub link_stream-AreLinked :
      (t : Text) (o : Owner) (s : Text)
      → Map.get t owners ≡ some o
      → AreLinked
          (Map.set t (linked_owner s o) owners)
          (Map.set s (record { tunnel_id = t; owner_stream_id = o.next_stream_id }) links)
  link_stream-AreLinked t o s at s' l h =
      let new : Link = record { tunnel_id = t; owner_stream_id = o.next_stream_id } in
      elim (Bool-cases (s == s')) [
        | inr off ↦
            link_old t o s s' l at off (linked s' l (sym (get-set_off s s' new links off) ∙ h))
        | inl on ↦
            let same : new ≡ l = some_inj new l (sym (get-set_at s s' new links on) ∙ h) in
            subst (λ k. Routes (Map.set t (linked_owner s o) owners) k l) (==_sound s s' on)
              (subst (Routes (Map.set t (linked_owner s o) owners) s) same (link_new t o s))
      ]

  unlink_known :
      (o : Owner) (s s' : Text) (l0 l : Link)
      → (s == s') ≡ false
      → Knows s l0 o
      → Knows s' l o
      → Knows s' l (record o {
        owner_to_server = Map.delete l0.owner_stream_id o.owner_to_server;
        server_to_owner = Map.delete s o.server_to_owner;
      })
  unlink_known o s s' l0 l other (to0, _, _) (to, back, lt) = (
    get-delete_off l0.owner_stream_id l.owner_stream_id o.owner_to_server (
          ==_ne l0.owner_stream_id l.owner_stream_id (λ e. absurd (
            true≢false (
              sym (==_refl s)
              ∙ (ap (λ k. s == k)
                    (some_inj s s' (sym to0 ∙ (ap (λ n. Map.get n o.owner_to_server) e ∙ to)))
                  ∙ other)))))
        ∙ to,
    get-delete_off s s' o.server_to_owner other ∙ back,
    lt,
  )

  pub unlink_owner :
      (s : Text) (l0 : Link) (found : Option Owner)
      → Map.get s links ≡ some l0
      → Map.get l0.tunnel_id owners ≡ found
      → AreLinked (unlinked_owner s l0 found owners) (Map.delete s links)
  unlink_owner s l0 none here at s' l h = linked s' l (get-delete-some s s' links l h).1
  unlink_owner s l0 (some o) here at s' l h =
      let (other, old) = get-delete-some s s' links l h in
      let routes = linked s' l old in
      let known = Knows-here l0.tunnel_id o s l0 at (==_refl l0.tunnel_id) (linked s l0 here) in
      elim (Bool-cases (l0.tunnel_id == l.tunnel_id)) [
        | inr off ↦ Routes-set_off owners l0.tunnel_id _ s' l off routes
        | inl on ↦ (
          _,
          get-set_at l0.tunnel_id l.tunnel_id _ owners on,
          unlink_known o s s' l0 l other known (Knows-here l0.tunnel_id o s' l at on routes),
        )
      ]

  pub close_owner-AreLinked :
      (c : ControlClient) (stream_id t : Text) (o : Owner)
      → c.owners ≡ owners
      → c.public_streams ≡ links
      → Map.get t owners ≡ some o
      → AreLinked (Map.delete t owners) (drop_streams o.server_to_owner c).public_streams
  close_owner-AreLinked c stream_id t o same same' at s l h =
      let (missing, found) = get-drop_streams o.server_to_owner c s l h in
      let routes = linked s l (ap (Map.get s) (sym same') ∙ found) in
      elim (Bool-cases (t == l.tunnel_id)) [
        | inr off ↦
            let (owner, at', known) = routes in
            (owner, get-delete_off t l.tunnel_id owners off ∙ at', known)
        | inl on ↦
            let (_, back, _) = Knows-here t o s l at on routes in
            absurd (none-some l.owner_stream_id (sym missing ∙ back))
      ]
