-- ===== src/Tickets/Replay/SingleUse.antt =====
-- How long src/tickets/replay.ts remembers an id.
use consensus_node.Base.{
  ℕ, suc, ◌+◌, ◌≤◌, ◌<◌, Text, ◌≡◌, refl, ◌⊎◌, inl, inr, Bool, true, false, List, [], ◌∷◌, length,
  Bool-cases, arith, text_eq, text_eq_iff, All, subst, ap,
}
use consensus_node.Base.Int.{ℤ, pos, ltb_ℤ, ◌-ℤ◌, ◌<ℤ◌}
use consensus_node.Base.Map.{has, set, length-set_le}
use consensus_node.Tickets.Replay.Bound.{
  length-drop_expired, max_entries-sweep, max_entries-consume,
}
use consensus_node.Tickets.Replay.{JtiReplayCache, drop_expired, sweep, evict, consume}

module _ (jti : Text) (exp : ℤ) where
  -- The id is in the list with its expiry, and at most `k` entries are younger.
  abbrev Held : ℕ → List (Text × ℤ) → Type 0
  Held k [] = ⊥
  Held k ((j, e) ∷ seen) = ((j ≡ jti) × (e ≡ exp) × (length seen ≤ k)) ⊎ Held k seen

  has-Held : (k : ℕ) (seen : List (Text × ℤ)) → Held k seen → has jti seen ≡ true
  unfolding has
  has-Held k [] h = elim h [ ]
  has-Held k ((j, e) ∷ seen) (inl h) = ground (arith, text_eq_iff j jti)
  has-Held k ((j, e) ∷ seen) (inr h) = ground (arith, has-Held k seen h)

  drop_expired-Held :
      (now : ℤ) (k : ℕ) (seen : List (Text × ℤ))
      → now <ℤ exp
      → Held k seen
      → Held k (drop_expired now seen)
  unfolding drop_expired
  drop_expired-Held now k [] lt h = elim h [ ]
  drop_expired-Held now k ((j, e) ∷ seen) lt (inl h) = ground (arith, length-drop_expired now seen)
  drop_expired-Held now k ((j, e) ∷ seen) lt (inr h) =
      ground (arith, drop_expired-Held now k seen lt h)

  evict-Held : (m k : ℕ) (seen : List (Text × ℤ)) → suc k < m → Held k seen → Held k (evict m seen)
  unfolding evict
  evict-Held m k [] lt h = elim h [ ]
  evict-Held m k ((j, e) ∷ seen) lt (inl h) = ground arith
  evict-Held m k ((j, e) ∷ seen) lt (inr h) = ground (arith, evict-Held m k seen lt h)

  set-Held :
      (k : ℕ) (j : Text) (e : ℤ) (seen : List (Text × ℤ))
      → has j seen ≡ false
      → Held k seen
      → Held (suc k) (set j e seen)
  unfolding has set
  set-Held k j e [] new h = elim h [ ]
  set-Held k j e ((i, d) ∷ seen) new (inl h) =
      ground (arith, length-set_le j e seen, text_eq_iff i j)
  set-Held k j e ((i, d) ∷ seen) new (inr h) = ground (arith, set-Held k j e seen)

  set_new_Held : (seen : List (Text × ℤ)) → has jti seen ≡ false → Held 0 (set jti exp seen)
  unfolding has set
  set_new_Held [] new = inl (refl, refl, omega arith)
  set_new_Held ((i, d) ∷ seen) new = ground (arith, set_new_Held seen)

  sweep-Held :
      (now : ℤ) (k : ℕ) (c : JtiReplayCache)
      → now <ℤ exp
      → Held k c.seen
      → Held k (sweep now c).seen
  unfolding sweep
  sweep-Held now k c lt h = elim (Bool-cases (ltb_ℤ (now -ℤ c.last_sweep) (pos 30))) [
    | inl e ↦ rw e h
    | inr e ↦ rw e (drop_expired-Held now k c.seen lt h)
  ]

  Held-mono : (k : ℕ) (seen : List (Text × ℤ)) → Held k seen → Held (suc k) seen
  Held-mono k [] h = elim h [ ]
  Held-mono k ((j, e) ∷ seen) (inl h) = inl (h.0, h.1, omega arith)
  Held-mono k ((j, e) ∷ seen) (inr h) = inr (Held-mono k seen h)

  pub has-drop_expired :
      (now : ℤ) (j : Text) (seen : List (Text × ℤ))
      → has j seen ≡ false
      → has j (drop_expired now seen) ≡ false
  unfolding has drop_expired
  has-drop_expired now j [] h = refl
  has-drop_expired now j ((i, e) ∷ seen) h = ground (arith, has-drop_expired now j seen)

  pub has-evict :
      (m : ℕ) (j : Text) (seen : List (Text × ℤ))
      → has j seen ≡ false
      → has j (evict m seen) ≡ false
  unfolding has evict
  has-evict m j [] h = refl
  has-evict m j ((i, e) ∷ seen) h = ground (arith, has-evict m j seen)

  consume-Held :
      (j : Text) (e now : ℤ) (k : ℕ) (c : JtiReplayCache)
      → now <ℤ exp
      → suc k < c.max_entries
      → Held k c.seen
      → Held (suc k) (consume j e now c).1.seen
  unfolding consume
  consume-Held j e now k c lt room h = elim (Bool-cases (has j (sweep now c).seen)) [
    | inl old ↦ rw old (Held-mono k _ (sweep-Held now k c lt h))
    | inr new ↦ rw new (
        set-Held k j e (evict (sweep now c).max_entries (sweep now c).seen)
          (has-evict _ j (sweep now c).seen new)
          (evict-Held (sweep now c).max_entries k (sweep now c).seen
            (omega (arith, max_entries-sweep now c)) (sweep-Held now k c lt h)))
  ]

  consume_fresh :
      (now : ℤ) (c c' : JtiReplayCache) → consume jti exp now c ≡ (true, c') → Held 0 c'.seen
  unfolding consume
  consume_fresh now c c' h = ground (
    arith,
    set_new_Held (evict (sweep now c).max_entries (sweep now c).seen),
    has-evict (sweep now c).max_entries jti (sweep now c).seen,
  )

  consume-Held_again :
      (e now : ℤ) (k : ℕ) (c : JtiReplayCache)
      → now <ℤ exp
      → Held k c.seen
      → (consume jti e now c).0 ≡ false
  unfolding consume
  consume-Held_again e now k c lt h =
      rw (has-Held k (sweep now c).seen (sweep-Held now k c lt h)) refl

-- One call of `consume`, and a sequence of them.
pub record Use : Type 0 where
  pub jti : Text
  pub exp : ℤ
  pub now : ℤ

pub consume_all : List Use → JtiReplayCache → JtiReplayCache
consume_all [] c = c
consume_all (u ∷ us) c = consume_all us (consume u.jti u.exp u.now c).1

abbrev pub Before : ℤ → List Use → Type 0
Before exp = All (λ (u : Use). u.now <ℤ exp)

-- `n` entries at most are younger after the whole sequence.
consume_all-Held :
    (jti : Text) (exp : ℤ) (us : List Use) (k n : ℕ) (c : JtiReplayCache)
    → k + length us ≡ n
    → n < c.max_entries
    → Before exp us
    → Held jti exp k c.seen
    → Held jti exp n (consume_all us c).seen
unfolding consume_all
consume_all-Held jti exp [] k n c e room b h = subst (λ m. Held jti exp m c.seen) (omega arith) h
consume_all-Held jti exp (u ∷ us) k n c e room b h =
    consume_all-Held jti exp us (suc k) n (consume u.jti u.exp u.now c).1 (omega arith)
      (omega (arith, max_entries-consume c u.jti u.exp u.now)) b.1
      (consume-Held jti exp u.jti u.exp u.now k c b.0 (omega arith) h)

-- An id that was accepted is refused when it is used again before its expiry, whatever else was
-- consumed in between, as long as those other uses came before that expiry too and were fewer than
-- the bound of the cache.
pub consume_once :
    (jti : Text) (exp now : ℤ) (c c' : JtiReplayCache) (others : List Use) (exp' later : ℤ)
    → consume jti exp now c ≡ (true, c')
    → length others < c.max_entries
    → Before exp others
    → later <ℤ exp
    → (consume jti exp' later (consume_all others c')).0 ≡ false
consume_once jti exp now c c' others exp' later fresh room b lt =
    consume-Held_again jti exp exp' later (length others) (consume_all others c') lt (
      consume_all-Held jti exp others 0 (length others) c' (omega arith)
        (omega (
          arith,
          max_entries-consume c jti exp now,
          ap (λ (r : Bool × JtiReplayCache). r.1.max_entries) fresh,
        ))
        b (consume_fresh jti exp now c c' fresh))
