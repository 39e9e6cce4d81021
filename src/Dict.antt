-- ===== src/Dict.antt =====
-- Python's `dict`, which keeps the order of insertion: a write of a key that is there keeps its
-- place.
use market_relay.Prelude.{
  ◌≢◌, All-mono, All-both, ==-refl, List, [], ◌∷◌, Bool, true, ◌&&◌, Option, none, some,
  if◌then◌else◌, Eq, ◌==◌, ◌≡◌, ◌↔◌, refl, sym, subst, ap, arith, All, Bool-cases, inl, inr, ==→≡,
}

-- The keys that are pairs.
module _ {ℓ κ} {A : Type ℓ} {B : Type κ} ⦃e : Eq A⦄ ⦃f : Eq B⦄ where
  abbrev pub pair_beq : A × B → A × B → Bool
  pair_beq p q = p.0 == q.0 && p.1 == q.1

  pub pair_beq_iff : (p q : A × B) → (pair_beq p q ≡ true) ↔ (p ≡ q)
  pair_beq_iff p q = (
    λ h. ground (arith, h, e.equals_iff p.0 q.0, f.equals_iff p.1 q.1),
    λ h. ground (
      arith,
      ap (λ (x : A × B). x.0) h,
      ap (λ (x : A × B). x.1) h,
      e.equals_iff p.0 q.0,
      f.equals_iff p.1 q.1,
    ),
  )

  instance abbrev pub pair_eq : Eq (A × B)
  pair_eq = record { equals = pair_beq; equals_iff = pair_beq_iff }

abbrev pub Dict {ℓ κ} : Type ℓ → Type κ → Type (ℓ ⊔ κ)
Dict K V = List (K × V)

module _ {ℓ κ} {K : Type ℓ} {V : Type κ} ⦃e : Eq K⦄ where
  -- d.get(k)
  unfoldable pub get : K → Dict K V → Option V
  get k [] = none
  get k ((j, v) ∷ m) = if j == k then some v else get k m

  -- d[k] = v
  unfoldable pub put : K → V → Dict K V → Dict K V
  put k v [] = (k, v) ∷ []
  put k v ((j, w) ∷ m) = if j == k then (j, v) ∷ m else (j, w) ∷ put k v m

  pub get-put :
      (k j : K) (v : V) (m : Dict K V) → get j (put k v m) ≡ (if k == j then some v else get j m)
  unfolding get put
  get-put k j v [] = refl
  get-put k j v ((i, w) ∷ m) =
      ground (arith, e.equals_iff k j, e.equals_iff i k, e.equals_iff i j, get-put k j v m)

  abbrev pub Entries {μ} : (K → V → Type μ) → Dict K V → Type μ
  Entries P = All (λ x. P x.0 x.1)

  pub Entries-put {μ} :
      (P : K → V → Type μ) (k : K) (v : V) (m : Dict K V)
      → P k v
      → Entries P m
      → Entries P (put k v m)
  unfolding put
  Entries-put P k v [] h a = (h, tt)
  Entries-put P k v ((j, w) ∷ m) h a = elim (Bool-cases (j == k)) [
    | inl t ↦ rw (t, put) (subst (λ x. P x v) (sym (==→≡ t)) h, a.1)
    | inr n ↦ rw (n, put) (a.0, Entries-put P k v m h a.1)
  ]

  pub Entries-get {μ} :
      (P : K → V → Type μ) (k : K) (m : Dict K V) {v : V} → Entries P m → get k m ≡ some v → P k v
  unfolding get
  Entries-get P k [] a h = cc
  Entries-get P k ((j, w) ∷ m) {v} a h = elim (Bool-cases (j == k)) [
    | inl t ↦
        let same : w ≡ v = ground (arith, t, h) in
        subst (λ x. P k x) same (subst (λ x. P x w) (==→≡ t) a.0)
    | inr n ↦ Entries-get P k m a.1 (ground (arith, n, h))
  ]

  -- No key twice.
  abbrev pub Distinct : Dict K V → Type (ℓ ⊔ κ)
  Distinct [] = Unit
  Distinct ((k, v) ∷ m) = All (λ x. x.0 ≢ k) m × Distinct m

  put-absent :
      (k j : K) (v : V) (m : Dict K V)
      → k ≢ j
      → All (λ x. x.0 ≢ j) m
      → All (λ x. x.0 ≢ j) (put k v m)
  unfolding put
  put-absent k j v [] ne a = (ne, tt)
  put-absent k j v ((i, w) ∷ m) ne a = elim (Bool-cases (i == k)) [
    | inl t ↦ rw (t, put) a
    | inr n ↦ rw (n, put) (a.0, put-absent k j v m ne a.1)
  ]

  pub put-Distinct : (k : K) (v : V) (m : Dict K V) → Distinct m → Distinct (put k v m)
  unfolding put
  put-Distinct k v [] u = (tt, tt)
  put-Distinct k v ((i, w) ∷ m) u = elim (Bool-cases (i == k)) [
    | inl t ↦ rw (t, put) u
    | inr n ↦
        rw (n, put)
          (
            put-absent k i v m (λ same. ground (arith, n, same, e.equals_iff i k)) u.0,
            put-Distinct k v m u.1,
          )
  ]

  -- An entry is what its key finds.
  pub Entries-found : (m : Dict K V) → Distinct m → Entries (λ k v. get k m ≡ some v) m
  unfolding get
  Entries-found [] u = tt
  Entries-found ((k, v) ∷ m) u = (
    rw ==-refl refl,
    All-mono
        (λ x (ne, found). elim (Bool-cases (k == x.0)) [
          | inl t ↦ absurd (ne (sym (==→≡ t)))
          | inr n ↦ rw (n, get) found
        ])
        m (All-both _ _ m u.0 (Entries-found m u.1)),
  )
