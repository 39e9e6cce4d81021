-- ===== src/Migrations/Triggers.antt =====
-- What the statements of a migration leave of a trigger.
use market_relay.Prelude.{
  String, List, [], ◌∷◌, ◌++◌, Bool, true, false, ◌&&◌, ◌||◌, not, ◌≡◌, refl, ap, subst, ◌∙◌, ◌==◌,
  string_eq, arith, Bool-cases, inl, inr, All, Option-cases, map,
}
use market_relay.Table.{select_where}
use market_relay.Dict.{get}
use market_relay.Action.{Outcome, Outcome-cases, returned, raised, Action}
use market_relay.Ingestion.Runner.{resume}
use market_relay.Schemas.{
  Dialect, Alter, Schema, Trigger, any_of, run_all, create_table, drop_table, create_trigger,
  drop_trigger, replace_function, drop_function, batch_alter_table, apply_all, has_name,
  has_function, calls, TableDef,
}

-- The schema after a list of steps that were all carried out.
pub run_all-steps :
    {S : Type 0} (m : Action S (Unit {0})) (ms : List (Action S (Unit {0}))) (s t : S)
    → run_all (m ∷ ms) s ≡ (returned tt, t)
    → ((m s).0 ≡ returned tt) × (run_all ms (m s).1 ≡ (returned tt, t))
run_all-steps {S} m ms s t h = go (m s) h
  where
    go :
        (r : Outcome (Unit {0}) × S)
        → resume (λ _. run_all ms) r.0 r.1 ≡ (returned tt, t)
        → (r.0 ≡ returned tt) × (run_all ms r.1 ≡ (returned tt, t))
    go (returned u, s') e = (refl, e)
    go (raised x, s') e = absurd (cc (ap (λ (y : Outcome (Unit {0}) × S). y.0) e))

module _ {A : Type 0} (q : A → Bool) where
  any_of-append : (xs ys : List A) → any_of q (xs ++ ys) ≡ (any_of q xs || any_of q ys)
  any_of-append [] ys = refl
  any_of-append (x ∷ xs) ys = ground (arith, any_of-append xs ys)

  any_of-select :
      (p : A → Bool) (xs : List A)
      → ((x : A) → q x ≡ true → p x ≡ true)
      → any_of q xs ≡ true
      → any_of q (select_where p xs) ≡ true
  unfolding select_where
  any_of-select p [] keep h = absurd (cc h)
  any_of-select p (x ∷ xs) keep h = elim (Bool-cases (q x)) [
    | inl t ↦ rw (keep x t) (rw t refl)
    | inr f ↦ ground (arith, f, any_of-select p xs keep (ground (arith, f, h)))
  ]

-- The schema has such a trigger.
abbrev pub Holds : (Trigger → Bool) → Schema → Type 0
Holds q s = any_of q s.triggers ≡ true

module _ (q : Trigger → Bool) where
  pub create_trigger-Holds : (t : Trigger) (s : Schema) → Holds q s → Holds q (create_trigger t s).1
  unfolding create_trigger
  create_trigger-Holds t s h =
      elim (Bool-cases
        (not (any_of (has_name t.name) s.triggers) && has_function t.function s.functions)) [
          | inl ok ↦ rw ok (any_of-append q s.triggers (t ∷ []) ∙ rw h refl)
          | inr no_more ↦ rw no_more h
        ]

  pub created-Holds :
      (t : Trigger) (s : Schema)
      → (create_trigger t s).0 ≡ returned tt
      → q t ≡ true
      → Holds q (create_trigger t s).1
  unfolding create_trigger
  created-Holds t s done own =
      elim (Bool-cases
        (not (any_of (has_name t.name) s.triggers) && has_function t.function s.functions)) [
          | inl ok ↦ rw ok (any_of-append q s.triggers (t ∷ []) ∙ ground (arith, own))
          | inr refused ↦ absurd (cc (rw refused at done))
        ]

  pub drop_trigger-Holds :
      (name : String) (s : Schema)
      → ((t : Trigger) → q t ≡ true → not (t.name == name) ≡ true)
      → Holds q s
      → Holds q (drop_trigger name s).1
  unfolding drop_trigger
  drop_trigger-Holds name s keep h = any_of-select q _ s.triggers keep h

  pub drop_function-Holds : (f : String) (s : Schema) → Holds q s → Holds q (drop_function f s).1
  unfolding drop_function
  drop_function-Holds f s h = elim (Bool-cases (any_of (calls f) s.triggers)) [
    | inl t ↦ rw t h
    | inr n ↦ rw n h
  ]

  pub drop_table-Holds :
      (name : String) (s : Schema)
      → ((t : Trigger) → q t ≡ true → not (t.table == name) ≡ true)
      → Holds q s
      → Holds q (drop_table name s).1
  unfolding drop_table
  drop_table-Holds name s keep h = elim (Option-cases (get name s.tables)) [
    | inl e ↦ rw e h
    | inr (t, e) ↦ rw e (any_of-select q _ s.triggers keep h)
  ]

  pub create_table-Holds :
      (name : String) (table : TableDef) (s : Schema)
      → Holds q s
      → Holds q (create_table name table s).1
  unfolding create_table
  create_table-Holds name table s h = elim (Option-cases (get name s.tables)) [
    | inl e ↦ rw e h
    | inr (t, e) ↦ rw e h
  ]

  -- A batch that is carried out by ALTER TABLE keeps the triggers.
  pub batch_alter_table-Holds :
      (recreates : Dialect → List Alter → Bool) (d : Dialect) (table : String) (alters : List Alter)
      (s : Schema)
      → recreates d alters ≡ false
      → Holds q s
      → Holds q (batch_alter_table recreates d table alters s).1
  unfolding batch_alter_table
  batch_alter_table-Holds recreates d table alters s same h =
      elim (Option-cases (get table s.tables)) [
        | inl e ↦ rw (e, batch_alter_table) h
        | inr (t, e) ↦ elim (Outcome-cases (apply_all alters t).0) [
          | inr (x, r) ↦ rw (e, batch_alter_table, r) h
          | inl (u, r) ↦
              rw (e, batch_alter_table, r) (any_of-select q _ s.triggers (λ t own. rw same refl) h)
        ]
      ]

pub weaken :
    (q r : Trigger → Bool) (ts : List Trigger)
    → ((t : Trigger) → q t ≡ true → r t ≡ true)
    → any_of q ts ≡ true
    → any_of r ts ≡ true
weaken q r [] imp h = absurd (cc h)
weaken q r (t ∷ ts) imp h = elim (Bool-cases (q t)) [
  | inl own ↦ ground (arith, imp t own)
  | inr other ↦ ground (arith, weaken q r ts imp (ground (arith, other, h)))
]

pub last_step :
    {S : Type 0} (m n : Action S (Unit {0})) (s t : S)
    → run_all (m ∷ n ∷ []) s ≡ (returned tt, t)
    → n (m s).1 ≡ (returned tt, t)
last_step {S} m n s t h =
    let (first, then_n) = run_all-steps m (n ∷ []) s t h in
    let (second, over) = run_all-steps n [] (m s).1 t then_n in
    let same : (n (m s).1).1 ≡ t = ap (λ (y : Outcome (Unit {0}) × S). y.1) over in
    λ i. (second i, same i)

pub creates-Holds :
    (q : Trigger → Bool) (rest : List Trigger) (s t : Schema)
    → run_all (map create_trigger rest) s ≡ (returned tt, t)
    → Holds q s
    → Holds q t
creates-Holds q [] s t h own = subst (Holds q) (ap (λ (y : Outcome (Unit {0}) × Schema). y.1) h) own
creates-Holds q (x ∷ rest) s t h own =
    let (first, later) = run_all-steps (create_trigger x) (map create_trigger rest) s t h in
    creates-Holds q rest (create_trigger x s).1 t later (create_trigger-Holds q x s own)

-- A step that keeps such a trigger, whether it is carried out or not.
abbrev pub Keeps : (Trigger → Bool) → Action Schema (Unit {0}) → Type 0
Keeps q m = (s : Schema) → Holds q s → Holds q (m s).1

pub run_all-Keeps :
    (q : Trigger → Bool) (ms : List (Action Schema (Unit {0})))
    → All (Keeps q) ms
    → Keeps q (run_all ms)
run_all-Keeps q [] keep s h = h
run_all-Keeps q (m ∷ ms) (own, keep) s h = go (run_all-Keeps q ms keep) (m s).0 (m s).1 (own s h)
  where
    go :
        Keeps q (run_all ms)
        → (o : Outcome (Unit {0})) (s' : Schema) → Holds q s'
        → Holds q (resume (λ _. run_all ms) o s').1
    go later (returned u) s' h' = later s' h'
    go later (raised e) s' h' = h'

pub at_end :
    (q : Trigger → Bool) (m : Action Schema (Unit {0})) (s t : Schema)
    → m s ≡ (returned tt, t)
    → Holds q (m s).1
    → Holds q t
at_end q m s t h own = subst (Holds q) (ap (λ (y : Outcome (Unit {0}) × Schema). y.1) h) own

pub replace_function-Keeps : (q : Trigger → Bool) (f : String) → Keeps q (replace_function f)
unfolding replace_function
replace_function-Keeps q f s h = h
