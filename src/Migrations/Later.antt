-- ===== src/Migrations/Later.antt =====
-- The triggers on observations through the migrations that come after 0003.
use market_relay.Prelude.{
  String, List, [], ◌∷◌, Bool, true, false, ◌&&◌, not, ◌≡◌, refl, sym, ap, subst, ◌==◌, string_eq,
  &&-true, ==→≡, map,
}
use market_relay.Action.{Outcome, returned, raised, runtime_error}
use market_relay.Schemas.{
  Dialect, sqlite, postgresql, other_dialect, Alter, Schema, Trigger, run_all, create_trigger,
  drop_trigger, replace_function, drop_function, batch_alter_table,
}
use market_relay.Migrations.{
  upgrade_0003, upgrade_0005, downgrade_0005, provenance, drop_provenance, drop_publishable,
  enforce, restore, release_policies, restore_observations, no_update_trigger, no_delete_trigger,
  policy_no_update_trigger, policy_no_delete_trigger, policy_append_only_trigger,
  append_only_trigger,
}
use market_relay.Migrations.Enforcement.{guards_updates, guards_deletes, IsProtected}
use market_relay.Migrations.Triggers.{
  run_all-steps, Holds, create_trigger-Holds, created-Holds, drop_trigger-Holds,
  drop_function-Holds, batch_alter_table-Holds, weaken, last_step, creates-Holds, Keeps,
  run_all-Keeps, at_end, replace_function-Keeps,
}

-- The trigger that PostgreSQL has.
abbrev is_append_only : Trigger → Bool
is_append_only t =
    t.name == "trg_observations_append_only"
    && (guards_updates "observations" t && guards_deletes "observations" t)

-- What 0003 leaves, in each dialect.
abbrev pub IsEnforced : Dialect → Schema → Type 0
IsEnforced sqlite s = IsProtected "observations" s
IsEnforced postgresql s = Holds is_append_only s
IsEnforced other_dialect s = ⊥

pub IsEnforced-IsProtected :
    (d : Dialect) (s : Schema) → IsEnforced d s → IsProtected "observations" s
IsEnforced-IsProtected sqlite s h = h
IsEnforced-IsProtected postgresql s h = (
  weaken is_append_only (guards_updates "observations") s.triggers
      (λ t own. (&&-true _ _ (&&-true _ _ own).1).0) h,
  weaken is_append_only (guards_deletes "observations") s.triggers
      (λ t own. (&&-true _ _ (&&-true _ _ own).1).1) h,
)
IsEnforced-IsProtected other_dialect s h = elim h [ ]

-- The two triggers of SQLite, with more after them.
two_triggers :
    (rest : List Trigger) (s t : Schema)
    → run_all (map create_trigger (no_update_trigger ∷ no_delete_trigger ∷ rest)) s
      ≡ (returned tt, t)
    → IsProtected "observations" t
two_triggers rest s t h =
    let after = map create_trigger (no_delete_trigger ∷ rest) in
    let (first, h') = run_all-steps (create_trigger no_update_trigger) after s t h in
    let s' = (create_trigger no_update_trigger s).1 in
    let (second, h'') =
      run_all-steps (create_trigger no_delete_trigger) (map create_trigger rest) s' t h' in
    let s'' = (create_trigger no_delete_trigger s').1 in
    let update = guards_updates "observations" in
    let delete = guards_deletes "observations" in
    (
      creates-Holds update rest s'' t h'' (
          create_trigger-Holds update no_delete_trigger s'
            (created-Holds update no_update_trigger s first refl)),
      creates-Holds delete rest s'' t h'' (created-Holds delete no_delete_trigger s' second refl),
    )

named_apart :
    (t : Trigger)
    → is_append_only t ≡ true
    → not (t.name == "trg_source_policy_decisions_append_only") ≡ true
named_apart t h =
    subst (λ (n : String). not (n == "trg_source_policy_decisions_append_only") ≡ true)
      (sym (==→≡ (&&-true _ _ h).0)) refl

tabled_apart :
    (q : Bool) (t : Trigger)
    → (t.table == "observations" && q) ≡ true
    → not (t.table == "scheduler_runs") ≡ true
tabled_apart q t h =
    subst (λ (n : String). not (n == "scheduler_runs") ≡ true) (sym (==→≡ (&&-true _ _ h).0)) refl

-- A step that keeps every trigger that guards observations keeps the enforcement.
pub keeps-IsEnforced :
    (d : Dialect) (s t : Schema)
    → ((q : Trigger → Bool)
        → ((x : Trigger) → q x ≡ true → not (x.table == "scheduler_runs") ≡ true)
        → Holds q s
        → Holds q t)
    → IsEnforced d s
    → IsEnforced d t
keeps-IsEnforced sqlite s t keep (a, b) = (
  keep (guards_updates "observations") (λ x h. tabled_apart x.updates x h) a,
  keep (guards_deletes "observations") (λ x h. tabled_apart x.deletes x h) b,
)
keeps-IsEnforced postgresql s t keep h =
    keep is_append_only (λ x own. tabled_apart x.updates x (&&-true _ _ (&&-true _ _ own).1).0) h
keeps-IsEnforced other_dialect s t keep h = elim h [ ]

module _ (recreates : Dialect → List Alter → Bool)
    (alters_in_place : (alters : List Alter) → recreates postgresql alters ≡ false) where
  batch-Keeps :
      (q : Trigger → Bool) (alters : List Alter)
      → Keeps q (batch_alter_table recreates postgresql "observations" alters)
  batch-Keeps q alters s h =
      batch_alter_table-Holds q recreates postgresql "observations" alters s
        (alters_in_place alters) h

  pub upgrade_0003-IsEnforced :
      (d : Dialect) (s t : Schema) → upgrade_0003 recreates d s ≡ (returned tt, t) → IsEnforced d t
  unfolding upgrade_0003
  upgrade_0003-IsEnforced sqlite s t h =
      let batch = batch_alter_table recreates sqlite "observations" drop_publishable in
      two_triggers [] (batch s).1 t (last_step batch (enforce sqlite) s t h)
  upgrade_0003-IsEnforced postgresql s t h =
      let batch = batch_alter_table recreates postgresql "observations" drop_publishable in
      let replace = replace_function "fn_observations_append_only" in
      let create = create_trigger append_only_trigger in
      let s' = (batch s).1 in
      let last = last_step replace create s' t (last_step batch (enforce postgresql) s t h) in
      at_end is_append_only create (replace s').1 t last (
        created-Holds is_append_only append_only_trigger (replace s').1
          (ap (λ (y : Outcome (Unit {0}) × Schema). y.0) last) refl)
  upgrade_0003-IsEnforced other_dialect s t h =
      let batch = batch_alter_table recreates other_dialect "observations" drop_publishable in
      let last = last_step batch (enforce other_dialect) s t h in
      let refused : ◌≡◌ {A = Outcome (Unit {0})} (raised runtime_error) (returned tt) =
        ap (λ (y : Outcome (Unit {0}) × Schema). y.0) last in
      absurd (cc refused)

  pub upgrade_0005-IsEnforced :
      (d : Dialect) (s t : Schema)
      → upgrade_0005 recreates d s ≡ (returned tt, t)
      → IsEnforced d s
      → IsEnforced d t
  unfolding upgrade_0005
  upgrade_0005-IsEnforced sqlite s t h e =
      let batch = batch_alter_table recreates sqlite "observations" provenance in
      two_triggers (policy_no_update_trigger ∷ policy_no_delete_trigger ∷ []) (batch s).1 t
        (last_step batch (restore sqlite) s t h)
  upgrade_0005-IsEnforced postgresql s t h e =
      let q = is_append_only in
      at_end q (upgrade_0005 recreates postgresql) s t h (
        run_all-Keeps q
          (batch_alter_table recreates postgresql "observations" provenance
            ∷ restore postgresql
            ∷ [])
          (
            batch-Keeps q provenance,
            (
              run_all-Keeps q
                  (replace_function "fn_source_policy_decisions_append_only"
                    ∷ create_trigger policy_append_only_trigger
                    ∷ [])
                  (
                    replace_function-Keeps q "fn_source_policy_decisions_append_only",
                    (create_trigger-Holds q policy_append_only_trigger, tt),
                  ),
              tt,
            ),
          )
          s e)
  upgrade_0005-IsEnforced other_dialect s t h e = elim e [ ]

  pub downgrade_0005-IsEnforced :
      (d : Dialect) (s t : Schema)
      → downgrade_0005 recreates d s ≡ (returned tt, t)
      → IsEnforced d s
      → IsEnforced d t
  unfolding downgrade_0005
  downgrade_0005-IsEnforced sqlite s t h e =
      let batch = batch_alter_table recreates sqlite "observations" drop_provenance in
      let s' = (release_policies sqlite s).1 in
      let (first, later) =
        run_all-steps (release_policies sqlite) (batch ∷ restore_observations sqlite ∷ []) s t h in
      two_triggers [] (batch s').1 t (last_step batch (restore_observations sqlite) s' t later)
  downgrade_0005-IsEnforced postgresql s t h e =
      let q = is_append_only in
      at_end q (downgrade_0005 recreates postgresql) s t h (
        run_all-Keeps q
          (release_policies postgresql
            ∷ batch_alter_table recreates postgresql "observations" drop_provenance
            ∷ restore_observations postgresql
            ∷ [])
          (
            run_all-Keeps q
                (drop_trigger "trg_source_policy_decisions_append_only"
                  ∷ drop_function "fn_source_policy_decisions_append_only"
                  ∷ [])
                (
                  (λ x.
                      drop_trigger-Holds q "trg_source_policy_decisions_append_only" x named_apart),
                  (drop_function-Holds q "fn_source_policy_decisions_append_only", tt),
                ),
            (batch-Keeps q drop_provenance, ((λ x own. own), tt)),
          )
          s e)
  downgrade_0005-IsEnforced other_dialect s t h e = elim e [ ]
