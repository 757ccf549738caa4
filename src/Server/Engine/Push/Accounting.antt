-- ===== src/Server/Engine/Push/Accounting.antt =====
-- The steps of a push lose no id.
use remelon_db.Prelude.{ℕ, String, ◌≡◌, ◌∙◌, ap, sym, subst, Bool, List, [], arith, All-mono}
use remelon_db.Prelude.Map.{Map}
use remelon_db.Wire.{DirtyRaw, SyncChanges}
use remelon_db.Server.Store.{SyncStore}
use remelon_db.Server.Engine.{ok, >>=-eq-ok, ok-injective, Options, Entry}
use remelon_db.Server.Engine.Partition.{parse}
use remelon_db.Server.Engine.Partition.Named.{is_requested, IsPartition, parse-lem}
use remelon_db.Server.Engine.Screen.{each, own, validate_rows, bury}
use remelon_db.Server.Engine.Screen.Sound.{
  Covers, tables, own-IsSound, validate_rows-IsSound, bury-IsSound, each-Covers, tables-each,
}
use remelon_db.Server.Engine.Hooks.{Work}
use remelon_db.Server.Engine.Hooks.Sound.{AllCovered, run_hooks-Covers, run_hooks-tables}
use remelon_db.Server.Engine.Apply.{upsert_all}
use remelon_db.Server.Engine.Apply.Sound.{upsert_all-Covers, tables-upsert_all}
use remelon_db.Server.Engine.Push.{table_names, screen}

IsPartition-Covers :
    (changes : SyncChanges DirtyRaw) (entry : Entry)
    → IsPartition changes entry
    → Covers (is_requested changes) [] entry
IsPartition-Covers changes entry part =
    λ id asked. ground (arith, asked, part.named id, part.split id)

module _ {Scope : Type 0} (store : SyncStore Scope) (options : Options store) (scope : Scope)
    (s : store.State) where
  pub screen-Covers :
      (names : String → String → Bool) (revs : Map (Map ℕ)) (work out : Work)
      → screen store options scope s revs work ≡ ok out
      → AllCovered names work
      → AllCovered names out × (tables out.0 ≡ tables work.0)
  unfolding screen
  screen-Covers names revs (parsed, rejected) out e h =
      let checked : Work = each (validate_rows store options) parsed rejected in
      let (mid, hooked, built) = >>=-eq-ok _ _ e in
      let covered = run_hooks-Covers store options scope s names checked mid hooked (
        each-Covers (validate_rows store options) (validate_rows-IsSound store options) names parsed
          rejected h) in
      let step = bury store options scope s revs in
      let sound = bury-IsSound store options scope s revs in
      let same = ok-injective built in
      (
        subst (AllCovered names) same (each-Covers step sound names mid.0 mid.1 covered),
        ap (λ (w : Work). tables w.0) (sym same)
            ∙ tables-each step sound mid.0 mid.1
            ∙ run_hooks-tables store options scope s names checked mid hooked
            ∙ tables-each (validate_rows store options) (validate_rows-IsSound store options) parsed
                rejected,
      )

  -- After the screening each id that the request names for a table is in the rows, the deletions or
  -- the rejections, and there is one entry for each configured table, in order.
  pub screened-Covers :
      (changes : SyncChanges DirtyRaw) (parsed : List Entry) (revs : Map (Map ℕ)) (work : Work)
      → parse changes (table_names store options) ≡ ok parsed
      → screen store options scope s revs (each (own store scope s) parsed []) ≡ ok work
      → AllCovered (is_requested changes) work × (tables work.0 ≡ table_names store options)
  screened-Covers changes parsed revs work parsing screened =
      let names = is_requested changes in
      let (named, parts) = parse-lem changes (table_names store options) parsed parsing in
      let start =
        All-mono (IsPartition changes) (Covers names []) (IsPartition-Covers changes) parsed
          parts in
      let owned =
        each-Covers (own store scope s) (own-IsSound store scope s) names parsed [] start in
      let (covered, same) =
        screen-Covers names revs (each (own store scope s) parsed []) work screened owned in
      (
        covered,
        same ∙ tables-each (own store scope s) (own-IsSound store scope s) parsed [] ∙ named,
      )

  -- and so it is after the storage refusals
  pub written-Covers :
      (changes : SyncChanges DirtyRaw) (parsed : List Entry) (revs : Map (Map ℕ)) (work : Work)
      → parse changes (table_names store options) ≡ ok parsed
      → screen store options scope s revs (each (own store scope s) parsed []) ≡ ok work
      → AllCovered
          (is_requested changes)
          ((upsert_all store scope work.0 work.1 s).0, (upsert_all store scope work.0 work.1 s).1)
        × (tables (upsert_all store scope work.0 work.1 s).0 ≡ table_names store options)
  written-Covers changes parsed revs work parsing screened =
      let (covered, named) = screened-Covers changes parsed revs work parsing screened in
      (
        upsert_all-Covers store (is_requested changes) scope work.0 work.1 s covered,
        tables-upsert_all store scope work.0 work.1 s ∙ named,
      )
