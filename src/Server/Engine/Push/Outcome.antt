-- ===== src/Server/Engine/Push/Outcome.antt =====
-- When a push is answered by a conflict, what that leaves, and what an accepted push has been through.
use remelon_db.Prelude.{
  ℕ, ◌≤◌, ◌<◌, ◌≡◌, ◌↔◌, ◌≢◌, ◌⊎◌, ap, sym, Bool, true, not, ◌&&◌, none, some, List, [], ◌∷◌, arith,
  ltb, is_empty, any, ltb→lt, inl, inr, Bool-cases, Option-cases,
}
use remelon_db.Prelude.Map.{Map, values}
use remelon_db.Wire.{DirtyRaw, SyncPushArgs, Pushed, SyncPushResult, pushed, conflict}
use remelon_db.Server.Store.{WireRow, SyncStore}
use remelon_db.Server.Cursor.{decode_cursor}
use remelon_db.Server.Engine.{ok, >>=-eq-ok, ok-injective, Options, Entry}
use remelon_db.Server.Engine.Partition.{parse}
use remelon_db.Server.Engine.Screen.{each, own, scan}
use remelon_db.Server.Engine.Hooks.{Work}
use remelon_db.Server.Engine.Push.{table_names, effective_max, screen, commit, push_parsed, push}

module _ {Scope : Type 0} (store : SyncStore Scope) (options : Options store) (scope : Scope) where
  -- The steps that an accepted push went through.
  pub record IsAccepted (args : SyncPushArgs DirtyRaw) (s : store.State)
      (out : SyncPushResult WireRow × store.State) : Type 0 where
    pub since : ℕ
    pub parsed : List Entry
    pub revs : Map (Map ℕ)
    pub work : Work
    pub decoded : decode_cursor args.cursor ≡ some since
    pub parsing : parse args.changes (table_names store options) ≡ ok parsed
    pub served : since ≤ effective_max store options scope s
    pub scanned : scan store scope since s (each (own store scope s) parsed []).0 ≡ some revs
    pub screened : screen store options scope s revs (each (own store scope s) parsed []) ≡ ok work
    pub committed : commit store options scope since work s ≡ out

  -- The conflict scan, said without its accumulator: some entry has a revision above the cursor.
  abbrev pub is_stale : ℕ → store.State → List Entry → Bool
  is_stale since s entries =
      any
        (λ e.
          not (is_empty e.all_ids)
          && any (λ rev. ltb since rev) (values (store.current_revs e.table scope e.all_ids s)))
        entries

  pub scan-none_iff :
      (since : ℕ) (s : store.State) (entries : List Entry)
      → (scan store scope since s entries ≡ none) ↔ (is_stale since s entries ≡ true)
  unfolding scan
  scan-none_iff since s [] = ground arith
  scan-none_iff since s (e ∷ rest) = ground (arith, scan-none_iff since s rest)

  -- Why a push of an intelligible request conflicts: a cursor above what was served, or a stale id.
  abbrev pub HasConflict : ℕ → List Entry → store.State → Type 0
  HasConflict since parsed s =
      (effective_max store options scope s < since)
      ⊎ (is_stale since s (each (own store scope s) parsed []).0 ≡ true)

  abbrev Proceeds : ℕ → List Entry → store.State → SyncPushResult WireRow × store.State → Type 0
  Proceeds since parsed s out =
      (since ≤ effective_max store options scope s)
      × ((revs : Map (Map ℕ)) × (scan store scope since s (each (own store scope s) parsed []).0
            ≡ some revs)
          × ((work : Work) × (screen store options scope s revs (each (own store scope s) parsed [])
                ≡ ok work)
              × (commit store options scope since work s ≡ out)))

  push_parsed-cases :
      (since : ℕ) (parsed : List Entry) (s : store.State)
      (out : SyncPushResult WireRow × store.State)
      → push_parsed store options scope since parsed s ≡ ok out
      → (HasConflict since parsed s × ((conflict, s) ≡ out)) ⊎ Proceeds since parsed s out
  unfolding push_parsed
  push_parsed-cases since parsed s out e =
      let owned = (each (own store scope s) parsed []).0 in
      elim (Bool-cases (ltb (effective_max store options scope s) since)) [
        | inl above ↦ inl (inl (ltb→lt _ _ above), ok-injective (rw above at e))
        | inr served ↦ elim (Option-cases (scan store scope since s owned)) [
          | inl stale ↦
              inl (
                inr ((scan-none_iff since s owned).0 stale),
                ok-injective (rw (served, stale) at e),
              )
          | inr (revs, scanned) ↦
              let (work, screened, built) = >>=-eq-ok _ _ (rw (served, scanned) at e) in
              inr (ground arith, (revs, scanned, (work, screened, ok-injective built)))
        ]
      ]

  commit-ne-conflict :
      (since : ℕ) (work : Work) (s s' : store.State)
      → commit store options scope since work s ≢ (conflict, s')
  unfolding commit
  commit-ne-conflict since work s s' e =
      cc (ap (λ (o : SyncPushResult WireRow × store.State). o.0) e)

  module _ (args : SyncPushArgs DirtyRaw) (s : store.State) where
    pub push-cases :
        (out : SyncPushResult WireRow × store.State)
        → push store options scope args s ≡ ok out
        → ((conflict, s) ≡ out) ⊎ IsAccepted args s out
    unfolding push
    push-cases out e = elim (Option-cases (decode_cursor args.cursor)) [
      | inl unread ↦ inl (ok-injective (rw (unread, push) at e))
      | inr (since, decoded) ↦
          let (parsed, parsing, rest) =
            >>=-eq-ok (parse args.changes (table_names store options))
              (λ p. push_parsed store options scope since p s) (rw (decoded, push) at e) in
          elim (push_parsed-cases since parsed s out rest) [
            | inl (why, kept) ↦ inl kept
            | inr (served, (revs, scanned, (work, screened, committed))) ↦ inr (record {
              since = since;
              parsed = parsed;
              revs = revs;
              work = work;
              decoded = decoded;
              parsing = parsing;
              served = served;
              scanned = scanned;
              screened = screened;
              committed = committed;
            })
          ]
    ]

    -- A push that answers a conflict leaves the store as it was.
    pub push_conflict_keeps :
        (s' : store.State) → push store options scope args s ≡ ok (conflict, s') → s' ≡ s
    push_conflict_keeps s' e = elim (push-cases (conflict, s') e) [
      | inl kept ↦ sym (ap (λ (o : SyncPushResult WireRow × store.State). o.1) kept)
      | inr accepted ↦
          absurd (commit-ne-conflict accepted.since accepted.work s s' accepted.committed)
    ]

    pub push-pushed :
        (p : Pushed WireRow) (s' : store.State)
        → push store options scope args s ≡ ok (pushed p, s')
        → IsAccepted args s (pushed p, s')
    push-pushed p s' e = elim (push-cases (pushed p, s') e) [
      | inl kept ↦ absurd (differ (ap (λ (o : SyncPushResult WireRow × store.State). o.0) kept))
      | inr accepted ↦ accepted
    ]
      where
        differ : conflict ≡ pushed p → ⊥
        differ h = cc

    -- For a request whose cursor reads as `since` and whose ids are all usable, the answer is a
    -- conflict exactly when the cursor is above the served maximum or a requested id of the scope
    -- has a revision above the cursor; whether a later step would have rejected the id plays no part.
    pub push_conflict_iff :
        (since : ℕ) (parsed : List Entry)
        → decode_cursor args.cursor ≡ some since
        → parse args.changes (table_names store options) ≡ ok parsed
        → (push store options scope args s ≡ ok (conflict, s)) ↔ HasConflict since parsed s
    unfolding push push_parsed
    push_conflict_iff since parsed decoded parsing = (forth, back)
      where
        forth : push store options scope args s ≡ ok (conflict, s) → HasConflict since parsed s
        forth e =
            elim (push_parsed-cases since parsed s (conflict, s)
              (rw (decoded, push, parsing) at e)) [
                | inl (why, kept) ↦ why
                | inr (served, (revs, scanned, (work, screened, committed))) ↦
                    absurd (commit-ne-conflict since work s s committed)
              ]

        back : HasConflict since parsed s → push store options scope args s ≡ ok (conflict, s)
        back (inl above) = rw (decoded, push, parsing) (ground arith)
        back (inr stale) =
            let unscanned : scan store scope since s (each (own store scope s) parsed []).0 ≡ none =
              (scan-none_iff since s _).1 stale in
            rw (decoded, push, parsing) (ground (arith, unscanned))
