-- ===== src/Models/Insert/Merged.antt =====
-- models/users.go: `Upsert` with its cache of statements, where all calls have the same options.
use users_api.Base.{
  ℕ, String, ◌⊎◌, Option, none, some, List, ◌≡◌, refl, sym, ◌∙◌, All, map, length, Bool, true,
  false, ◌&&◌, Bool-cases, Option-cases, inl, inr, ◌==◌, nat_eq, if◌then◌else◌,
}
use users_api.Go.Error.{Error, wrap}
use users_api.Go.Result.{Result, ok, err, panic, Attempt, attempt}
use users_api.Go.Exec.{Exec, pure, raise, wrapping, continue, ◌>>=◌, ◌>>◌}
use users_api.Models.User.{
  User, Column, UserPtr, column_value, user_all_columns, user_columns_with_default,
  user_primary_key_columns,
}
use users_api.Models.Sql.{Conn, upsert_row}
use users_api.Models.World.{World, UpsertCache, get_user, put_user, change_db, with_db}
use users_api.Models.Objects.{written, get_written}
use users_api.Models.Hooks.{no_hooks}
use users_api.Models.Hooks.None.{before_upsert-pure, after_upsert-pure}
use users_api.Models.Env.{Env, Columns}
use users_api.Models.Cache.{lookup_cache}
use users_api.Models.UpsertQuery.{UpsertOption}
use users_api.Models.Write.Cached.{lookup_cache-All}
use users_api.Models.Insert.{
  stamp, stamp_user, query_row, exec_only, run_upsert, ignore_no_rows, build_upsert, store_upsert,
  upsert_key, upsert,
}
use users_api.Models.Insert.Key.{upsert_key-injective}
use users_api.Models.Insert.Options.{stamp_user_lem}
use users_api.Models.Insert.Cached.{stamp_user-panic}

module _ (E : Env) (opts : List UpsertOption) where
  open E use {sql as S, boil as B}

  -- An entry is what would be built, with the options, for arguments with its key.
  abbrev pub IsBuilt : String × UpsertCache → Type 0
  IsBuilt (key, c) =
      (b : Bool) × (conflict : List Column) × (update : Columns) × (insert : Columns) × (nz : List
        Column)
      × (key ≡ upsert_key b conflict update insert nz)
      × (build_upsert E b conflict update insert opts nz ≡ pure c)

  -- The statement of an upsert, for what was built.
  abbrev pub upsert_columns : Conn S.Tx → UserPtr → User → UpsertCache → Exec (World S) (Unit {0})
  upsert_columns conn o u c =
      wrapping (λ e. wrap e "models: unable to upsert users") (run_upsert E conn c o u)

  -- `Upsert` without hooks and without a cache.
  unfoldable pub upsert_uncached :
      Conn S.Tx → UserPtr → Bool → List Column → Columns → Columns → Exec (World S) (Unit {0})
  unfolding stamp_user get_user build_upsert run_upsert
  upsert_uncached conn o b conflict update insert = do
    stamp_user E o
    u ← get_user o
    c ←
        build_upsert E b conflict update insert opts
          (B.non_zero_default_set user_columns_with_default u.columns)
    upsert_columns conn o u c

  -- The same outcome but for the cache, which stays as it should be.
  abbrev pub SameButCache : Result (Unit {0}) × World S → Result (Unit {0}) × World S → Type 0
  SameButCache (r, w) (s, v) =
      (r ≡ s) × (w.heap ≡ v.heap) × (w.db ≡ v.db) × All IsBuilt w.upsert_cache

  abbrev finish : Option UpsertCache → String → UpsertCache → Exec (World S) (Unit {0})
  finish cached key c = do store_upsert E cached key c; pure tt

  finish_same :
      (r : Result (Unit {0})) (v : World S) (cached : Option UpsertCache) (key : String)
      (c : UpsertCache)
      → All IsBuilt v.upsert_cache
      → (cached ≡ none → IsBuilt (key, c))
      → SameButCache (continue r (λ _. finish cached key c) v) (r, v)
  unfolding store_upsert
  finish_same (ok n) v none key c h b = (refl, refl, refl, (b refl, h))
  finish_same (ok n) v (some d) key c h b = (refl, refl, refl, h)
  finish_same (err e) v cached key c h b = (refl, refl, refl, h)
  finish_same (panic why) v cached key c h b = (refl, refl, refl, h)

  dropped :
      (r : Result (Attempt ℕ)) (v : World S)
      → (continue r (λ _. pure (tt {0})) v).1.upsert_cache ≡ v.upsert_cache
  dropped (ok n) v = refl
  dropped (err e) v = refl
  dropped (panic why) v = refl

  ignored :
      (r : Result (Unit {0})) (v : World S)
      → (ignore_no_rows E (λ _. (r, v)) v).1.upsert_cache ≡ v.upsert_cache
  unfolding ignore_no_rows
  ignored (ok n) v = refl
  ignored (err e) v = refl
  ignored (panic why) v = refl

  run_upsert-cache :
      (conn : Conn S.Tx) (c : UpsertCache) (o : UserPtr) (u : User) (w : World S)
      → (run_upsert E conn c o u w).1.upsert_cache ≡ w.upsert_cache
  unfolding run_upsert query_row exec_only put_user change_db
  run_upsert-cache conn c o u w = elim (Bool-cases (length c.returned == 0)) [
    | inl empty ↦
        let x =
          S.exec conn (upsert_row c.query (map (λ y. column_value y u.columns) c.columns)) w.db in
        rw empty (dropped (attempt x.0) (with_db x.1 w))
    | inr full ↦
        let x =
          query_row E conn (upsert_row c.query (map (λ y. column_value y u.columns) c.columns))
            c.returned o u w in
        rw full (ignored x.0 x.1)
  ]

  upsert_same :
      (conn : Conn S.Tx) (o : UserPtr) (u : User) (cached : Option UpsertCache) (key : String)
      (c : UpsertCache) (w : World S)
      → All IsBuilt w.upsert_cache
      → (cached ≡ none → IsBuilt (key, c))
      → SameButCache
          ((upsert_columns conn o u c >> finish cached key c) w)
          (upsert_columns conn o u c w)
  upsert_same conn o u cached key c w h b =
      finish_same (upsert_columns conn o u c w).0 (upsert_columns conn o u c w).1 cached key c
        (rw (run_upsert-cache conn c o u w) h) b

  raise_or_pure :
      (b : Bool) (e : Error) (c : UpsertCache)
      → let m : Exec (World S) UpsertCache = if b then raise e else pure c in
        ((e' : Error) × (m ≡ raise e')) ⊎ ((c' : UpsertCache) × (m ≡ pure c'))
  raise_or_pure true e c = inl (e, refl)
  raise_or_pure false e c = inr (c, refl)

  -- The builder fails, whatever the state, or it has an entry.
  built_or_fails :
      (b : Bool) (conflict : List Column) (update insert : Columns) (nz : List Column)
      → ((e : Error) × (build_upsert E b conflict update insert opts nz ≡ raise e))
        ⊎ ((c : UpsertCache) × (build_upsert E b conflict update insert opts nz ≡ pure c))
  unfolding build_upsert
  built_or_fails b conflict update insert nz =
      raise_or_pure
        (b && length (B.update_column_set update user_all_columns user_primary_key_columns) == 0) _
        _

  -- `Upsert`, in a process without hooks whose calls have the same options and whose cache holds under
  -- each key what was built for arguments with that key, returns what it would return without the
  -- cache, with the same changes to the objects and the database; and the cache stays like that, so
  -- that this holds of each next call with these options.
  pub upsert-uncached :
      (conn : Conn S.Tx) (o : UserPtr) (b : Bool) (conflict : List Column) (update insert : Columns)
      (w : World S)
      → E.hooks ≡ no_hooks
      → All IsBuilt w.upsert_cache
      → SameButCache
          (upsert E conn (some o) b conflict update insert opts w)
          (upsert_uncached conn o b conflict update insert w)
  unfolding upsert upsert_uncached
  upsert-uncached conn o b conflict update insert w quiet built =
      elim (Option-cases (w.heap.cell o)) [
        | inl gone ↦ rw (stamp_user-panic E w o gone) (refl, refl, refl, built)
        | inr (u, here) ↦
            let u' : User = record u { columns = stamp E u.columns } in
            let nz = B.non_zero_default_set user_columns_with_default (stamp E u.columns) in
            let key = upsert_key b conflict update insert nz in
            rw
              (
                stamp_user_lem E w o u here,
                before_upsert-pure E.hooks quiet E.ctx conn o,
                after_upsert-pure E.hooks quiet E.ctx conn o,
                get_written w o u',
              )
              (elim (Option-cases (lookup_cache key w.upsert_cache)) [
                | inl missed ↦ elim (built_or_fails b conflict update insert nz) [
                  | inl (e, fails) ↦ rw (missed, fails) (refl, refl, refl, built)
                  | inr (c, builds) ↦
                      rw (missed, builds)
                        (upsert_same conn o u' none key c (written o u' w) built
                          (λ _. (b, conflict, update, insert, nz, refl, builds)))
                ]
                | inr (c, hit) ↦
                    let (b', conflict', update', insert', nz', key', builds) =
                      lookup_cache-All IsBuilt key c w.upsert_cache built hit in
                    let (p, q, r, s, t) =
                      upsert_key-injective b' b conflict' conflict update' update insert' insert nz'
                        nz (sym key') in
                    let whole : build_upsert E b conflict update insert opts nz ≡ pure c =
                      sym (λ i. build_upsert E (p i) (q i) (r i) (s i) opts (t i)) ∙ builds in
                    rw (hit, whole)
                      (upsert_same conn o u' (some c) key c (written o u' w) built (λ e. cc))
              ])
      ]
