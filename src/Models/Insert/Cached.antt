-- ===== src/Models/Insert/Cached.antt =====
-- models/users.go: `Insert` with its cache of statements does what it would do without one.
use mathlib.Core.Path.{subst}
use users_api.Base.{
  ℕ, String, Option, none, some, List, ◌≡◌, refl, sym, ◌∙◌, All, map, length, Bool-cases,
  Option-cases, inl, inr, ◌==◌, nat_eq,
}
use users_api.Go.Error.{wrap}
use users_api.Go.Result.{Result, ok, err, panic, Attempt, attempt}
use users_api.Go.Exec.{Exec, pure, wrapping, continue, ◌>>=◌, ◌>>◌}
use users_api.Models.User.{User, Column, UserPtr, column_value, user_columns_with_default}
use users_api.Models.Sql.{Conn, Statement, insert_row}
use users_api.Models.World.{World, InsertCache, get_user, put_user, change_db, with_db}
use users_api.Models.Objects.{written, get_written}
use users_api.Models.Hooks.{no_hooks}
use users_api.Models.Hooks.None.{before_insert-pure, after_insert-pure}
use users_api.Models.Env.{Env, Columns}
use users_api.Models.Cache.{lookup_cache}
use users_api.Models.CacheKey.{make_cache_key}
use users_api.Models.CacheKey.Injective.{make_cache_key-injective}
use users_api.Models.Write.Cached.{lookup_cache-All}
use users_api.Models.Insert.{
  stamp, stamp_user, query_row, exec_only, run_insert, build_insert, store_insert, insert,
}
use users_api.Models.Insert.Options.{stamp_user_lem}

module _ (E : Env) where
  open E use {sql as S, boil as B}

  -- An entry is what would be built for a set of columns and defaults with its key.
  abbrev pub IsBuilt : String × InsertCache → Type 0
  IsBuilt (key, c) =
      (columns : Columns) × (nz : List Column) × (key ≡ make_cache_key columns nz)
      × (c ≡ build_insert E columns nz)

  -- The statement of an insertion, for what was built.
  abbrev pub insert_columns : Conn S.Tx → UserPtr → User → InsertCache → Exec (World S) (Unit {0})
  insert_columns conn o u c =
      wrapping (λ e. wrap e "models: unable to insert into users")
        (run_insert E conn
          (insert_row c.columns (map (λ x. column_value x u.columns) c.columns) c.returned)
          c.returned o u)

  -- `Insert` without hooks and without a cache.
  unfoldable pub insert_uncached : Conn S.Tx → UserPtr → Columns → Exec (World S) (Unit {0})
  unfolding stamp_user get_user build_insert run_insert
  insert_uncached conn o columns = do
    stamp_user E o
    u ← get_user o
    insert_columns conn o u
        (build_insert E columns (B.non_zero_default_set user_columns_with_default u.columns))

  -- The same outcome but for the cache, which stays as it should be.
  abbrev pub SameButCache : Result (Unit {0}) × World S → Result (Unit {0}) × World S → Type 0
  SameButCache (r, w) (s, v) =
      (r ≡ s) × (w.heap ≡ v.heap) × (w.db ≡ v.db) × All IsBuilt w.insert_cache

  abbrev finish : Option InsertCache → String → InsertCache → Exec (World S) (Unit {0})
  finish cached key c = do store_insert E cached key c; pure tt

  finish_same :
      (r : Result (Unit {0})) (v : World S) (cached : Option InsertCache) (key : String)
      (c : InsertCache)
      → All IsBuilt v.insert_cache
      → (cached ≡ none → IsBuilt (key, c))
      → SameButCache (continue r (λ _. finish cached key c) v) (r, v)
  unfolding store_insert
  finish_same (ok n) v none key c h b = (refl, refl, refl, (b refl, h))
  finish_same (ok n) v (some d) key c h b = (refl, refl, refl, h)
  finish_same (err e) v cached key c h b = (refl, refl, refl, h)
  finish_same (panic why) v cached key c h b = (refl, refl, refl, h)

  run_insert-cache :
      (conn : Conn S.Tx) (statement : Statement) (returned : List Column) (o : UserPtr) (u : User)
      (w : World S)
      → (run_insert E conn statement returned o u w).1.insert_cache ≡ w.insert_cache
  unfolding run_insert query_row exec_only put_user change_db
  run_insert-cache conn statement returned o u w = elim (Bool-cases (length returned == 0)) [
    | inl empty ↦ rw empty (
        dropped (attempt (S.exec conn statement w.db).0) (with_db (S.exec conn statement w.db).1 w))
    | inr full ↦ rw full refl
  ]
    where
      dropped :
          (r : Result (Attempt ℕ)) (v : World S)
          → (continue r (λ _. pure (tt {0})) v).1.insert_cache ≡ v.insert_cache
      dropped (ok n) v = refl
      dropped (err e) v = refl
      dropped (panic why) v = refl

  insert_same :
      (conn : Conn S.Tx) (o : UserPtr) (u : User) (cached : Option InsertCache) (key : String)
      (c : InsertCache) (w : World S)
      → All IsBuilt w.insert_cache
      → (cached ≡ none → IsBuilt (key, c))
      → SameButCache
          ((insert_columns conn o u c >> finish cached key c) w)
          (insert_columns conn o u c w)
  insert_same conn o u cached key c w h b =
      finish_same (insert_columns conn o u c w).0 (insert_columns conn o u c w).1 cached key c
        (rw
          (run_insert-cache conn
            (insert_row c.columns (map (λ x. column_value x u.columns) c.columns) c.returned)
            c.returned o u w)
          h)
        b

  pub stamp_user-panic :
      (w : World S) (o : UserPtr)
      → w.heap.cell o ≡ none
      → stamp_user E o w ≡ (panic "nil pointer", w)
  unfolding stamp_user get_user
  stamp_user-panic w o gone = rw (gone, get_user) refl

  -- `Insert`, in a process without hooks whose cache holds under each key what was built for columns
  -- and defaults with that key, returns what it would return without the cache, with the same changes
  -- to the objects and the database; and the cache stays like that, so that this holds of each next
  -- call.
  pub insert-uncached :
      (conn : Conn S.Tx) (o : UserPtr) (columns : Columns) (w : World S)
      → E.hooks ≡ no_hooks
      → All IsBuilt w.insert_cache
      → SameButCache (insert E conn (some o) columns w) (insert_uncached conn o columns w)
  unfolding insert insert_uncached
  insert-uncached conn o columns w quiet built = elim (Option-cases (w.heap.cell o)) [
    | inl gone ↦ rw (stamp_user-panic w o gone) (refl, refl, refl, built)
    | inr (u, here) ↦
        let u' : User = record u { columns = stamp E u.columns } in
        let nz = B.non_zero_default_set user_columns_with_default (stamp E u.columns) in
        let key = make_cache_key columns nz in
        rw
          (
            stamp_user_lem E w o u here,
            before_insert-pure E.hooks quiet E.ctx conn o,
            after_insert-pure E.hooks quiet E.ctx conn o,
            get_written w o u',
          )
          (elim (Option-cases (lookup_cache key w.insert_cache)) [
            | inl missed ↦ rw missed (
                insert_same conn o u' none key (build_insert E columns nz) (written o u' w) built
                  (λ _. (columns, nz, refl, refl)))
            | inr (c, hit) ↦
                let (columns', nz', key', c') =
                  lookup_cache-All IsBuilt key c w.insert_cache built hit in
                let (same, same') = make_cache_key-injective columns' columns nz' nz (sym key') in
                let whole : c ≡ build_insert E columns nz =
                  c' ∙ (λ i. build_insert E (same i) (same' i)) in
                rw hit (
                  subst
                    (λ (b : InsertCache).
                      SameButCache
                        ((insert_columns conn o u' c >> finish (some c) key c) (written o u' w))
                        (insert_columns conn o u' b (written o u' w)))
                    whole (insert_same conn o u' (some c) key c (written o u' w) built (λ e. cc)))
          ])
  ]
