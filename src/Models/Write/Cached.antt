-- ===== src/Models/Write/Cached.antt =====
-- models/users.go: `Update` with its cache of statements does what it would do without one.
use mathlib.Core.Path.{subst}
use mathlib.Core.Option.{some-injective}
use users_api.Base.{
  Option-cases, ℕ, String, false, Option, none, some, List, [], ◌∷◌, ◌≡◌, refl, sym, ap, ◌∙◌, All,
  map, length, Bool-cases, inl, inr, ==→≡, ◌==◌, nat_eq, string_eq,
}
use users_api.Go.Result.{Result, ok, err, panic, map_err, Attempt, attempt}
use users_api.Go.Error.{wrap}
use users_api.Go.Exec.{Exec, pure, lift, wrapping, continue, ◌>>=◌, ◌>>◌}
use users_api.Models.User.{Column, UserPtr, column_value}
use users_api.Models.Sql.{Conn, Statement, update_columns}
use users_api.Models.World.{World, UpdateCache, get_user, change_db, with_db}
use users_api.Models.Hooks.{no_hooks}
use users_api.Models.Hooks.None.{before_update-pure, after_update-pure}
use users_api.Models.Env.{Env, Columns}
use users_api.Models.Cache.{lookup_cache}
use users_api.Models.CacheKey.{make_cache_key}
use users_api.Models.CacheKey.Injective.{make_cache_key-injective}
use users_api.Models.Write.{exec_rows, update_whitelist, store_update, build_update, update}

-- What is found in a cache was put there under the key.
pub lookup_cache-All :
    {C : Type 0} (P : String × C → Type 0) (key : String) (c : C) (cache : List (String × C))
    → All P cache
    → lookup_cache key cache ≡ some c
    → P (key, c)
lookup_cache-All P key c [] h e = cc
lookup_cache-All P key c ((k, d) ∷ rest) h e = elim (Bool-cases (key == k)) [
  | inl same ↦
      let p : k ≡ key = sym (==→≡ key k same) in
      let q : d ≡ c = some-injective d c (rw same at e) in subst P (λ i. (p i, q i)) h.0
  | inr differ ↦ lookup_cache-All P key c rest h.1 (rw differ at e)
]

module _ (E : Env) where
  open E use {sql as S}

  -- An entry holds the columns that would be built for a set of columns with its key.
  abbrev pub IsBuilt : String × UpdateCache → Type 0
  IsBuilt (key, c) =
      (columns : Columns) × (key ≡ make_cache_key columns [])
      × (c.columns ≡ update_whitelist E columns)
      × ((length (update_whitelist E columns) == 0) ≡ false)

  -- `Update` without a cache.
  unfoldable pub update_uncached : Conn S.Tx → UserPtr → Columns → Exec (World S) ℕ
  unfolding build_update get_user exec_rows
  update_uncached conn o columns = do
    cache ← build_update E columns
    u ← get_user o
    exec_rows E "models: unable to update users row"
        "models: failed to get rows affected by update for users" conn
        (update_columns cache.columns (map (λ c. column_value c u.columns) cache.columns) u.id)

  -- The same outcome but for the cache, which stays as it should be.
  abbrev pub SameButCache : Result ℕ × World S → Result ℕ × World S → Type 0
  SameButCache (r, w) (s, v) =
      (r ≡ s) × (w.heap ≡ v.heap) × (w.db ≡ v.db) × All IsBuilt w.update_cache

  -- What is left of `update` behind the statement.
  abbrev finish : Option UpdateCache → String → UpdateCache → ℕ → Exec (World S) ℕ
  finish cached key c n = do store_update E cached key c; pure n

  finish_same :
      (r : Result ℕ) (v : World S) (cached : Option UpdateCache) (key : String) (c : UpdateCache)
      → All IsBuilt v.update_cache
      → (cached ≡ none → IsBuilt (key, c))
      → SameButCache (continue r (finish cached key c) v) (r, v)
  unfolding store_update
  finish_same (ok n) v none key c h b = (refl, refl, refl, (b refl, h))
  finish_same (ok n) v (some d) key c h b = (refl, refl, refl, h)
  finish_same (err e) v cached key c h b = (refl, refl, refl, h)
  finish_same (panic why) v cached key c h b = (refl, refl, refl, h)

  exec_rows-cache :
      (failed uncounted : String) (conn : Conn S.Tx) (statement : Statement) (w : World S)
      → (exec_rows E failed uncounted conn statement w).1.update_cache ≡ w.update_cache
  unfolding exec_rows change_db
  exec_rows-cache failed uncounted conn statement w =
      go (attempt (S.exec conn statement w.db).0) (with_db (S.exec conn statement w.db).1 w)
    where
      go :
          (r : Result (Attempt ℕ)) (v : World S)
          → (continue
              (map_err (λ e. wrap e failed) r)
              (λ x. wrapping (λ e. wrap e uncounted) (lift (attempt x)))
              v).1.update_cache
            ≡ v.update_cache
      go (ok n) v = refl
      go (err e) v = refl
      go (panic why) v = refl

  -- The statement of `update`, from the object on.
  abbrev pub write_columns : Conn S.Tx → UserPtr → List Column → Exec (World S) ℕ
  write_columns conn o cols = do
    u ← get_user o
    exec_rows E "models: unable to update users row"
        "models: failed to get rows affected by update for users" conn
        (update_columns cols (map (λ c. column_value c u.columns) cols) u.id)

  pub write_columns-cache :
      (conn : Conn S.Tx) (o : UserPtr) (cols : List Column) (w : World S)
      → (write_columns conn o cols w).1.update_cache ≡ w.update_cache
  unfolding get_user
  write_columns-cache conn o cols w = elim (Option-cases (w.heap.cell o)) [
    | inl gone ↦ rw (gone, get_user) refl
    | inr (u, here) ↦
        rw (here, get_user)
          (exec_rows-cache "models: unable to update users row"
            "models: failed to get rows affected by update for users" conn
            (update_columns cols (map (λ c. column_value c u.columns) cols) u.columns.id) w)
  ]

  write_same :
      (conn : Conn S.Tx) (o : UserPtr) (cached : Option UpdateCache) (key : String)
      (c : UpdateCache) (w : World S)
      → All IsBuilt w.update_cache
      → (cached ≡ none → IsBuilt (key, c))
      → SameButCache
          ((write_columns conn o c.columns >>= finish cached key c) w)
          (write_columns conn o c.columns w)
  write_same conn o cached key c w h b =
      finish_same (write_columns conn o c.columns w).0 (write_columns conn o c.columns w).1 cached
        key c (rw (write_columns-cache conn o c.columns w) h) b

  update_rest : Conn S.Tx → UserPtr → Option UpdateCache → String → UpdateCache → Exec (World S) ℕ
  update_rest conn o cached key c = do
    u ← get_user o
    n ←
        exec_rows E "models: unable to update users row"
          "models: failed to get rows affected by update for users" conn
          (update_columns c.columns (map (λ x. column_value x u.columns) c.columns) u.id)
    finish cached key c n

  rest_same :
      (conn : Conn S.Tx) (o : UserPtr) (cached : Option UpdateCache) (key : String)
      (c : UpdateCache) (w : World S)
      → update_rest conn o cached key c w
        ≡ (write_columns conn o c.columns >>= finish cached key c) w
  unfolding update_rest get_user
  rest_same conn o cached key c w = elim (Option-cases (w.heap.cell o)) [
    | inl gone ↦ rw (gone, get_user) refl
    | inr (u, here) ↦ rw (here, get_user) refl
  ]

  rest_as_write :
      (conn : Conn S.Tx) (o : UserPtr) (cached : Option UpdateCache) (key : String)
      (c : UpdateCache) (w : World S)
      → All IsBuilt w.update_cache
      → (cached ≡ none → IsBuilt (key, c))
      → SameButCache (update_rest conn o cached key c w) (write_columns conn o c.columns w)
  rest_as_write conn o cached key c w h b =
      rw (rest_same conn o cached key c w) (write_same conn o cached key c w h b)

  -- `Update`, in a process without hooks whose cache holds under each key what was built for a set of
  -- columns with that key, returns what it would return without the cache, with the same changes to
  -- the objects and the database; and the cache stays like that, so that this holds of each next call.
  pub update-uncached :
      (conn : Conn S.Tx) (o : UserPtr) (columns : Columns) (w : World S)
      → E.hooks ≡ no_hooks
      → All IsBuilt w.update_cache
      → SameButCache (update E conn o columns w) (update_uncached conn o columns w)
  unfolding update update_uncached build_update update_rest
  update-uncached conn o columns w quiet built =
      let key = make_cache_key columns [] in
      rw
        (
          before_update-pure E.hooks quiet E.ctx conn o,
          after_update-pure E.hooks quiet E.ctx conn o,
        )
        (elim (Option-cases (lookup_cache key w.update_cache)) [
          | inl missed ↦ elim (Bool-cases (length (update_whitelist E columns) == 0)) [
            | inl empty ↦ rw (missed, empty) (refl, refl, refl, built)
            | inr full ↦
                rw (missed, full)
                  (rest_as_write conn o none key (record { columns = update_whitelist E columns }) w
                    built (λ _. (columns, refl, refl, full)))
          ]
          | inr (c, hit) ↦
              let (columns', key', cols, full) =
                lookup_cache-All IsBuilt key c w.update_cache built hit in
              let same = (make_cache_key-injective columns' columns [] [] (sym key')).0 in
              let whitelist : c.columns ≡ update_whitelist E columns =
                cols ∙ ap (update_whitelist E) same in
              let full' : (length (update_whitelist E columns) == 0) ≡ false =
                sym (ap (λ x. length (update_whitelist E x) == 0) same) ∙ full in
              rw (hit, full', sym whitelist) (rest_as_write conn o (some c) key c w built (λ e. cc))
        ])
