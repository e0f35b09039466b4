-- ===== src/Tests/Writes.antt =====
-- The theorems on what the generated models write, and on their caches, at concrete inputs where their
-- hypotheses hold.
use users_api.Models.User.{
  user_all_columns, Column, column_name, User, UserR, user_columns_with_default,
}
use users_api.Models.UpsertQuery.{
  build_upsert_query_postgres, dialect, join, assignments, upsert_conflict_target,
}
use users_api.Models.Insert.{
  build_upsert, conflict_columns, insert, build_insert, upsert_key, upsert,
}
use users_api.Models.Insert.Merged as Merged
use users_api.Models.Insert.Merged.{upsert_uncached, upsert-uncached}
use mathlib.Core.List.{Mem, mem-cons_self, Perm}
use users_api.Base.{
  ℕ, String, true, false, none, some, List, [], ◌∷◌, ◌≡◌, refl, if◌then◌else◌, map, arith, nat_eq,
  string_eq, ◌==◌,
}
use users_api.Go.Error.{message, wrap}
use users_api.Go.Result.{ok, err, done, failed}
use users_api.Go.Null.{Null, null_eq}
use users_api.Models.Sql.{Sql, writer}
use users_api.Models.World.{World, UpsertCache}
use users_api.Models.Objects.{written}
use users_api.Models.Hooks.{no_hooks}
use users_api.Models.Env.{Env, Columns}
use users_api.Models.CacheKey.{make_cache_key}
use users_api.Models.CacheKey.Injective.{make_cache_key-injective}
use users_api.Models.Write.{update, update_whitelist}
use users_api.Models.Write.Cached.{SameButCache, update_uncached, update-uncached}
use users_api.Models.Insert.Cached as Insert
use users_api.Models.Insert.Cached.{insert_uncached, insert-uncached}
use users_api.Models.Insert.Key.{upsert_key-injective}
use users_api.Models.Insert.Options.{upsert-ignores_options}
use users_api.Models.UpsertQuery.Text.{assignment, assignments-columns}
use users_api.Models.Related.{detach, set_referring_user, forget_referrer}
use users_api.Models.Related.Detach.{remove_first, detach-Perm}
use users_api.Models.Related.Links.{Linked, set_referring_user-Linked, set_referring_user-err}
use users_api.Models.Related.Forget.{forget_referrer-keeps}
use users_api.Tests.Memory.{memory}
use users_api.Tests.Fixture.{library, env, row, held_world}

abbrev columns : Columns
columns = record { kind = 2; cols = Column.migrated_at ∷ Column.email_address ∷ [] }

-- A world whose cache has the statement of an earlier update.
abbrev cached_world : World memory
cached_world = record held_world {
  update_cache = (make_cache_key columns [], record { columns = Column.migrated_at ∷ [] }) ∷ [];
}

update-uncached_example :
    SameButCache env
      (update env writer 0 columns cached_world)
      (update_uncached env writer 0 columns cached_world)
unfolding update_whitelist nat_eq
update-uncached_example =
    update-uncached env writer 0 columns cached_world refl ((columns, refl, refl, refl), tt)

-- The same for an earlier insertion.
abbrev inserted_world : World memory
inserted_world = record held_world {
  insert_cache =
      (
        make_cache_key columns user_columns_with_default,
        build_insert env columns user_columns_with_default,
      )
      ∷ [];
}

insert-uncached_example :
    Insert.SameButCache env
      (insert env writer (some 0) columns inserted_world)
      (insert_uncached env writer 0 columns inserted_world)
insert-uncached_example =
    insert-uncached env writer 0 columns inserted_world refl
      ((columns, user_columns_with_default, refl, refl), tt)

make_cache_key-injective_example : (columns ≡ columns) × (Column.id ∷ [] ≡ Column.id ∷ [])
make_cache_key-injective_example =
    make_cache_key-injective columns columns (Column.id ∷ []) (Column.id ∷ []) refl

upsert_key-injective_example :
    (true ≡ true)
    × (Column.id ∷ [] ≡ Column.id ∷ [])
    × (columns ≡ columns)
    × (columns ≡ columns)
    × (Column.id ∷ [] ≡ Column.id ∷ [])
upsert_key-injective_example =
    upsert_key-injective true true (Column.id ∷ []) (Column.id ∷ []) columns columns columns columns
      (Column.id ∷ []) (Column.id ∷ []) refl

detach-Perm_example : Perm (detach 1 (0 ∷ 1 ∷ 2 ∷ 3 ∷ [])) (remove_first 1 (0 ∷ 1 ∷ 2 ∷ 3 ∷ []))
detach-Perm_example = detach-Perm 1 (0 ∷ 1 ∷ 2 ∷ 3 ∷ [])

assignments-columns_example :
    assignments library dialect 0 (map column_name columns.cols)
    ≡ join "," (map (assignment library dialect) (map column_name columns.cols))
assignments-columns_example = assignments-columns library dialect columns.cols

-- Two objects at the pointers 0 and 1, the second with the first in its list.
abbrev pub first : User
first = record { columns = record row { referring_user_id = library.key_assign "u2" }; r = none }

abbrev second_r : UserR
second_r = record { referring_user = none; referring_user_users = 0 ∷ [] }

abbrev pub second : User
second = record { columns = record row { id = "u2" }; r = some second_r }

abbrev pub pair_world : World memory
pair_world = record held_world {
  heap = record { next = 2; cell = λ p. some (if p == 0 then first else second) };
}

set_referring_user-Linked_example :
    ((set_referring_user env writer false 0 1 pair_world).0 ≡ ok tt)
    × Linked env pair_world
        (set_referring_user env writer false 0 1 pair_world).1
        0
        1
        first
        second
        (some row)
unfolding nat_eq string_eq
set_referring_user-Linked_example =
    set_referring_user-Linked env pair_world writer 0 1 first second (done 1) (some row)
      (λ e. absurd (omega (arith, e))) refl refl refl

-- A database on which no statement succeeds.
abbrev refusing : Sql
refusing = record memory { exec = λ conn statement d. (failed (message "refused"), d) }

abbrev refusing_env : Env
refusing_env = record {
  sql = refusing;
  library = env.library;
  boil = env.boil;
  ctx = env.ctx;
  hooks = no_hooks;
  now = env.now;
}

abbrev refusing_world : World refusing
refusing_world = record {
  heap = pair_world.heap;
  db = some row;
  update_cache = [];
  insert_cache = [];
  upsert_cache = [];
}

set_referring_user-err_example :
    set_referring_user refusing_env writer false 0 1 refusing_world
    ≡ (err (wrap (message "refused") "failed to update local table"), refusing_world)
unfolding nat_eq
set_referring_user-err_example =
    set_referring_user-err refusing_env refusing_world writer 0 1 first second (message "refused")
      (some row) refl refl refl

key_equal_refl : (k : Null String) → library.key_equal k k ≡ true
key_equal_refl k = ground arith

forget_referrer-keeps_example :
    (ps : List ℕ) × Mem 0 ps
    × (forget_referrer env 0 (some 1) pair_world ≡ (
      ok tt,
      written 1
          (record second { r = some (record second_r { referring_user_users = ps }) })
          pair_world,
    ))
unfolding nat_eq
forget_referrer-keeps_example =
    forget_referrer-keeps env pair_world 0 1 first second second_r key_equal_refl refl refl
      ((first, refl), tt) mem-cons_self

-- A world whose cache has the statement of an earlier upsert.
abbrev upsert_entry : UpsertCache
upsert_entry = record { query = "INSERT"; columns = Column.id ∷ []; returned = [] }

abbrev upsert_world : World memory
upsert_world = record held_world {
  upsert_cache =
      (upsert_key true (Column.id ∷ []) columns columns user_columns_with_default, upsert_entry)
      ∷ [];
}

upsert-ignores_options_example :
    upsert env writer (some 0) true (Column.id ∷ []) columns columns [] upsert_world
    ≡ upsert env writer
        (some 0)
        true
        (Column.id ∷ [])
        columns
        columns
        (upsert_conflict_target "(lower(email_address))" ∷ [])
        upsert_world
unfolding string_eq upsert_key nat_eq
upsert-ignores_options_example =
    upsert-ignores_options env writer 0 true (Column.id ∷ []) columns columns []
      (upsert_conflict_target "(lower(email_address))" ∷ []) (record { columns = row; r = none })
      upsert_entry upsert_world refl refl refl

-- The entry of the options that are none.
abbrev merged_entry : UpsertCache
merged_entry = record {
  query =
      build_upsert_query_postgres library dialect "\"users_api\".\"users\"" true
        (map column_name user_all_columns) (map column_name (Column.migrated_at ∷ []))
        (map column_name (Column.id ∷ [])) (map column_name user_all_columns) [];
  columns = user_all_columns;
  returned = user_all_columns;
}

abbrev merged_world : World memory
merged_world = record held_world {
  upsert_cache =
      (upsert_key true (Column.id ∷ []) columns columns user_columns_with_default, merged_entry)
      ∷ [];
}

upsert-uncached_example :
    Merged.SameButCache env []
      (upsert env writer (some 0) true (Column.id ∷ []) columns columns [] merged_world)
      (upsert_uncached env [] writer 0 true (Column.id ∷ []) columns columns merged_world)
unfolding build_upsert nat_eq conflict_columns
upsert-uncached_example =
    upsert-uncached env [] writer 0 true (Column.id ∷ []) columns columns merged_world refl
      ((true, Column.id ∷ [], columns, columns, user_columns_with_default, refl, refl), tt)
