-- ===== src/Controllers/Preferred.antt =====
-- internal/controllers/user_controller.go: whom `GetUser` shows, which may prefer the row of the
-- claimed address.
use mathlib.Core.Path.{subst, subst₂}
use mathlib.Core.Option.{some-injective}
use users_api.Base.{
  String, Option, none, some, ◌≡◌, refl, ◌∙◌, sym, ap, ◌⊎◌, inl, inr, ◌==◌, string_eq, Bool-cases,
  if◌then◌else◌,
}
use users_api.Go.Result.{ok}
use users_api.Go.Exec.{pure, lift, ◌>>◌}
use users_api.Go.Null.{Address}
use users_api.Models.User.{Row, UserPtr, User, column_value}
use users_api.Models.Where.{where_eq_null}
use users_api.Models.Sql.{reader}
use users_api.Models.World.{Heap, World, get_user, put_user}
use users_api.Models.Select.{users, one}
use users_api.Models.Laws.{IsLawful, PlainQuery, SameNull, In}
use users_api.Models.Runs.{
  IsWf, Extends, Runs, Ends, HasR-Extends, HasColumns-Extends, bind-Ends, Runs-Ends, reason-Runs,
}
use users_api.Models.Runs.Steps.{
  pure-Runs, lift-Runs, wrapping-Runs, weaken-Runs, get_user-Runs, bind-Runs_Ends, weaken-Ends,
  try-Ends,
}
use users_api.Models.Runs.Writing.{put_user-Ends}
use users_api.Models.Runs.Related.{NoSelectHooks}
use users_api.Models.Runs.Finish.{one-Runs}
use users_api.Controllers.Types.{UserResponse, json_user, UserController}
use users_api.Controllers.Request.{Request, get_user_id, get_user_eth_addr}
use users_api.Controllers.GetUser.{
  by_id_query, by_eth_query, get_or_create_user, get_user_by_eth, prefer, better_user, respond_user,
  get_user_v1,
}
use users_api.Controllers.Shown.{Details, respond_user-Runs}
use users_api.Controllers.Answers.{Object, ByIdFails, by_id-Runs, seen}
use users_api.Controllers.Confirmed.{ByEthFails}

module _ (C : UserController) (quiet : NoSelectHooks C.env) (lawful : IsLawful C.env.sql) where
  open C.env use {sql as S, library as L}

  -- The row whose details `GetUser` shows: the subject's, or one that has the claimed address.
  abbrev pub Eligible : Option Address → String → Row → Type 0
  Eligible claimed user_id row =
      (row.id ≡ user_id)
      ⊎ ((a : Address) × (claimed ≡ some a) × SameNull row.ethereum_address (L.bytes_from (some a)))

  -- The object is that of an eligible row, but for its id, which is the subject's.
  abbrev ShownObject : Option Address → String → World S → UserPtr → World S → Type 0
  ShownObject claimed user_id w p v =
      (row : Row) × In row (lawful.table reader w.db)
      × Eligible claimed user_id row
      × Object v.heap p (record row { id = user_id })

  -- The query by address finds a row of that address.
  by_eth-Runs :
      (w : World S)
      → IsWf w.heap
      → (a : Address)
      → Runs (ByEthFails C a w.db) w (get_user_by_eth C a w) (λ p v.
        (row : Row) × Object v.heap p row
        × In row (lawful.table reader w.db)
        × SameNull row.ethereum_address (L.bytes_from (some a)))
  unfolding get_user_by_eth users where_eq_null column_value
  by_eth-Runs w wf a =
      let plain : PlainQuery (record (by_eth_query C a) { limit = some 1 }) =
        (refl, (tt, (tt, (inl refl, (refl, tt))))) in
      weaken-Runs (get_user_by_eth C a) (one-Runs C.env quiet w wf reader (by_eth_query C a) tt)
        λ p v _ f. (
          f.row,
          record { columns = f.columns; relations = f.relations refl },
          lawful.bind_one_in reader _ w.db f.row plain f.bound,
          (lawful.bind_one_meets reader _ w.db f.row plain f.bound).0,
        )

  -- The columns of an object that was read.
  read_columns :
      {h : Heap} {row : Row} (p : UserPtr) (u : User)
      → Object h p row
      → h.cell p ≡ some u
      → u.columns ≡ row
  read_columns p u o e =
      ap (λ (y : User). y.columns) (some-injective u o.columns.user (sym e ∙ o.columns.here))
      ∙ o.columns.same

  Object-Extends :
      {h i : Heap} {row : Row} (p : UserPtr) → Extends h i → Object h p row → Object i p row
  Object-Extends p x o = record {
    columns = HasColumns-Extends p x o.columns;
    relations = HasR-Extends p x o.relations;
  }

  -- The better object under the subject's id.
  rename-Ends :
      {F : Type 0}
      → (w : World S) → IsWf w.heap
      → (p : UserPtr) (b : User) (own other : Row) (user_id : String) → Object w.heap p other
      → w.heap.cell p ≡ some b
      → Ends F w
          ((put_user p (record b { columns = record b.columns { id = user_id } }) >> pure p) w)
          (λ q v. Object v.heap q own ⊎ Object v.heap q (record other { id = user_id }))
  rename-Ends w wf p b own other user_id o e =
      let r = o.relations in
      let loaded : b.r ≡ some r.relations =
        ap (λ (y : User). y.r) (some-injective b r.user (sym e ∙ r.here)) ∙ r.loaded in
      bind-Ends (put_user p (record b { columns = record b.columns { id = user_id } })) _
        (put_user-Ends w wf p _ (record {
          below = r.below;
          old = b;
          here = e;
          relations = r.relations;
          loaded = loaded;
          closed = λ q. wf.closed p b r.relations q e loaded;
        }))
        λ _ v wfv _ (relations, columns). Runs-Ends (pure p) (
          pure-Runs p wfv (
            inr (record {
              relations = relations;
              columns = record {
                below = columns.below;
                user = columns.user;
                here = columns.here;
                same =
                    columns.same
                    ∙ ap (λ (row : Row). record row { id = user_id }) (read_columns p b o e);
              };
            })))

  choose :
      {F : Type 0}
      → (w : World S) → IsWf w.heap
      → (i j : String) (user better : UserPtr) (x : User) (own other : Row) (user_id : String)
      → Object w.heap user own
      → Object w.heap better other
      → w.heap.cell better ≡ some x
      → Ends F w
          ((if i == j
              then pure user
              else (put_user better (record x { columns = record x.columns { id = user_id } })
                  >> pure better))
            w)
          (λ p v. Object v.heap p own ⊎ Object v.heap p (record other { id = user_id }))
  choose w wf i j user better x own other user_id a b e = elim (Bool-cases (i == j)) [
    | inl same ↦ rw same (Runs-Ends (pure user) (pure-Runs user wf (inl a)))
    | inr differ ↦ rw differ (rename-Ends w wf better x own other user_id b e)
  ]

  -- Whichever object `prefer` takes, its id is the subject's.
  prefer-Ends :
      {F : Type 0}
      → (w : World S) → IsWf w.heap
      → (user better : UserPtr) (own other : Row) (user_id : String) → own.id ≡ user_id
      → Object w.heap user own
      → Object w.heap better other
      → Ends F w
          (prefer C user_id user better w)
          (λ p v. Object v.heap p own ⊎ Object v.heap p (record other { id = user_id }))
  unfolding prefer
  prefer-Ends w wf user better own other user_id key a b =
      bind-Runs_Ends (get_user user) _ (get_user-Runs w wf user a.columns.below) λ u v wfv xv _ eu.
        bind-Runs_Ends (get_user better) _
          (get_user-Runs v wfv better (HasColumns-Extends better xv b.columns).below)
          λ x z wfz xz _ ex.
            choose z wfz u.columns.id x.columns.id user better x own other user_id
              (Object-Extends user xz (Object-Extends user xv a))
              (Object-Extends better xz (Object-Extends better xv b)) ex

  -- The subject's own object is that of its row.
  own-Object :
      {h : Heap} {own : Row} {user_id : String} (p : UserPtr)
      → own.id ≡ user_id
      → Object h p own
      → Object h p (record own { id = user_id })
  own-Object {own} p key o = record {
    relations = o.relations;
    columns = record {
      below = o.columns.below;
      user = o.columns.user;
      here = o.columns.here;
      same = o.columns.same ∙ λ i. record own { id = key i };
    };
  }

  better-Ends :
      {F : Type 0}
      → (w : World S) → IsWf w.heap
      → (user_id : String) (claimed : Option Address) (user : UserPtr) (own : Row)
      → own.id ≡ user_id
      → In own (lawful.table reader w.db)
      → Object w.heap user own
      → Ends F w (better_user C user_id claimed user w) (ShownObject claimed user_id w)
  unfolding better_user
  better-Ends w wf user_id none user own key stored o =
      Runs-Ends (pure user) (pure-Runs user wf (own, stored, inl key, own-Object user key o))
  better-Ends w wf user_id (some a) user own key stored o =
      try-Ends (get_user_by_eth C a) (λ better. prefer C user_id user better) (λ _. pure user)
        (by_eth-Runs w wf a)
        (λ better v wfv x db (other, b, found, same).
          weaken-Ends (prefer C user_id user better)
            (prefer-Ends v wfv user better own other user_id key (Object-Extends user x o) b)
            λ p z shown. elim shown [
              | inl mine ↦ (own, stored, inl key, own-Object p key mine)
              | inr theirs ↦ (other, found, inr (a, refl, same), theirs)
            ])
        (λ e v wfv x db _. Runs-Ends (pure user) (
          pure-Runs user wfv (own, stored, inl key, own-Object user key (Object-Extends user x o))))

  pub get_user_v1-Details :
      (w : World S) (c : Request) (user_id : String) (claimed : Option Address)
      → IsWf w.heap
      → get_user_id c ≡ ok user_id
      → get_user_eth_addr L c ≡ ok claimed
      → Ends (ByIdFails C user_id w.db) w (get_user_v1 C c w) (λ a _.
        (out : UserResponse) × (row : Row) × (a ≡ json_user out)
        × In row (lawful.table reader w.db)
        × Eligible claimed user_id row
        × Details C (record row { id = user_id }) out)
  unfolding get_user_v1 get_or_create_user
  get_user_v1-Details w c user_id claimed wf subject address =
      bind-Runs_Ends (lift (get_user_id c)) _ (lift-Runs (get_user_id c) subject wf)
        λ s v wfv _ dv es.
          bind-Runs_Ends (get_or_create_user C s) _
            (reason-Runs (get_or_create_user C s) (subst₂ (ByIdFails C) es dv) (
              wrapping-Runs _ (one C.env reader (by_id_query s))
                (by_id-Runs C quiet lawful v wfv s)))
            λ p z wfz _ dz (row, object, stored, key).
              bind-Runs_Ends (lift (get_user_eth_addr L c)) _
                (lift-Runs (get_user_eth_addr L c) address wfz)
                λ b y wfy xy dy eb.
                  bind-Ends (better_user C s b p) _
                    (better-Ends y wfy s b p row key
                      (seen C quiet lawful row (sym (dy ∙ dz)) stored) (Object-Extends p xy object))
                    λ q x wfx dx (shown, found, eligible, o). Runs-Ends (respond_user C q) (
                      weaken-Runs (respond_user C q)
                        (respond_user-Runs C x wfx q _ o.columns o.relations)
                        λ a _ _ (out, sent, details). (
                          out,
                          shown,
                          sent,
                          seen C quiet lawful shown (dy ∙ dz ∙ dv) found,
                          subst₂ (λ (i : Option Address) (j : String). Eligible i j shown) eb es
                              eligible,
                          subst (λ (j : String). Details C (record shown { id = j }) out) es
                              details,
                        ))
