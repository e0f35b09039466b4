-- ===== src/Models/Load/Referrers.antt =====
-- models/users.go: `LoadReferringUser` links an object only to one that its foreign key names.
use mathlib.Core.Path.{subst}
use mathlib.Core.Option.{some-injective}
use mathlib.Core.List.{nil≢cons}
use users_api.Models.Runs.{HasColumns}
use users_api.Base.{
  map, inl, inr, Bool-cases, ◌<◌, String, true, some, List, [], ◌∷◌, ◌≡◌, refl, sym, ap, ◌∙◌, arith,
  All, if◌then◌else◌,
}
use users_api.Go.Null.{Null, null_eq}
use users_api.Models.User.{Column, null_text, Row, UserPtr, User}
use users_api.Models.Sql.{Conn}
use users_api.Models.World.{Heap, World, get_user}
use users_api.Models.Env.{Env}
use users_api.Models.Load.{
  ensure_r, link_head, fetch_referring, collect_foreign_keys, load_referring_user,
  load_referring_user_slice,
}
use users_api.Models.Load.Linked.{IsLinked}
use users_api.Models.Load.Linking.{link-Keeps, link_all-Keeps, collect_foreign_keys-Keeps}
use users_api.Models.Load.Fetching.{IsFaithful, Fetched, Got, Got-Below, fetch_referring-Keeps}
use users_api.Models.Load.Keeps.{Keeps, pure-Keeps, bind-Keeps, get_user-Keeps, ensure_r-Keeps}
use users_api.Models.Runs.Related.{Hold, NoSelectHooks}

module _ (E : Env) where
  open E use {sql as S, library as L}

  module _ (quiet : NoSelectHooks E) where
    -- `LoadReferringUser` for a slice, where no hook is registered, makes only links that the foreign
    -- keys name: if every loaded referrer is the object with the id that the key names, this is so
    -- afterwards, also when the call ends in an error.
    pub load_referring_user_slice-IsLinked :
        (w : World S)
        → IsLinked L w.heap
        → (conn : Conn S.Tx) (ps : List UserPtr)
        → IsLinked L (load_referring_user_slice E conn ps w).1.heap
    unfolding load_referring_user_slice
    load_referring_user_slice-IsLinked w good conn ps =
        let k : Keeps L w (load_referring_user_slice E conn ps w) (λ _ _. Unit) =
          bind-Keeps L (collect_foreign_keys E ps []) _ (collect_foreign_keys-Keeps E w good ps [])
            λ keys v goodv _ _.
              bind-Keeps L (fetch_referring E conn keys) _
                (fetch_referring-Keeps E quiet v goodv conn keys)
                λ found x goodx _ got.
                  link_all-Keeps E x goodx found ps (Got-Below E v conn keys found x got) in
        k.linked

    -- The keys that are fetched for one object.
    abbrev keys_of : Null String → List (Null String)
    keys_of k = if L.key_is_nil k then [] else k ∷ []

    collect_one-Keeps :
        (w : World S)
        → IsLinked L w.heap
        → (p : UserPtr)
        → Keeps L w (collect_foreign_keys E (p ∷ []) [] w) (λ keys v.
          (u : User) × (v.heap.cell p ≡ some u) × (keys ≡ keys_of u.columns.referring_user_id))
    unfolding collect_foreign_keys
    collect_one-Keeps w good p =
        bind-Keeps L (ensure_r p) _ (ensure_r-Keeps L w good p) λ _ v goodv _ _.
          bind-Keeps L (get_user p) _ (get_user-Keeps L v goodv p) λ u z goodz _ (same, here).
            pure-Keeps L _ goodz (u, ap (λ (y : World S). y.heap.cell p) same ∙ here, refl)

    first_row :
        (k : Null String) (h : Heap) (p : UserPtr) (ps : List UserPtr) (rows : List Row)
        → Hold h (p ∷ ps) rows
        → All (λ row. L.key_equal_id k row.id ≡ true) rows
        → (row : Row) × HasColumns h p row × (L.key_equal_id k row.id ≡ true)
    first_row k h p ps [] held named = absurd held
    first_row k h p ps (row ∷ rows) held named = (row, held.0, named.0)

    link_head-Keeps :
        (faithful : IsFaithful E) (v x : World S)
        → IsLinked L x.heap
        → (conn : Conn S.Tx) (object : UserPtr) (u : User) → object < v.heap.next
        → v.heap.cell object ≡ some u
        → (keys : List (Null String)) (found : List UserPtr)
        → keys ≡ keys_of u.columns.referring_user_id
        → Got E v conn keys found x
        → Keeps L x (link_head E object found x) (λ _ _. Unit)
    unfolding link_head
    link_head-Keeps faithful v x good conn object u lt here keys [] e got = pure-Keeps L tt good tt
    link_head-Keeps faithful v x good conn object u lt here keys (foreign ∷ rest) e got =
        let k = u.columns.referring_user_id in
        elim (Bool-cases (L.key_is_nil k)) [
          | inl missing ↦
              let nothing : keys ≡ [] = e ∙ (rw missing refl) in
              absurd (nil≢cons (sym (subst (λ ks. Got E v conn ks (foreign ∷ rest) x) nothing got)))
          | inr present ↦
              let one : keys ≡ k ∷ [] = e ∙ (rw present refl) in
              let f : Fetched E v conn Column.id (map null_text (L.range_keys (k ∷ [])))
                  (foreign ∷ rest) x =
                subst (λ ks. Got E v conn ks (foreign ∷ rest) x) one got in
              let (row, head, named) =
                first_row k x.heap foreign rest f.rows f.held
                  (faithful conn k v.db f.cursor f.rows f.queried f.bound) in
              link-Keeps E x good object foreign λ u' here'.
                let same : u ≡ u' =
                  some-injective u u' (sym here ∙ (sym (f.same object lt) ∙ here')) in
                record {
                  below = head.below;
                  target = head.user;
                  here = head.here;
                  named =
                      ap
                        (λ (y : User).
                          L.key_equal_id y.columns.referring_user_id head.user.columns.id)
                        (sym same)
                      ∙ (ap (λ (y : Row). L.key_equal_id k y.id) head.same ∙ named);
                }
        ]

    pub load_referring_user-Keeps :
        IsFaithful E
        → (w : World S) → IsLinked L w.heap
        → (conn : Conn S.Tx) (object : UserPtr) → object < w.heap.next
        → Keeps L w (load_referring_user E conn object w) (λ _ _. Unit)
    unfolding load_referring_user
    load_referring_user-Keeps faithful w good conn object lt =
        bind-Keeps L (collect_foreign_keys E (object ∷ []) []) _ (collect_one-Keeps w good object)
          λ keys v goodv grows (u, here, e).
            bind-Keeps L (fetch_referring E conn keys) _
              (fetch_referring-Keeps E quiet v goodv conn keys)
              λ found x goodx _ got.
                link_head-Keeps faithful v x goodx conn object u (omega (arith, lt, grows)) here
                  keys found e got

    -- `LoadReferringUser` for one object, where no hook is registered and the database answers a query
    -- for a key with rows that have it, links the object only to the one that its foreign key names,
    -- as it does for a slice.
    pub load_referring_user-IsLinked :
        IsFaithful E
        → (w : World S) → IsLinked L w.heap
        → (conn : Conn S.Tx) (object : UserPtr) → object < w.heap.next
        → IsLinked L (load_referring_user E conn object w).1.heap
    load_referring_user-IsLinked faithful w good conn object lt =
        let k = load_referring_user-Keeps faithful w good conn object lt in k.linked
