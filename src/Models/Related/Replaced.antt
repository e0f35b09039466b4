-- ===== src/Models/Related/Replaced.antt =====
-- models/users.go: what `SetReferringUserUsers` leaves.
use mathlib.Core.Path.{subst}
use users_api.Base.{
  String, true, false, some, List, [], ◌∷◌, ◌≡◌, ◌⊎◌, inl, inr, refl, sym, ap, ◌∙◌, All, nat_eq,
  contains,
}
use users_api.Go.Error.{wrap}
use users_api.Go.Exec.{wrapping, ◌>>◌}
use users_api.Models.User.{UserPtr, User}
use users_api.Models.Sql.{Conn, clear_referring}
use users_api.Models.World.{Heap, World, change_db}
use users_api.Models.Objects.{get_user_lem}
use users_api.Models.Env.{Env}
use users_api.Models.Insert.{exec_only}
use users_api.Models.Related.{release_all, add_referring_user_users, set_referring_user_users}
use users_api.Models.Related.Links.{relations}
use users_api.Models.Related.Goes.{Goes, bind-Goes, mapped, both-Goes}
use users_api.Models.Related.Each.{Held, All-Held-Each, Framed, contains-or-differs}
use users_api.Models.Related.Released.{IsReleasedAt, StaysReleased, ListIs, release_all-Goes}
use users_api.Models.Related.Added.{executed, AreLinked, add_referring_user_users-AreLinked}
use users_api.Models.Related.Appended.{add-Appended}

module _ (E : Env) where
  open E use {sql as S, library as L}

  -- An object is released, or it is the given one or among the given ones.
  abbrev pub ReleasedUnless : UserPtr → List UserPtr → Heap → UserPtr → Type 0
  ReleasedUnless o ps h q = (contains (o ∷ ps) q ≡ true) ⊎ IsReleasedAt E h q

  -- The given objects are linked, the list is theirs, and the former ones are released.
  abbrev pub AreReplaced : User → UserPtr → List UserPtr → Heap → Type 0
  AreReplaced user o ps h =
      AreLinked E (L.key_assign user.columns.id) o ps h
      × ListIs E ps o h
      × All (ReleasedUnless o ps h) (relations user.r).referring_user_users

  unless-Framed :
      (o : UserPtr) (ps qs : List UserPtr) (h h' : Heap)
      → Framed (o ∷ ps) h h'
      → All (IsReleasedAt E h) qs
      → All (ReleasedUnless o ps h') qs
  unless-Framed o ps [] h h' f a = tt
  unless-Framed o ps (q ∷ qs) h h' f ((u, e, r), rest) = (
    elim (contains-or-differs (o ∷ ps) q) [
      | inl among ↦ inl among
      | inr differ ↦ inr (u, f q differ ∙ e, r)
    ],
    unless-Framed o ps qs h h' f rest,
  )

  clear-Goes :
      (conn : Conn S.Tx) (user : User) (w : World S)
      → Goes
          (wrapping
            (λ e. wrap e "failed to remove relationships before set")
            (exec_only E conn (clear_referring user.columns.id))
            w)
          (λ _ v. v.heap ≡ w.heap)
  unfolding exec_only change_db
  clear-Goes conn user w =
      executed E (λ e. wrap e "failed to remove relationships before set") conn _ w _
        (S.exec conn _ w.db).1 refl

  -- `SetReferringUserUsers` without an insertion never panics, and returns an error only if a
  -- statement fails. Otherwise each of the given objects has the object's id as its foreign key
  -- and points to the object, the object's list is exactly the given ones, and each that was in
  -- the list before has a null foreign key and points to none, but for the object itself and the
  -- given ones. This holds where all of them are objects; one may be given twice, stand in both
  -- lists, or be the object itself.
  pub set_referring_user_users-AreReplaced :
      (conn : Conn S.Tx) (o : UserPtr) (ps : List UserPtr) (user : User) (w : World S)
      → w.heap.cell o ≡ some user
      → All (Held w.heap) ps
      → All (Held w.heap) (relations user.r).referring_user_users
      → Goes (set_referring_user_users E conn false o ps w) (λ _ v. AreReplaced user o ps v.heap)
  unfolding set_referring_user_users
  set_referring_user_users-AreReplaced conn o ps user w here held related =
      let olds = (relations user.r).referring_user_users in
      let adding = add_referring_user_users E conn false o ps in
      rw (get_user_lem w o user here) (
        bind-Goes
          (wrapping (λ e. wrap e "failed to remove relationships before set")
            (exec_only E conn (clear_referring user.columns.id)))
          (λ _. release_all E o user.r >> adding) w (clear-Goes conn user w)
          λ _ v same.
            let at = ap (λ (h : Heap). h.cell o) same ∙ here in
            let held_by = λ (qs : List UserPtr) (a : All (Held w.heap) qs).
              subst (λ (h : Heap). All (Held h) qs) (sym same) a in
            bind-Goes (release_all E o user.r) (λ _. adding) v
              (release_all-Goes E o user v at (held_by olds related))
              λ _ x (k, released, emptied).
                let (user', there, kept) = k o user at in
                let held' = All-Held-Each (StaysReleased E) v.heap x.heap ps k (held_by ps held) in
                mapped (adding x)
                  (both-Goes (adding x)
                    (add_referring_user_users-AreLinked E conn o ps user' x there held')
                    (add-Appended E conn o ps [] x emptied held'))
                  (λ _ y (linked, appended). (
                    subst (λ (i : String). AreLinked E (L.key_assign i) o ps y.heap) kept.0 linked,
                    appended.0,
                    unless-Framed o ps olds x.heap y.heap appended.1 released,
                  )))
