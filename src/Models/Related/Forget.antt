-- ===== src/Models/Related/Forget.antt =====
-- models/users.go: the loop of `RemoveReferringUser`, which compares foreign keys.
use mathlib.Core.List.{Mem, Mem-prop, eq-or-mem_of_mem-cons, perm_middle}
use mathlib.Core.List.Perm
use mathlib.Core.Logic.Or
use mathlib.Core.Path.{subst}
use mathlib.Core.Option.{some-injective}
use mathlib.Core.Bool.{true≢false}
use users_api.Base.{
  ℕ, String, true, false, Option, none, some, List, [], ◌∷◌, ◌++◌, All, length, ◌≡◌, ◌≢◌, refl, sym,
  ap, ◌∙◌, inl, inr, arith, Bool-cases, nat_eq,
}
use users_api.Go.Result.{ok}
use users_api.Go.Null.{Null}
use users_api.Models.User.{UserPtr, UserR, User}
use users_api.Models.World.{World, put_user}
use users_api.Models.Objects.{get_user_lem, written}
use users_api.Models.Env.{Env}
use users_api.Models.Related.{
  swap_remove, remove_at, index_of_other, next_index, forget_referrer, modify_loaded,
}
use users_api.Models.Related.Detach.{swap_remove-Perm}

-- A list from which the entry at an index was taken keeps every other one.
kept :
    (before after : List UserPtr) (p o : UserPtr)
    → o ≢ p
    → Mem o (before ++ p ∷ after)
    → Mem o (swap_remove (length before) (before ++ p ∷ after))
kept before after p o differ m =
    let front : Mem o (p ∷ (before ++ after)) = (Perm.mem_iff (perm_middle before after)).0 m in
    let rest : Mem o (before ++ after) =
      Or.elim (Mem-prop {a = o} {l = before ++ after}) (eq-or-mem_of_mem-cons front)
        (λ e. absurd (differ e)) (λ h. h) in
    (Perm.mem_iff (swap_remove-Perm before p after)).1 rest

module _ (E : Env) where
  open E use {sql as S, library as L}

  -- What the loop says of an index: it is that of an entry with another key.
  record Other (w : World S) (key : Null String) (ps : List UserPtr) (i : ℕ) : Type 0 where
    before : List UserPtr
    entry : UserPtr
    after : List UserPtr
    object : User
    split : ps ≡ before ++ entry ∷ after
    index : i ≡ length before
    here : w.heap.cell entry ≡ some object
    other : L.key_equal key object.columns.referring_user_id ≡ false

  abbrev IsAnswer : World S → Null String → List UserPtr → Option ℕ → Type 0
  IsAnswer w key ps none = Unit
  IsAnswer w key ps (some i) = Other w key ps i

  next_index-IsAnswer :
      (w : World S) (key : Null String) (p : UserPtr) (ps : List UserPtr) (found : Option ℕ)
      → IsAnswer w key ps found
      → IsAnswer w key (p ∷ ps) (next_index E found)
  next_index-IsAnswer w key p ps none a = tt
  next_index-IsAnswer w key p ps (some i) a = record {
    before = p ∷ a.before;
    entry = a.entry;
    after = a.after;
    object = a.object;
    split = ap (λ (l : List UserPtr). p ∷ l) a.split;
    index = omega (arith, a.index);
    here = a.here;
    other = a.other;
  }

  index_of_other_lem :
      (w : World S) (key : Null String) (ps : List UserPtr)
      → All (λ p. (u : User) × (w.heap.cell p ≡ some u)) ps
      → (found : Option ℕ) × (index_of_other E key ps w ≡ (ok found, w)) × IsAnswer w key ps found
  unfolding index_of_other
  index_of_other_lem w key [] h = (none, refl, tt)
  index_of_other_lem w key (p ∷ ps) h =
      let (u, here) = h.0 in
      let (found, runs, answer) = index_of_other_lem w key ps h.1 in
      elim (Bool-cases (L.key_equal key u.columns.referring_user_id)) [
        | inl equal ↦ (
          next_index E found,
          rw (get_user_lem w p u here, equal, runs) refl,
          next_index-IsAnswer w key p ps found answer,
        )
        | inr other ↦ (
          some 0,
          rw (get_user_lem w p u here, other) refl,
          record {
            before = [];
            entry = p;
            after = ps;
            object = u;
            split = refl;
            index = refl;
            here = here;
            other = other;
          },
        )
      ]

  -- The entry with another key is not an object that has this one.
  not_self :
      (w : World S) (o : UserPtr) (user : User) (ps : List UserPtr) (i : ℕ)
      → ((k : Null String) → L.key_equal k k ≡ true)
      → w.heap.cell o ≡ some user
      → (a : Other w user.columns.referring_user_id ps i) → o ≢ a.entry
  not_self w o user ps i reflexive here a same =
      let u : user ≡ a.object =
        some-injective user a.object (sym here ∙ (ap w.heap.cell same ∙ a.here)) in
      let k = ap (λ (x : User). x.columns.referring_user_id) u in
      true≢false (
        sym (reflexive user.columns.referring_user_id)
        ∙ (ap (L.key_equal user.columns.referring_user_id) k ∙ a.other))

  still_there :
      (w : World S) (o : UserPtr) (user : User) (ps : List UserPtr) (found : Option ℕ)
      → ((k : Null String) → L.key_equal k k ≡ true)
      → w.heap.cell o ≡ some user
      → IsAnswer w user.columns.referring_user_id ps found
      → Mem o ps
      → Mem o (remove_at found ps)
  still_there w o user ps none reflexive here a m = m
  still_there w o user ps (some i) reflexive here a m =
      let moved : swap_remove i ps ≡ swap_remove (length a.before) (a.before ++ a.entry ∷ a.after) =
        ap (λ n. swap_remove n ps) a.index ∙ ap (swap_remove (length a.before)) a.split in
      rw moved (
        kept a.before a.after a.entry o (not_self w o user ps i reflexive here a)
          (subst (Mem o) a.split m))

  modify_loaded_lem :
      (w : World S) (p : UserPtr) (u : User) (r : UserR) (f : UserR → UserR)
      → w.heap.cell p ≡ some (record u { r = some r })
      → modify_loaded E p f w ≡ (ok tt, written p (record u { r = some (f r) }) w)
  unfolding modify_loaded put_user
  modify_loaded_lem w p u r f h = rw (get_user_lem w p (record u { r = some r }) h) refl

  -- The loop of `RemoveReferringUser` is to take the object out of the referrer's list. It returns and
  -- changes nothing but that list, but the object stays in it: the comparison of foreign keys never
  -- picks the object itself. This holds where the list's entries are objects and a key equals itself.
  pub forget_referrer-keeps :
      (w : World S) (o related : UserPtr) (user rel : User) (r : UserR)
      → ((k : Null String) → L.key_equal k k ≡ true)
      → w.heap.cell o ≡ some user
      → w.heap.cell related ≡ some (record rel { r = some r })
      → All (λ p. (u : User) × (w.heap.cell p ≡ some u)) r.referring_user_users
      → Mem o r.referring_user_users
      → (ps : List UserPtr) × Mem o ps
        × (forget_referrer E o (some related) w ≡ (
          ok tt,
          written related (record rel { r = some (record r { referring_user_users = ps }) }) w,
        ))
  unfolding forget_referrer
  forget_referrer-keeps w o related user rel r reflexive here there known m =
      let (found, runs, answer) =
        index_of_other_lem w user.columns.referring_user_id r.referring_user_users known in
      (
        remove_at found r.referring_user_users,
        still_there w o user r.referring_user_users found reflexive here answer m,
        rw
            (
              get_user_lem w related (record rel { r = some r }) there,
              get_user_lem w o user here,
              runs,
            )
            (modify_loaded_lem w related rel r
              (λ x. record x { referring_user_users = remove_at found x.referring_user_users })
              there),
      )
