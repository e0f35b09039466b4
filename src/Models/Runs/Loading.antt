-- ===== src/Models/Runs/Loading.antt =====
-- The rules for the loaders of models/users.go: no loader panics or touches the database, and the
-- object that `LoadReferringUser` is given has a relations struct afterwards.
use mathlib.Core.Option.{some-injective, some-ne-none}
use users_api.Base.{◌<◌, Option, none, some, ◌≡◌, refl, ◌∙◌, sym, ap, ◌⊎◌, inl, inr, arith}
use users_api.Models.User.{UserPtr, UserR, User, empty_r}
use users_api.Models.Sql.{Sql}
use users_api.Models.World.{World, get_user}
use users_api.Models.Load.{ensure_r, modify_r, give_r, change_r, set_referring, add_referred}
use users_api.Models.Runs.{IsWf, Runs, HasR, HasR-Extends, bind-Runs}
use users_api.Models.Runs.Steps.{pure-Runs, get_user-Runs}
use users_api.Models.Runs.Writing.{put_user-Runs}

module _ {S : Sql} where
  give_r-Runs :
      {F : Type 0}
      → (w : World S) → IsWf w.heap
      → (p : UserPtr) (u : User) (o : Option UserR) → p < w.heap.next
      → w.heap.cell p ≡ some u
      → u.r ≡ o
      → Runs F w (give_r p u o w) (λ _ v. HasR v.heap p)
  give_r-Runs w wf p u none lt e loaded =
      put_user-Runs w wf p _
        (record {
          below = lt;
          old = u;
          here = e;
          relations = empty_r;
          loaded = refl;
          closed = λ q z. cc;
        })
        refl
  give_r-Runs w wf p u (some r) lt e loaded =
      pure-Runs tt wf (record { below = lt; user = u; relations = r; here = e; loaded = loaded })

  pub ensure_r-Runs :
      {F : Type 0}
      → (w : World S) → IsWf w.heap
      → (p : UserPtr) → p < w.heap.next
      → Runs F w (ensure_r p w) (λ _ v. HasR v.heap p)
  unfolding ensure_r
  ensure_r-Runs w wf p lt =
      bind-Runs (get_user p) (λ u. give_r p u u.r) (get_user-Runs w wf p lt)
        λ u v wfv x _ e. give_r-Runs v wfv p u u.r (omega (arith, x.grows)) e refl

  change_r-Runs :
      {F : Type 0}
      → (w : World S) → IsWf w.heap
      → (p : UserPtr) (u : User) (f : UserR → UserR) (r : UserR) (o : Option UserR)
      → p < w.heap.next
      → w.heap.cell p ≡ some u
      → u.r ≡ some r
      → u.r ≡ o
      → ((s : UserR) (q : UserPtr) → u.r ≡ some s → (f s).referring_user ≡ some q → q < w.heap.next)
      → Runs F w (change_r p u f o w) (λ _ v. HasR v.heap p)
  change_r-Runs w wf p u f r none lt e l n k = absurd (some-ne-none r (sym l ∙ n))
  change_r-Runs w wf p u f r (some s) lt e l n k =
      put_user-Runs w wf p _
        (record {
          below = lt;
          old = u;
          here = e;
          relations = f s;
          loaded = refl;
          closed = λ q. k s q n;
        })
        refl

  -- The assignment leaves the referrer alone, or sets it to a good pointer.
  abbrev pub Points : World S → (UserR → UserR) → Type 0
  Points w f =
      (s : UserR) (q : UserPtr)
      → (f s).referring_user ≡ some q
      → (s.referring_user ≡ some q) ⊎ (q < w.heap.next)

  pub modify_r-Runs :
      {F : Type 0}
      → (w : World S) → IsWf w.heap
      → (p : UserPtr) (f : UserR → UserR) → HasR w.heap p
      → Points w f
      → Runs F w (modify_r p f w) (λ _ v. HasR v.heap p)
  unfolding modify_r
  modify_r-Runs w wf p f h k =
      bind-Runs (get_user p) (λ u. change_r p u f u.r) (get_user-Runs w wf p h.below)
        λ u v wfv x _ e.
          let g = HasR-Extends p x h in
          change_r-Runs v wfv p u f g.relations u.r g.below e
            (ap (λ (y : User). y.r) (some-injective u g.user (sym e ∙ g.here)) ∙ g.loaded) refl
            (λ s q es eq. elim (k s q eq) [
              | inl same ↦ wfv.closed p u s q e es same
              | inr lt ↦ omega (arith, x.grows)
            ])

  pub referring-Points :
      (w : World S) (p : UserPtr) → p < w.heap.next → Points w (set_referring (some p))
  referring-Points w p lt s q e = inr (rw (some-injective p q e) at lt)

  pub referred-Points : (w : World S) (p : UserPtr) → Points w (add_referred p)
  referred-Points w p s q e = inl e
