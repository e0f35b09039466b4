-- ===== src/Models/Runs/Related.antt =====
-- The rules for what the loaders do with lists of objects, and for `LoadReferringUser`.
use mathlib.Core.Option.{some-injective}
use users_api.Base.{
  refl, sym, ap, ◌∙◌, string_eq, String, ◌<◌, none, some, List, [], ◌∷◌, ◌≡◌, arith, Bool, true,
  false, All, if◌then◌else◌,
}
use users_api.Go.Null.{null_eq, Null}
use users_api.Models.Load.{
  add_key, ensure_r, modify_r, set_referring, add_referred, new_users, link, link_head, link_first,
  refers_to, collect_foreign_keys,
}
use users_api.Models.User.{User, Row, UserPtr}
use users_api.Models.Runs.Reasons.{foreign_keys}
use mathlib.Core.Path.{fun_ext}
use users_api.Go.Exec.{Exec, pure, for_each}
use users_api.Models.Sql.{Sql, Conn}
use users_api.Models.World.{Heap, World, get_user, new_user}
use users_api.Models.Hooks.{do_after_select_hooks}
use users_api.Models.Env.{Env}
use users_api.Models.Runs.{
  IsWf, Extends, Extends-trans, Runs, HasR, HasColumns, HasR-Extends, HasColumns-Extends, bind-Runs,
}
use users_api.Models.Runs.Steps.{pure-Runs, weaken-Runs, get_user-Runs}
use users_api.Models.Runs.Writing.{new_user-Runs}
use users_api.Models.Runs.Loading.{ensure_r-Runs, modify_r-Runs, referring-Points, referred-Points}

-- The objects that hold the rows of a list, in order.
abbrev pub Hold : Heap → List UserPtr → List Row → Type 0
Hold h [] [] = Unit
Hold h [] (row ∷ rows) = ⊥
Hold h (p ∷ ps) [] = ⊥
Hold h (p ∷ ps) (row ∷ rows) = HasColumns h p row × Hold h ps rows

pub Hold-Extends :
    {h h' : Heap} (ps : List UserPtr) (rows : List Row)
    → Extends h h'
    → Hold h ps rows
    → Hold h' ps rows
Hold-Extends [] [] x g = tt
Hold-Extends [] (row ∷ rows) x g = absurd g
Hold-Extends (p ∷ ps) [] x g = absurd g
Hold-Extends (p ∷ ps) (row ∷ rows) x g = (HasColumns-Extends p x g.0, Hold-Extends ps rows x g.1)

-- The pointers of a list are good.
abbrev pub Good : Heap → List UserPtr → Type 0
Good h = All (λ p. p < h.next)

pub Good-Extends : {h h' : Heap} (ps : List UserPtr) → Extends h h' → Good h ps → Good h' ps
Good-Extends [] x g = tt
Good-Extends (p ∷ ps) x g = (omega (arith, x.grows, g.0), Good-Extends ps x g.1)

pub Hold-Good : (h : Heap) (ps : List UserPtr) (rows : List Row) → Hold h ps rows → Good h ps
Hold-Good h [] [] g = tt
Hold-Good h [] (row ∷ rows) g = tt
Hold-Good h (p ∷ ps) [] g = absurd g
Hold-Good h (p ∷ ps) (row ∷ rows) g = (g.0.below, Hold-Good h ps rows g.1)

-- Good pointers hold some rows.
pub Good-Hold :
    (h : Heap) → IsWf h → (ps : List UserPtr) → Good h ps → (rows : List Row) × Hold h ps rows
Good-Hold h wf [] g = ([], tt)
Good-Hold h wf (p ∷ ps) g =
    let (u, e) = wf.allocated p g.0 in
    let (rows, held) = Good-Hold h wf ps g.1 in
    (u.columns ∷ rows, (record { below = g.0; user = u; here = e; same = refl }, held))

-- The columns of an object that was read.
pub read_columns :
    {h : Heap} {row : Row} (p : UserPtr) (u : User)
    → HasColumns h p row
    → h.cell p ≡ some u
    → u.columns ≡ row
read_columns p u c e =
    ap (λ (y : User). y.columns) (some-injective u c.user (sym e ∙ c.here)) ∙ c.same

module _ {S : Sql} where
  pub new_users-Runs :
      {F : Type 0}
      → (w : World S) → IsWf w.heap
      → (rows : List Row) → Runs F w (new_users rows w) (λ ps v. Hold v.heap ps rows)
  unfolding new_users
  new_users-Runs w wf [] = pure-Runs [] wf tt
  new_users-Runs w wf (row ∷ rows) =
      bind-Runs (new_user (record { columns = row; r = none })) _ (new_user-Runs w wf row)
        λ p v wfv xv _ here.
          bind-Runs (new_users rows) _ (new_users-Runs v wfv rows)
            λ ps z wfz xz _ held. pure-Runs (p ∷ ps) wfz (HasColumns-Extends p xz here, held)

module _ {S : Sql} {X : Type 0} where
  -- A loop whose steps are good from every world that extends the first.
  pub for_each-Runs :
      {F : Type 0}
      → (f : X → Exec (World S) Unit) (P : Heap → X → Type 0)
      → ((h h' : Heap) (x : X) → Extends h h' → P h x → P h' x)
      → ((v : World S) (x : X) → IsWf v.heap → P v.heap x → Runs F v (f x v) (λ _ _. Unit))
      → (w : World S) → IsWf w.heap
      → (xs : List X) → All (P w.heap) xs
      → Runs F w (for_each f xs w) (λ _ _. Unit)
  unfolding for_each
  for_each-Runs f P keep step w wf [] g = pure-Runs tt wf tt
  for_each-Runs f P keep step w wf (x ∷ xs) g =
      bind-Runs (f x) _ (step w x wf g.0)
        λ _ v wfv xv _ _. for_each-Runs f P keep step v wfv xs (later xs xv g.1)
    where
      later : {h h' : Heap} (ys : List X) → Extends h h' → All (P h) ys → All (P h') ys
      later [] x a = tt
      later {h} {h'} (y ∷ ys) x a = (keep h h' y x a.0, later ys x a.1)

-- The program registers no hook: then the hooks of a query do nothing.
abbrev pub NoSelectHooks : Env → Type 0
NoSelectHooks E = E.hooks.after_select_hooks ≡ []

pub hooks-pure :
    (E : Env)
    → NoSelectHooks E
    → (conn : Conn E.sql.Tx) (p : UserPtr) → do_after_select_hooks E.ctx E.hooks conn p ≡ pure tt
unfolding do_after_select_hooks for_each
hooks-pure E quiet conn p = fun_ext (λ w. rw quiet (ground arith))

pub units {ℓ} : {A : Type ℓ} (xs : List A) → All (λ _. Unit {0}) xs
units [] = tt
units (x ∷ xs) = (tt, units xs)

pub HasR-All :
    {h h' : Heap} → Extends h h' → (ps : List UserPtr) → All (HasR h) ps → All (HasR h') ps
HasR-All x [] a = tt
HasR-All x (p ∷ ps) a = (HasR-Extends p x a.0, HasR-All x ps a.1)

module _ (E : Env) where
  open E use {sql as S, library as L}

  pub link-Runs :
      {F : Type 0}
      → (w : World S) → IsWf w.heap
      → (local foreign : UserPtr) → HasR w.heap local
      → foreign < w.heap.next
      → Runs F w (link E local foreign w) (λ _ _. Unit)
  unfolding link
  link-Runs w wf local foreign h lt =
      bind-Runs (modify_r local (set_referring (some foreign))) _
        (modify_r-Runs w wf local _ h (referring-Points w foreign lt))
        λ _ v wfv xv _ _.
          bind-Runs (ensure_r foreign) _ (ensure_r-Runs v wfv foreign (omega (arith, xv.grows)))
            λ _ u wfu _ _ g.
              weaken-Runs (modify_r foreign (add_referred local))
                (modify_r-Runs u wfu foreign _ g (referred-Points u local)) (λ _ _ _ _. tt)

  pub link_head-Runs :
      {F : Type 0}
      → (w : World S) → IsWf w.heap
      → (object : UserPtr) (found : List UserPtr) → HasR w.heap object
      → Good w.heap found
      → Runs F w (link_head E object found w) (λ _ _. Unit)
  unfolding link_head
  link_head-Runs w wf object [] h g = pure-Runs tt wf tt
  link_head-Runs w wf object (foreign ∷ rest) h g = link-Runs w wf object foreign h g.0

  refers_to-Runs :
      {F : Type 0}
      → (w : World S) → IsWf w.heap
      → (local foreign : UserPtr) → local < w.heap.next
      → foreign < w.heap.next
      → Runs F w (refers_to E local foreign w) (λ _ _. Unit)
  unfolding refers_to
  refers_to-Runs w wf local foreign k l =
      bind-Runs (get_user local) _ (get_user-Runs w wf local k) λ a v wfv xv _ _.
        bind-Runs (get_user foreign) _ (get_user-Runs v wfv foreign (omega (arith, xv.grows)))
          λ b u wfu _ _ _. pure-Runs _ wfu tt

  link_or :
      {F : Type 0}
      → (v : World S) (b : Bool) (local foreign : UserPtr) (rest : List UserPtr)
      → Runs F v (link E local foreign v) (λ _ _. Unit)
      → Runs F v (link_first E local rest v) (λ _ _. Unit)
      → Runs F v ((if b then link E local foreign else link_first E local rest) v) (λ _ _. Unit)
  link_or v true local foreign rest h k = h
  link_or v false local foreign rest h k = k

  pub link_first-Runs :
      {F : Type 0}
      → (w : World S) → IsWf w.heap
      → (local : UserPtr) (found : List UserPtr) → HasR w.heap local
      → Good w.heap found
      → Runs F w (link_first E local found w) (λ _ _. Unit)
  unfolding link_first
  link_first-Runs w wf local [] h g = pure-Runs tt wf tt
  link_first-Runs w wf local (foreign ∷ rest) h g =
      bind-Runs (refers_to E local foreign) _ (refers_to-Runs w wf local foreign h.below g.0)
        λ b v wfv xv _ _.
          let hv = HasR-Extends local xv h in
          let gv = Good-Extends (foreign ∷ rest) xv g in
          link_or v b local foreign rest (link-Runs v wfv local foreign hv gv.0)
            (link_first-Runs v wfv local rest hv gv.1)

  -- The loop over the slice, once every object has a relations struct.
  pub link_all :
      {F : Type 0}
      → (w : World S) → IsWf w.heap
      → (found ps : List UserPtr) → Good w.heap found
      → All (HasR w.heap) ps
      → Runs F w (for_each (λ local. link_first E local found) ps w) (λ _ _. Unit)
  unfolding for_each
  link_all w wf found [] g h = pure-Runs tt wf tt
  link_all w wf found (p ∷ ps) g h =
      bind-Runs (link_first E p found) _ (link_first-Runs w wf p found h.0 g)
        λ _ v wfv xv _ _. link_all v wfv found ps (Good-Extends found xv g) (HasR-All xv ps h.1)

  -- The loop gives every object a relations struct, and collects the keys of their rows.
  pub collect_foreign_keys-Runs :
      {F : Type 0}
      → (w : World S) → IsWf w.heap
      → (ps : List UserPtr) (rows : List Row) (keys : List (Null String)) → Hold w.heap ps rows
      → Runs F w
          (collect_foreign_keys E ps keys w)
          (λ out v. (out ≡ foreign_keys L rows keys) × All (HasR v.heap) ps)
  unfolding collect_foreign_keys
  collect_foreign_keys-Runs w wf [] [] keys g = pure-Runs keys wf (refl, tt)
  collect_foreign_keys-Runs w wf [] (row ∷ rows) keys g = absurd g
  collect_foreign_keys-Runs w wf (p ∷ ps) [] keys g = absurd g
  collect_foreign_keys-Runs w wf (p ∷ ps) (row ∷ rows) keys g =
      bind-Runs (ensure_r p) _ (ensure_r-Runs w wf p g.0.below) λ _ v wfv xv _ h.
        bind-Runs (get_user p) _ (get_user-Runs v wfv p h.below) λ u z wfz xz _ e.
          let same : u.columns ≡ row =
            read_columns p u (HasColumns-Extends p (Extends-trans xv xz) g.0) e in
          weaken-Runs (collect_foreign_keys E ps _)
            (collect_foreign_keys-Runs z wfz ps rows _
              (Hold-Extends ps rows (Extends-trans xv xz) g.1))
            (λ _ y xy a. (
              a.0
                  ∙ ap
                      (λ (r : Row). foreign_keys L rows (
                        if L.key_is_nil r.referring_user_id
                        then keys
                        else add_key r.referring_user_id keys))
                      same,
              (HasR-Extends p (Extends-trans xz xy) h, a.1),
            ))
