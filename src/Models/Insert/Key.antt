-- ===== src/Models/Insert/Key.antt =====
-- models/users.go: the key of the cache of `Upsert`.
use users_api.Base.{
  ℕ, String, ◌<>◌, Bool, true, false, List, ◌∷◌, ◌++◌, ◌≡◌, refl, sym, ap, ◌∙◌, arith,
  if◌then◌else◌,
}
use users_api.Models.User.{Column}
use users_api.Models.Env.{Columns}
use users_api.Models.CacheKey.{itoa, concat_names}
use users_api.Models.CacheKey.Codes.{head_of, tail_of, codes, codes-append}
use users_api.Models.CacheKey.Names.{run, run-injective}
use users_api.Models.CacheKey.Injective.{numbered-injective, only_run-injective}
use users_api.Models.Insert.{upsert_key}

flag_code : Bool → ℕ
flag_code true = 116
flag_code false = 102

flag_code-injective : (a b : Bool) → flag_code a ≡ flag_code b → a ≡ b
unfolding flag_code
flag_code-injective true true e = refl
flag_code-injective true false e = absurd (omega (arith, e))
flag_code-injective false true e = absurd (omega (arith, e))
flag_code-injective false false e = refl

codes-dot : (s : String) → codes ("." <> s) ≡ 46 ∷ codes s
codes-dot s = codes-append "." s

codes-flag : (b : Bool) (s : String) → codes ((if b then "t" else "f") <> s) ≡ flag_code b ∷ codes s
unfolding flag_code
codes-flag true s = codes-append "t" s
codes-flag false s = codes-append "f" s

numbered : Columns → List ℕ → List ℕ
numbered c x = codes (itoa c.kind) ++ (run c.cols ++ x)

codes-numbered :
    (c : Columns) (s : String)
    → codes (itoa c.kind <> (concat_names c.cols <> s)) ≡ numbered c (codes s)
unfolding numbered
codes-numbered c s =
    rw (codes-append (itoa c.kind) (concat_names c.cols <> s), codes-append (concat_names c.cols) s)
      refl

codes-upsert_key :
    (b : Bool) (conflict : List Column) (update insert : Columns) (nz : List Column)
    → codes (upsert_key b conflict update insert nz)
      ≡ flag_code b
        ∷ 46
        ∷ (run conflict ++ (46 ∷ numbered update (46 ∷ numbered insert (46 ∷ run nz))))
unfolding upsert_key
codes-upsert_key b conflict update insert nz =
    let last : String = concat_names nz in
    let third : String = itoa insert.kind <> (concat_names insert.cols <> ("." <> last)) in
    let second : String = itoa update.kind <> (concat_names update.cols <> ("." <> third)) in
    codes-flag b ("." <> (concat_names conflict <> ("." <> second)))
    ∙ ap (λ (l : List ℕ). flag_code b ∷ l)
        (codes-dot (concat_names conflict <> ("." <> second))
          ∙ ap (λ (l : List ℕ). 46 ∷ l)
              (codes-append (concat_names conflict) ("." <> second)
                ∙ ap (λ (l : List ℕ). run conflict ++ l)
                    (codes-dot second
                      ∙ ap (λ (l : List ℕ). 46 ∷ l)
                          (codes-numbered update ("." <> third)
                            ∙ ap (numbered update) (
                                codes-dot third
                                ∙ ap (λ (l : List ℕ). 46 ∷ l)
                                    (codes-numbered insert ("." <> last)
                                      ∙ ap (numbered insert) (codes-dot last)))))))

numbered_columns-injective :
    (c d : Columns) (x y : List ℕ) → numbered c (46 ∷ x) ≡ numbered d (46 ∷ y) → (c ≡ d) × (x ≡ y)
unfolding numbered
numbered_columns-injective c d x y e =
    let (k, cs, z) = numbered-injective c.kind d.kind c.cols d.cols (46 ∷ x) (46 ∷ y) refl refl e in
    ((λ i. record { kind = k i; cols = cs i }), ap tail_of z)

-- A key of the cache of `Upsert` determines all that it is made of: whether a conflict is an update,
-- the conflict columns, the sets of columns to update and to insert, and the columns with a non-zero
-- default. It says nothing of the options, which also shape the statement.
pub upsert_key-injective :
    (b b' : Bool) (conflict conflict' : List Column) (update update' insert insert' : Columns)
    (nz nz' : List Column)
    → upsert_key b conflict update insert nz ≡ upsert_key b' conflict' update' insert' nz'
    → (b ≡ b') × (conflict ≡ conflict') × (update ≡ update') × (insert ≡ insert') × (nz ≡ nz')
upsert_key-injective b b' conflict conflict' update update' insert insert' nz nz' e =
    let h =
      sym (codes-upsert_key b conflict update insert nz)
      ∙ (ap codes e ∙ codes-upsert_key b' conflict' update' insert' nz') in
    let (p, rest) =
      run-injective conflict conflict' (46 ∷ numbered update (46 ∷ numbered insert (46 ∷ run nz)))
        (46 ∷ numbered update' (46 ∷ numbered insert' (46 ∷ run nz'))) (omega arith) (omega arith)
        (ap tail_of (ap tail_of h)) in
    let (q, third) =
      numbered_columns-injective update update' (numbered insert (46 ∷ run nz))
        (numbered insert' (46 ∷ run nz')) (ap tail_of rest) in
    let (r, last) = numbered_columns-injective insert insert' (run nz) (run nz') third in
    (flag_code-injective b b' (ap head_of h), p, q, r, only_run-injective nz nz' last)
